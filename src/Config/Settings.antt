-- ===== src/Config/Settings.antt =====
-- `Settings` of src/rag/settings.py, after the environment and the YAML files are read. Paths are texts.
use ai_rag.Prelude.{
  ℕ, Text, List, [], ◌∷◌, ◌++◌, map, Bool, true, false, not, ◌&&◌, Option, none, some,
  if◌then◌else◌, codes, is_empty, contains, lower, strip, keep, starts_with, or_else,
}
use ai_rag.Prelude.Result.{Result, ok, raise, value_error}
use ai_rag.Schemas.Agent.{Budget}
use ai_rag.Security.Auth.{split_commas}

pub data VectorBackend : Type 0 where
  memory qdrant : VectorBackend

pub data LexicalBackend : Type 0 where
  memory opensearch : LexicalBackend

pub data EmbeddingBackend : Type 0 where
  hash openai : EmbeddingBackend

-- Of the plain and of the chat model.
pub data LlmBackend : Type 0 where
  echo openai : LlmBackend

pub data CacheBackend : Type 0 where
  memory redis : CacheBackend

pub data RerankerName : Type 0 where
  identity cross_encoder : RerankerName

pub data QueryMode : Type 0 where
  auto fast agent : QueryMode

pub record Settings (F : Type 0) : Type 0 where
  pub env : Text
  pub service_name : Text
  pub index_version : Text
  pub collection_alias : Text
  pub collection_prefix : Text
  pub data_root : Text
  pub configs_root : Text
  pub index_registry_file : Option Text
  pub vector_backend : VectorBackend
  pub lexical_backend : LexicalBackend
  pub embedding_backend : EmbeddingBackend
  pub llm_backend : LlmBackend
  pub chat_llm_backend : LlmBackend
  pub cache_backend : CacheBackend
  pub reranker : RerankerName
  pub agent_enabled : Bool
  pub agent_default_mode : QueryMode
  pub agent_allow_egress : Bool
  pub agent_include_trace : Bool
  pub agent_max_steps : ℕ
  pub agent_max_tool_calls : ℕ
  pub agent_max_critique_rounds : ℕ
  pub agent_max_tokens : ℕ
  pub agent_max_cost_usd : F
  pub agent_max_wall_clock_seconds : F
  pub agent_tool_cache_enabled : Bool
  pub agent_tool_cache_ttl_seconds : ℕ
  pub agent_max_concurrent_per_tenant : ℕ
  pub top_k : ℕ
  pub rerank_top_k : ℕ
  pub rrf_k : ℕ
  pub dense_weight : F
  pub lexical_weight : F
  pub rewrite_enabled : Bool
  pub multi_query_enabled : Bool
  pub multi_query_count : ℕ
  pub hyde_enabled : Bool
  pub refusal_score_threshold : F
  pub cache_enabled : Bool
  pub cache_ttl_seconds : ℕ
  pub semantic_cache_enabled : Bool
  pub semantic_cache_threshold : F
  pub embedding_model : Text
  pub embedding_dimensions : ℕ
  pub hash_embedding_dimensions : ℕ
  pub llm_model : Text
  pub llm_fallback_models : List Text
  pub llm_max_attempts : ℕ
  pub llm_timeout_seconds : F
  pub llm_max_output_tokens : ℕ
  pub llm_temperature : F
  pub auth_required : Bool
  pub auth_trust_headers : Bool
  pub auth_tokens_file : Option Text
  pub default_tenant : Text
  pub pii_redaction_enabled : Bool
  pub cors_allow_origins : List Text
  pub request_timeout_seconds : F
  pub metrics_enabled : Bool
  pub openai_api_key : Option Text
  pub qdrant_url : Text
  pub qdrant_api_key : Option Text
  pub opensearch_url : Text
  pub redis_url : Text

-- What `_split_csv` makes of a text: a list, or the text itself, which is then read as JSON.
pub data Listed : Type 0 where
  parts : List Text → Listed
  json : Text → Listed

unfoldable pub split_csv : Text → Listed
unfolding split_commas
split_csv value =
    let stripped = strip value in
    if is_empty stripped
    then parts []
    else if starts_with stripped (codes "[")
    then json value
    else parts (keep (λ part. not (is_empty part)) (map strip (split_commas [] stripped)))

abbrev production_envs : List Text
production_envs = codes "prod" ∷ codes "production" ∷ codes "staging" ∷ codes "stage" ∷ []

unfoldable pub is_hash : EmbeddingBackend → Bool
is_hash EmbeddingBackend.hash = true
is_hash EmbeddingBackend.openai = false

unfoldable pub is_echo : LlmBackend → Bool
is_echo LlmBackend.echo = true
is_echo LlmBackend.openai = false

-- One message where the test says so.
unfoldable pub problem : Bool → Text → List Text
problem true message = message ∷ []
problem false message = []

module _ {F : Type 0} where
  unfoldable pub is_production : Settings F → Bool
  is_production self = contains (lower self.env) production_envs

  -- The problems of a production configuration, each with the head of its message.
  unfoldable pub problems : Settings F → List Text
  problems self =
      problem self.auth_trust_headers (codes "RAG_AUTH_TRUST_HEADERS must be false outside dev")
      ++ (problem (not self.auth_required) (codes "RAG_AUTH_REQUIRED must be true outside dev")
          ++ (problem (is_hash self.embedding_backend)
                (codes "RAG_EMBEDDING_BACKEND=hash is a deterministic test stub, not a real model")
              ++ (problem (is_echo self.llm_backend)
                    (codes "RAG_LLM_BACKEND=echo is a test stub, not a real model")
                  ++ (problem (self.agent_enabled && is_echo self.chat_llm_backend)
                        (codes "RAG_AGENT_ENABLED requires RAG_CHAT_LLM_BACKEND!=echo outside dev")
                      ++ problem self.agent_allow_egress
                          (codes "RAG_AGENT_ALLOW_EGRESS must be false outside dev")))))

  -- `_reject_unsafe_production_config`, the validator that runs last
  unfoldable pub validate : Settings F → Result (Settings F)
  validate self =
      if not (is_production self)
      then ok self
      else if is_empty (problems self)
      then ok self
      else raise (value_error (codes "Unsafe configuration"))

  unfoldable pub collection_for : Option Text → Settings F → Text
  collection_for none self = self.collection_prefix ++ (codes "__" ++ self.index_version)
  collection_for (some v) self =
      self.collection_prefix ++ (codes "__" ++ (if is_empty v then self.index_version else v))

  unfoldable pub index_registry_path : Settings F → Text
  index_registry_path self =
      or_else self.index_registry_file (self.configs_root ++ codes "/index_versions.yaml")

  unfoldable pub agent_budget : Settings F → Budget F
  agent_budget self = record {
    max_steps = self.agent_max_steps;
    max_tool_calls = self.agent_max_tool_calls;
    max_critique_rounds = self.agent_max_critique_rounds;
    max_tokens = self.agent_max_tokens;
    max_cost_usd = self.agent_max_cost_usd;
    max_wall_clock_seconds = self.agent_max_wall_clock_seconds;
  }
