-- ===== src/Tests/ConfigTests.antt =====
-- The theorems on the configuration at a sample production deployment.
use ai_rag.Prelude.{
  ℕ, ◌≡◌, refl, Text, List, [], ◌∷◌, Bool, true, false, none, some, codes, text_eq, text_eq_iff, In,
  contains, lower, to_lower, arith, lstrip, is_space, strip, rstrip,
}
use ai_rag.Prelude.Result.{Result, ok}
use ai_rag.Schemas.Principal.{Principal}
use ai_rag.Security.Auth.{
  Credentials, authenticate, build_authenticator, bearer_token, cut_word, find_token, IsExact,
}
use ai_rag.Config.Settings.{
  Settings, VectorBackend, LexicalBackend, EmbeddingBackend, LlmBackend, CacheBackend, RerankerName,
  QueryMode, validate, is_production, problems, problem, is_hash, is_echo,
}
use ai_rag.Config.Backends.Production.{IsSafe, validate-IsSafe, production-In}
use ai_rag.Tests.Samples.{alice}

abbrev live : Settings ℕ
live = record {
  env = codes "Prod";
  service_name = codes "rag-api";
  index_version = codes "v1";
  collection_alias = codes "docs_live";
  collection_prefix = codes "docs";
  data_root = codes "data";
  configs_root = codes "configs";
  index_registry_file = none;
  vector_backend = VectorBackend.qdrant;
  lexical_backend = LexicalBackend.opensearch;
  embedding_backend = EmbeddingBackend.openai;
  llm_backend = LlmBackend.openai;
  chat_llm_backend = LlmBackend.openai;
  cache_backend = CacheBackend.redis;
  reranker = RerankerName.identity;
  agent_enabled = true;
  agent_default_mode = QueryMode.auto;
  agent_allow_egress = false;
  agent_include_trace = false;
  agent_max_steps = 6;
  agent_max_tool_calls = 10;
  agent_max_critique_rounds = 2;
  agent_max_tokens = 20000;
  agent_max_cost_usd = 1;
  agent_max_wall_clock_seconds = 30;
  agent_tool_cache_enabled = true;
  agent_tool_cache_ttl_seconds = 600;
  agent_max_concurrent_per_tenant = 4;
  top_k = 10;
  rerank_top_k = 5;
  rrf_k = 60;
  dense_weight = 1;
  lexical_weight = 1;
  rewrite_enabled = true;
  multi_query_enabled = false;
  multi_query_count = 3;
  hyde_enabled = false;
  refusal_score_threshold = 1;
  cache_enabled = true;
  cache_ttl_seconds = 3600;
  semantic_cache_enabled = true;
  semantic_cache_threshold = 1;
  embedding_model = codes "m";
  embedding_dimensions = 1536;
  hash_embedding_dimensions = 64;
  llm_model = codes "m";
  llm_fallback_models = codes "n" ∷ [];
  llm_max_attempts = 3;
  llm_timeout_seconds = 30;
  llm_max_output_tokens = 1024;
  llm_temperature = 0;
  auth_required = true;
  auth_trust_headers = false;
  auth_tokens_file = some (codes "tokens.yaml");
  default_tenant = codes "default";
  pii_redaction_enabled = true;
  cors_allow_origins = [];
  request_timeout_seconds = 30;
  metrics_enabled = true;
  openai_api_key = some (codes "k");
  qdrant_url = codes "q";
  qdrant_api_key = none;
  opensearch_url = codes "o";
  redis_url = codes "r";
}

is_live : is_production live ≡ true
unfolding is_production contains text_eq lower to_lower
is_live = refl

is_valid : validate live ≡ ok live
unfolding validate is_production contains text_eq lower to_lower problems problem is_hash is_echo
is_valid = refl

validate-IsSafe_example : IsSafe live
validate-IsSafe_example = validate-IsSafe live live is_live is_valid

abbrev compare : Text → Text → Result Bool
compare x y = ok (text_eq x y)

compare-IsExact : IsExact compare
unfolding IsExact
compare-IsExact x y h = (text_eq_iff x y).0 (ground arith)

abbrev asked : Credentials
asked = record {
  authorization = some (codes "Bearer abc");
  tenant = some (codes "other");
  groups = none;
  subject = none;
}

abbrev tokens : List (Text × Principal)
tokens = (codes "abc", alice) ∷ []

entered :
    authenticate compare
      (build_authenticator
        (some tokens)
        live.auth_trust_headers
        live.auth_required
        live.default_tenant)
      asked
    ≡ ok alice
unfolding authenticate build_authenticator bearer_token cut_word lstrip is_space strip rstrip lower
    to_lower text_eq find_token
entered = refl

production-In_example :
    (token : Text) × (bearer_token asked.authorization ≡ some token) × In (token, alice) tokens
production-In_example =
    production-In live live compare (some tokens) asked alice is_live is_valid compare-IsExact
      entered
