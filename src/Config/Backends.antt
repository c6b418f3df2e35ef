-- ===== src/Config/Backends.antt =====
-- src/rag/backends.py: which implementation each interface gets, with the arguments of its constructor.
pub mod Production
use ai_rag.Prelude.{
  ℕ, Text, List, [], ◌∷◌, map, Bool, true, false, not, ◌&&◌, Option, none, some, if◌then◌else◌,
  codes,
}
use ai_rag.Schemas.Agent.{Budget}
use ai_rag.Config.Settings.{
  Settings, VectorBackend, LexicalBackend, EmbeddingBackend, LlmBackend, CacheBackend, RerankerName,
  collection_for, agent_budget,
}

pub data BuiltEmbedder : Type 0 where
  openai_embedder : (model : Text) → (dimensions : ℕ) → (api_key : Option Text) → BuiltEmbedder
  hash_embedder : (dimensions : ℕ) → BuiltEmbedder

pub data BuiltVectorStore : Type 0 where
  qdrant_store :
      (url : Text)
      → (api_key : Option Text) → (collection : Text) → (dimensions : ℕ) → BuiltVectorStore
  memory_store : BuiltVectorStore

pub data BuiltLexicalIndex : Type 0 where
  opensearch_index : (url index : Text) → BuiltLexicalIndex
  memory_index : BuiltLexicalIndex

pub data BuiltReranker : Type 0 where
  cross_encoder identity : BuiltReranker

pub record ModelArguments (F : Type 0) : Type 0 where
  pub model : Text
  pub api_key : Option Text
  pub timeout : F
  pub max_output_tokens : ℕ
  pub temperature : F

-- A client, of the plain or of the chat model.
pub data BuiltModel (F : Type 0) : Type 0 where
  openai_model : ModelArguments F → BuiltModel F
  echo_model : BuiltModel F

-- `RetryPolicy`, as far as it is configured.
pub record BuiltPolicy (F : Type 0) : Type 0 where
  pub max_attempts : ℕ
  pub timeout_seconds : F

pub record BuiltResilient (F : Type 0) : Type 0 where
  pub primary : BuiltModel F
  pub fallbacks : List (BuiltModel F)
  pub policy : BuiltPolicy F

pub data BuiltCache : Type 0 where
  redis_cache : (url : Text) → BuiltCache
  memory_cache : BuiltCache

pub data BuiltTool : Type 0 where
  retrieval_tool web_search_tool graph_query_tool : BuiltTool

pub record BuiltRegistry : Type 0 where
  pub tools : List BuiltTool
  -- the seconds that a tool's result is kept, where results are cached
  pub result_cache : Option ℕ

pub record BuiltRuntime (F : Type 0) : Type 0 where
  pub chat_llm : BuiltResilient F
  pub tools : BuiltRegistry
  pub critic : BuiltResilient F
  pub budget : Budget F
  pub allow_egress : Bool
  pub include_trace : Bool

pub record BackendContext (F : Type 0) : Type 0 where
  pub embedder : BuiltEmbedder
  pub vector_store : BuiltVectorStore
  pub lexical_index : BuiltLexicalIndex
  pub reranker : BuiltReranker
  pub llm : BuiltResilient F
  pub cache : BuiltCache
  -- the threshold, where there is a semantic cache
  pub semantic_cache : Option F

module _ {F : Type 0} (settings : Settings F) where
  unfoldable pub build_embedder : BuiltEmbedder
  build_embedder = elim settings.embedding_backend [
    | EmbeddingBackend.openai ↦
        openai_embedder settings.embedding_model settings.embedding_dimensions
          settings.openai_api_key
    | EmbeddingBackend.hash ↦ hash_embedder settings.hash_embedding_dimensions
  ]

  -- `_vector_dimensions`
  unfoldable pub vector_dimensions : ℕ
  vector_dimensions = elim settings.embedding_backend [
    | EmbeddingBackend.openai ↦ settings.embedding_dimensions
    | EmbeddingBackend.hash ↦ settings.hash_embedding_dimensions
  ]

  unfoldable pub build_vector_store : Option Text → BuiltVectorStore
  build_vector_store index_version = elim settings.vector_backend [
    | VectorBackend.qdrant ↦
        qdrant_store settings.qdrant_url settings.qdrant_api_key
          (collection_for index_version settings) vector_dimensions
    | VectorBackend.memory ↦ memory_store
  ]

  unfoldable pub build_lexical_index : Option Text → BuiltLexicalIndex
  build_lexical_index index_version = elim settings.lexical_backend [
    | LexicalBackend.opensearch ↦
        opensearch_index settings.opensearch_url (collection_for index_version settings)
    | LexicalBackend.memory ↦ memory_index
  ]

  unfoldable pub build_reranker : BuiltReranker
  build_reranker = elim settings.reranker [
    | RerankerName.cross_encoder ↦ cross_encoder
    | RerankerName.identity ↦ identity
  ]

  unfoldable pub policy : BuiltPolicy F
  policy = record {
    max_attempts = settings.llm_max_attempts;
    timeout_seconds = settings.llm_timeout_seconds;
  }

  -- `make`
  unfoldable pub make : (model : Text) → BuiltModel F
  make model = openai_model (record {
    model = model;
    api_key = settings.openai_api_key;
    timeout = settings.llm_timeout_seconds;
    max_output_tokens = settings.llm_max_output_tokens;
    temperature = settings.llm_temperature;
  })

  unfoldable pub with_policy : LlmBackend → BuiltResilient F
  with_policy LlmBackend.openai = record {
    primary = make settings.llm_model;
    fallbacks = map make settings.llm_fallback_models;
    policy = policy;
  }
  with_policy LlmBackend.echo = record { primary = echo_model; fallbacks = []; policy = policy }

  unfoldable pub build_llm : BuiltResilient F
  build_llm = with_policy settings.llm_backend

  unfoldable pub build_chat_llm : BuiltResilient F
  build_chat_llm = with_policy settings.chat_llm_backend

  unfoldable pub build_tool_registry : (has_cache : Bool) → BuiltRegistry
  build_tool_registry has_cache = record {
    tools = retrieval_tool ∷ web_search_tool ∷ graph_query_tool ∷ [];
    result_cache =
        if has_cache && settings.agent_tool_cache_enabled
        then some settings.agent_tool_cache_ttl_seconds
        else none;
  }

  -- `build_agent_runtime`, without a chat model or tools of the caller's; the pipeline always has a cache.
  unfoldable pub build_agent_runtime : Option (BuiltRuntime F)
  build_agent_runtime =
      if not settings.agent_enabled
      then none
      else some (record {
        chat_llm = build_chat_llm;
        tools = build_tool_registry true;
        critic = build_chat_llm;
        budget = agent_budget settings;
        allow_egress = settings.agent_allow_egress;
        include_trace = settings.agent_include_trace;
      })

  unfoldable pub build_cache : BuiltCache
  build_cache = elim settings.cache_backend [
    | CacheBackend.redis ↦ redis_cache settings.redis_url
    | CacheBackend.memory ↦ memory_cache
  ]

  unfoldable pub build_semantic_cache : Option F
  build_semantic_cache =
      if settings.cache_enabled && settings.semantic_cache_enabled
      then some settings.semantic_cache_threshold
      else none

  -- `BackendContext.from_settings`
  unfoldable pub from_settings : Option Text → BackendContext F
  from_settings index_version = record {
    embedder = build_embedder;
    vector_store = build_vector_store index_version;
    lexical_index = build_lexical_index index_version;
    reranker = build_reranker;
    llm = build_llm;
    cache = build_cache;
    semantic_cache = build_semantic_cache;
  }
