-- ===== src/Config/Backends/Production.antt =====
-- What src/rag/settings.py lets into production, and what src/rag/backends.py builds of it.
use ai_rag.Prelude.{
  ℕ, ◌≡◌, ◌≢◌, refl, sym, inl, inr, ◌⊎◌, Text, List, [], ◌∷◌, ◌++◌, map, Bool, true, false, not,
  ◌&&◌, Option, some, is_empty, arith, Bool-cases, All, In, or_else,
}
use ai_rag.Prelude.Result.{Result, ok}
use ai_rag.Schemas.Principal.{Principal}
use ai_rag.Security.Auth.{
  Credentials, authenticate, build_authenticator, build_authenticator-In, bearer_token, IsExact,
}
use ai_rag.Config.Settings.{
  Settings, VectorBackend, EmbeddingBackend, LlmBackend, is_production, is_hash, is_echo, problem,
  problems, validate,
}
use ai_rag.Config.Backends.{
  BuiltEmbedder, BuiltModel, ModelArguments, BuiltResilient, BuiltRuntime, openai_embedder,
  hash_embedder, openai_model, qdrant_store, build_embedder, vector_dimensions, build_vector_store,
  make, with_policy, build_llm, build_chat_llm, build_agent_runtime,
}

-- A model of a provider, not the stand-in for tests.
pub data IsReal {F : Type 0} : BuiltModel F → Type 0 where
  real : (arguments : ModelArguments F) → IsReal (openai_model arguments)

abbrev AllReal : {F : Type 0} → BuiltResilient F → Type 0
AllReal built = IsReal built.primary × All IsReal built.fallbacks

-- What production runs on: headers count for nothing, a caller must authenticate, the embedder and every model are
-- those of a provider, and no tool may reach out of the system.
pub record IsSafe {F : Type 0} (settings : Settings F) : Type 0 where
  pub no_headers : settings.auth_trust_headers ≡ false
  pub required : settings.auth_required ≡ true
  pub embedder : (n : ℕ) → build_embedder settings ≢ hash_embedder n
  pub llm : AllReal (build_llm settings)
  pub runtime :
      (built : BuiltRuntime F)
      → build_agent_runtime settings ≡ some built
      → AllReal built.chat_llm × AllReal built.critic × (built.allow_egress ≡ false)

no_problem :
    (b : Bool) (m : Text) (rest : List Text)
    → is_empty (problem b m ++ rest) ≡ true
    → (b ≡ false) × (is_empty rest ≡ true)
unfolding problem
no_problem true m rest h = absurd (ground (arith, h))
no_problem false m rest h = (refl, h)

last_problem : (b : Bool) (m : Text) → is_empty (problem b m) ≡ true → b ≡ false
unfolding problem
last_problem true m h = absurd (ground (arith, h))
last_problem false m h = refl

embedding-cases :
    (b : EmbeddingBackend) → (b ≡ EmbeddingBackend.hash) ⊎ (b ≡ EmbeddingBackend.openai)
embedding-cases EmbeddingBackend.hash = inl refl
embedding-cases EmbeddingBackend.openai = inr refl

vector-cases : (b : VectorBackend) → (b ≡ VectorBackend.qdrant) ⊎ (b ≡ VectorBackend.memory)
vector-cases VectorBackend.qdrant = inl refl
vector-cases VectorBackend.memory = inr refl

module _ {F : Type 0} (settings : Settings F) where
  make-IsReal : (models : List Text) → All IsReal (map (make settings) models)
  unfolding make
  make-IsReal [] = tt
  make-IsReal (m ∷ ms) = (real _, make-IsReal ms)

  with_policy-real :
      (backend : LlmBackend) → is_echo backend ≡ false → AllReal (with_policy settings backend)
  unfolding with_policy make is_echo
  with_policy-real LlmBackend.openai h = (real _, make-IsReal settings.llm_fallback_models)
  with_policy-real LlmBackend.echo h = absurd (ground (arith, h))

  embedder_real :
      is_hash settings.embedding_backend ≡ false
      → (n : ℕ) → build_embedder settings ≢ hash_embedder n
  unfolding build_embedder is_hash
  embedder_real h n e = elim (embedding-cases settings.embedding_backend) [
    | inl b ↦ ground (arith, (rw b at h))
    | inr b ↦ ground (arith, (rw (build_embedder, b) at e))
  ]

  runtime_real :
      (settings.agent_enabled && is_echo settings.chat_llm_backend) ≡ false
      → settings.agent_allow_egress ≡ false
      → (built : BuiltRuntime F) → build_agent_runtime settings ≡ some built
      → AllReal built.chat_llm × AllReal built.critic × (built.allow_egress ≡ false)
  unfolding build_agent_runtime build_chat_llm
  runtime_real chat egress built h = elim (Bool-cases settings.agent_enabled) [
    | inr e ↦ absurd (ground (arith, (rw (build_agent_runtime, e) at h)))
    | inl e ↦
        let chat_real : is_echo settings.chat_llm_backend ≡ false = ground (arith, chat, e) in
        let models = with_policy-real settings.chat_llm_backend chat_real in
        let same = (rw (build_agent_runtime, e) at h) in
        let off : built.allow_egress ≡ false = ground (arith, same, egress) in
        let chat_same : with_policy settings settings.chat_llm_backend ≡ built.chat_llm =
          ground (arith, same) in
        let critic_same : with_policy settings settings.chat_llm_backend ≡ built.critic =
          ground (arith, same) in
        (rw (sym chat_same) models, rw (sym critic_same) models, off)
  ]

  -- A production configuration that passes the validator is safe, whatever else it sets.
  pub validate-IsSafe :
      (checked : Settings F)
      → is_production settings ≡ true
      → validate settings ≡ ok checked
      → IsSafe settings
  unfolding validate problems build_llm
  validate-IsSafe checked live h = elim (Bool-cases (is_empty (problems settings))) [
    | inr e ↦ absurd (ground (arith, (rw (validate, live, e) at h)))
    | inl e ↦
        let (headers, p1) = no_problem settings.auth_trust_headers _ _ e in
        let (required, p2) = no_problem (not settings.auth_required) _ _ p1 in
        let (embedder, p3) = no_problem (is_hash settings.embedding_backend) _ _ p2 in
        let (llm, p4) = no_problem (is_echo settings.llm_backend) _ _ p3 in
        let (chat, p5) =
          no_problem (settings.agent_enabled && is_echo settings.chat_llm_backend) _ _ p4 in
        let egress = last_problem settings.agent_allow_egress _ p5 in
        record {
          no_headers = headers;
          required = ground (arith, required);
          embedder = embedder_real embedder;
          llm = with_policy-real settings.llm_backend llm;
          runtime = runtime_real chat egress;
        }
  ]

  -- A deployment: in production, with a configuration that passes the validator, a request is let in only with a
  -- bearer token of the file, as the principal that the file gives to it.
  pub production-In :
      (checked : Settings F) (compare_digest : Text → Text → Result Bool)
      (tokens : Option (List (Text × Principal))) (c : Credentials) (p : Principal)
      → is_production settings ≡ true
      → validate settings ≡ ok checked
      → IsExact compare_digest
      → authenticate compare_digest
          (build_authenticator tokens settings.auth_trust_headers settings.auth_required
            settings.default_tenant)
          c
        ≡ ok p
      → (token : Text) × (bearer_token c.authorization ≡ some token)
        × In (token, p) (or_else tokens [])
  production-In checked compare_digest tokens c p live h exact entered =
      let safe = validate-IsSafe checked live h in
      build_authenticator-In compare_digest exact tokens settings.default_tenant c p
        (rw (safe.no_headers, safe.required) at entered)

  -- How long the vectors of an embedder are.
  pub dimensions : BuiltEmbedder → ℕ
  dimensions (openai_embedder model n key) = n
  dimensions (hash_embedder n) = n

  -- Vectors fit the store that they are written to: a store of Qdrant is built with the dimensions of the embedder.
  pub build_vector_store-dimensions :
      (version : Option Text) (url : Text) (key : Option Text) (collection : Text) (n : ℕ)
      → build_vector_store settings version ≡ qdrant_store url key collection n
      → n ≡ dimensions (build_embedder settings)
  unfolding build_vector_store vector_dimensions build_embedder dimensions
  build_vector_store-dimensions version url key collection n h =
      elim (vector-cases settings.vector_backend) [
        | inr v ↦ absurd (ground (arith, (rw (build_vector_store, v) at h)))
        | inl v ↦ elim (embedding-cases settings.embedding_backend) [
          | inl b ↦
              rw (build_embedder, b)
                (ground (arith, (rw (build_vector_store, v, vector_dimensions, b) at h)))
          | inr b ↦
              rw (build_embedder, b)
                (ground (arith, (rw (build_vector_store, v, vector_dimensions, b) at h)))
        ]
      ]
