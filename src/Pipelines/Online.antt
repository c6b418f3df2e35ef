-- ===== src/Pipelines/Online.antt =====
-- `OnlinePipeline` of src/rag/pipelines/online.py: a question from the cache or through rewrite, retrieval, reranking and
-- generation. The reranker, the caches, the store's alias, the clock and the JSON form of an answer are fields; metrics,
-- logs and traces are left out.
pub mod Safety
use ai_rag.Prelude.{
  ℕ, ◌&&◌, Text, List, [], ◌∷◌, map, Bool, true, false, not, Option, none, some, if◌then◌else◌,
  codes, is_empty, or_else,
}
use ai_rag.Prelude.Number.{Float}
use ai_rag.Prelude.Result.{
  Raised, llm_error, timeout_error, value_error, key_error, exception, Result, ok, raise, Call,
}
use ai_rag.Schemas.Principal.{Principal}
use ai_rag.Schemas.Answer.{Answer, blank_usage}
use ai_rag.Schemas.Agent.{Json}
use ai_rag.Schemas.Chunk.{ScoredChunk}
use ai_rag.Generation.Grounded.{Generator, generate_grounded, refused_answer}
use ai_rag.Retrieval.Hybrid.{HybridRetriever, retrieve_multi}
use ai_rag.Cache.Protocol.{Cache}
use ai_rag.Cache.Keys.{Hashing, cache_key, cache_scope}
use ai_rag.Query.Route.{QueryRoute, factual, procedural, complex, chitchat, refuse, route_query}
use ai_rag.Query.Rewrite.{rewrite_query, expand_multi_query, hyde_document}

-- `RetrievalConfig` of src/rag/settings.py, as far as the pipeline reads it
pub record RetrievalConfig : Type 0 where
  pub top_k : ℕ
  pub rerank_top_k : ℕ
  pub rewrite_enabled : Bool
  pub multi_query_enabled : Bool
  pub multi_query_count : ℕ
  pub hyde_enabled : Bool
  pub cache_params : List (Text × Json)

pub record SemanticStore (W : Type 0) : Type 0 where
  pub get : (query scope : Text) → W → Option Text × W
  pub set : (query value scope : Text) → W → W

pub record OnlinePipeline (F W : Type 0) : Type 0 where
  pub retriever : HybridRetriever F
  pub rerank : Text → List (ScoredChunk F) → ℕ → List (ScoredChunk F)
  pub llm : Generator F W
  pub cache : Cache W
  pub semantic_cache : Option (SemanticStore W)
  pub config : RetrievalConfig
  pub cache_enabled : Bool
  pub cache_ttl_seconds : ℕ
  pub refusal_score_threshold : F
  pub pii_redaction_enabled : Bool
  pub prompt_version : Text
  pub fallback_index_version : Option Text
  pub settings_index_version : Text
  -- `vector_store.resolve_alias(settings.collection_alias)`
  pub resolve_alias : W → Option Text
  pub hashing : Hashing
  -- `answer.model_dump_json()` and `Answer.model_validate_json(raw)`
  pub dump_answer : Answer F → Text
  pub load_answer : Text → Result (Answer F)
  -- `(time.perf_counter() - start) * 1000` at the end of a call
  pub latency : W → W → F

-- `a or b` on optional texts
unfoldable pub or_text : Option Text → Text → Text
or_text none other = other
or_text (some t) other = if is_empty t then other else t

module _ {F W : Type 0} ⦃fl : Float F⦄ (self : OnlinePipeline F W) where
  unfoldable pub active_index_version : W → Text
  active_index_version w =
      or_text (self.resolve_alias w)
        (or_text self.fallback_index_version self.settings_index_version)

  -- `_query_variants`
  unfoldable pub query_variants : Text → List Text
  query_variants query =
      let variants =
        if self.config.multi_query_enabled
        then expand_multi_query query self.config.multi_query_count
        else if self.config.rewrite_enabled
        then rewrite_query query
        else query ∷ [] in
      elim variants [ [] ↦ query ∷ [] | v ∷ vs ↦ v ∷ vs ]

  abbrev pub primary : List Text → Text
  primary [] = []
  primary (v ∷ vs) = v

  unfoldable pub hyde_or : Text → Text
  hyde_or v = let d = hyde_document v in if is_empty d then v else d

  -- The results of `_retrieve`.
  unfoldable pub retrieve :
      Text → Principal → (index_version : Text) → Result (List (ScoredChunk F))
  unfolding hyde_or
  retrieve query principal index_version =
      let variants = query_variants query in
      let dense_variants = if self.config.hyde_enabled then map hyde_or variants else variants in
      elim (retrieve_multi self.retriever variants principal self.config.top_k (some index_version)
        (some dense_variants)) [
          | raise e ↦ raise e
          | ok scored ↦ ok (self.rerank (primary variants) scored self.config.rerank_top_k)
        ]

  -- `_lookup_cache`; an entry that is no JSON of an answer raises.
  unfoldable pub lookup_semantic : (scope query : Text) → W → Result (Option (Answer F)) × W
  lookup_semantic scope query w = elim self.semantic_cache [
    | none ↦ (ok none, w)
    | some semantic ↦
        let (near, w') = semantic.get query scope w in
        elim near [
          | none ↦ (ok none, w')
          | some raw ↦ elim (self.load_answer raw) [
            | ok a ↦ (ok (some a), w')
            | raise e ↦ (raise e, w')
          ]
        ]
  ]

  unfoldable pub lookup_cache : (key scope query : Text) → W → Result (Option (Answer F)) × W
  lookup_cache key scope query w =
      if not self.cache_enabled
      then (ok none, w)
      else (let (exact, w') = self.cache.get key w in
          elim exact [
            | some raw ↦ elim (self.load_answer raw) [
              | ok a ↦ (ok (some a), w')
              | raise e ↦ (raise e, w')
            ]
            | none ↦ lookup_semantic scope query w'
          ])

  unfoldable pub should_cache : Answer F → Bool
  should_cache answer = self.cache_enabled && not answer.refused

  -- `_refuse`
  unfoldable pub refuse_with : (reason trace_id : Text) → Answer F
  refuse_with reason trace_id =
      refused_answer reason (blank_usage self.llm.model_name self.prompt_version) trace_id

  unfoldable pub greeting : (trace_id : Text) → Answer F
  greeting trace_id = record {
    text = codes "Hello. Ask me a question about the indexed documents.";
    citations = [];
    refused = false;
    refusal_reason = none;
    usage = blank_usage self.llm.model_name self.prompt_version;
    trace_id = trace_id;
    index_version = [];
    latency_ms = fl.of_nat 0;
    cached = false;
  }

  unfoldable pub set_semantic : (query payload scope : Text) → W → W
  set_semantic query payload scope w = elim self.semantic_cache [
    | none ↦ w
    | some semantic ↦ semantic.set query payload scope w
  ]

  -- The end of `answer`: the answer is cached, unless it refuses.
  unfoldable pub deliver : (key scope query : Text) → Answer F → (start : W) → W → Answer F × W
  deliver key scope query answer start w =
      let payload = self.dump_answer answer in
      let w' =
        if should_cache answer
        then set_semantic query payload scope
            (self.cache.set key payload (some self.cache_ttl_seconds) w)
        else w in
      (record answer { latency_ms = self.latency start w' }, w')

  -- Retrieval and generation.
  unfoldable pub answer_retrieved :
      (query : Text)
      → Principal
      → (index_version key scope trace_id : Text) → (start : W) → Call W (Answer F)
  answer_retrieved query principal index_version key scope trace_id start w =
      elim (retrieve query principal index_version) [
        | raise e ↦ (raise e, w)
        | ok results ↦
            let (outcome, w') =
              generate_grounded self.llm query results self.refusal_score_threshold
                self.prompt_version self.pii_redaction_enabled trace_id w in
            elim outcome [
              | ok answer ↦
                  let (a, w'') =
                    deliver key scope query
                      (record answer { trace_id = trace_id; index_version = index_version }) start
                      w' in
                  (ok a, w'')
              | raise (llm_error t) ↦ (ok (refuse_with (codes "llm_unavailable") trace_id), w')
              | raise e ↦ (raise e, w')
            ]
      ]

  -- What happens without a cached answer.
  unfoldable pub answer_routed :
      (query : Text)
      → Principal
      → (index_version key scope trace_id : Text) → (start : W) → Call W (Answer F)
  answer_routed query principal index_version key scope trace_id start w =
      elim (route_query query) [
        | refuse ↦ (ok (refuse_with (codes "empty_query") trace_id), w)
        | chitchat ↦ (ok (greeting trace_id), w)
        | _ ↦ answer_retrieved query principal index_version key scope trace_id start w
      ]

  -- `OnlinePipeline.answer`
  unfoldable pub answer : (query : Text) → Principal → (trace_id : Text) → Call W (Answer F)
  answer query principal trace_id w =
      let index_version = active_index_version w in
      let key =
        cache_key self.hashing query principal index_version self.prompt_version
          (some self.config.cache_params) in
      let scope =
        cache_scope self.hashing principal index_version self.prompt_version
          (some self.config.cache_params) in
      let (found, w') = lookup_cache key scope query w in
      elim found [
        | raise e ↦ (raise e, w')
        | ok (some cached) ↦ (ok (record cached { trace_id = trace_id; cached = true }), w')
        | ok none ↦ answer_routed query principal index_version key scope trace_id w w'
      ]
