-- ===== src/Pipelines/Online/Safety.antt =====
-- What the answers of src/rag/pipelines/online.py cite.
use mathlib.Core.Path.{subst, sym}
use ai_rag.Prelude.{
  ℕ, Text, List, [], ◌≡◌, refl, Bool, true, some, arith, All, All-map, All-In, All_of_In, In, inl,
  inr, Bool-cases, Option-cases, if◌then◌else◌, map,
}
use ai_rag.Prelude.Number.{Float}
use ai_rag.Prelude.Result.{ok, Result-cases}
use ai_rag.Schemas.Principal.{Principal}
use ai_rag.Schemas.Answer.{Citation, Usage, Answer}
use ai_rag.Schemas.Chunk.{Chunk, ScoredChunk}
use ai_rag.Security.Acl.{is_allowed}
use ai_rag.Generation.Citations.{resolve_citations, citation_from_scored}
use ai_rag.Generation.Grounding.{resolve_citations-All}
use ai_rag.Generation.Grounded.{
  format_context, Generator, generate_grounded, ground_reply, refused_answer, should_refuse,
  refuse_early,
}
use ai_rag.Retrieval.Hybrid.{retrieve_multi}
use ai_rag.Retrieval.Hybrid.Access.{retrieve_multi-IsRetrieved}
use ai_rag.Query.Route.{QueryRoute, factual, procedural, complex, chitchat, refuse, route_query}
use ai_rag.Pipelines.Online.{
  OnlinePipeline, retrieve, query_variants, primary, hyde_or, refuse_with, greeting, deliver,
  answer_retrieved, answer_routed,
}

-- The citation is that of one of these chunks, and the principal may see it.
abbrev pub Lawful : {F : Type 0} → Principal → List (ScoredChunk F) → Citation F → Type 0
Lawful {F} p scored c =
    (s : ScoredChunk F) × In s scored
    × (is_allowed p s.chunk.acl ≡ true)
    × (c ≡ citation_from_scored s)

module _ {F W : Type 0} ⦃fl : Float F⦄ (g : Generator F W) (question : Text) (threshold : F)
    (version : Text) (redact : Bool) (trace : Text) (p : Principal) (scored : List (ScoredChunk F))
    (allowed : All (λ s. is_allowed p s.chunk.acl ≡ true) scored) where
  each_allowed : All (λ s. In s scored × (is_allowed p s.chunk.acl ≡ true)) scored
  each_allowed =
      All_of_In _ scored
        (λ s k. (k, All-In (λ s. is_allowed p s.chunk.acl ≡ true) s scored allowed k))

  ground_reply-Lawful :
      (r : Text × Usage F)
      → All (Lawful p scored) (ground_reply g scored threshold version redact trace r).citations
  unfolding ground_reply refused_answer
  ground_reply-Lawful (raw, usage) =
      let text : Text = if redact then g.redact_pii raw else raw in
      elim (Bool-cases (should_refuse scored (resolve_citations text scored) threshold).0) [
        | inl e ↦ rw e tt
        | inr e ↦ rw e (
            All-map _ (Lawful p scored) (resolve_citations text scored)
              (λ c (s, (k, seen), e). (s, k, seen, e))
              (resolve_citations-All (λ s. In s scored × (is_allowed p s.chunk.acl ≡ true)) text
                scored each_allowed))
      ]

  generate_grounded-Lawful :
      (a : Answer F) (w : W)
      → (generate_grounded g question scored threshold version redact trace w).0 ≡ ok a
      → All (Lawful p scored) a.citations
  unfolding generate_grounded refused_answer
  generate_grounded-Lawful a w h =
      elim (Option-cases (refuse_early (should_refuse scored [] threshold))) [
        | inr (reason, e) ↦
            let none' : a.citations ≡ [] = ground arith in
            subst (All (Lawful p scored)) (sym none') tt
        | inl e ↦
            let reply =
              g.complete (g.render question (format_context g.show_score scored) version) w in
            elim (Result-cases reply.0) [
              | inr (r, x) ↦ absurd (ground arith)
              | inl (r, x) ↦
                  let same : ground_reply g scored threshold version redact trace r ≡ a =
                    ground arith in
                  subst (λ b. All (Lawful p scored) b.citations) same (ground_reply-Lawful r)
            ]
      ]

-- The citation is that of a chunk which was retrieved for the query, and the principal may see it.
abbrev pub Cites :
    {F W : Type 0} ⦃fl : Float F⦄
    → OnlinePipeline F W
    → Principal
    → (query version : Text) → Citation F
    → Type 0
Cites {F} self p query version c =
    (results : List (ScoredChunk F)) × (retrieve self query p version ≡ ok results)
    × Lawful p results c

-- The reranker hands on chunks it was given, and no others.
unfoldable pub KeepsChunks :
    {F : Type 0} → (Text → List (ScoredChunk F) → ℕ → List (ScoredChunk F)) → Type 1
KeepsChunks {F} rerank =
    (P : Chunk → Type 0) (query : Text) (candidates : List (ScoredChunk F)) (top_k : ℕ)
    → All (λ s. P s.chunk) candidates
    → All (λ s. P s.chunk) (rerank query candidates top_k)

module _ {F W : Type 0} ⦃fl : Float F⦄ (self : OnlinePipeline F W) (kept : KeepsChunks self.rerank)
    (p : Principal) where
  -- What the pipeline retrieves its caller may see.
  pub retrieve-allowed :
      (query version : Text) (results : List (ScoredChunk F))
      → retrieve self query p version ≡ ok results
      → All (λ s. is_allowed p s.chunk.acl ≡ true) results
  unfolding retrieve KeepsChunks
  retrieve-allowed query version results h =
      let variants = query_variants self query in
      let dense = if self.config.hyde_enabled then map (hyde_or self) variants else variants in
      elim (Result-cases
        (retrieve_multi self.retriever variants p self.config.top_k (some version) (some dense))) [
          | inr (r, x) ↦ absurd (ground arith)
          | inl (scored, x) ↦
              let same : self.rerank (primary self variants) scored self.config.rerank_top_k
                  ≡ results =
                ground arith in
              subst (All (λ s. is_allowed p s.chunk.acl ≡ true)) same (
                kept (λ c. is_allowed p c.acl ≡ true) (primary self variants) scored
                  self.config.rerank_top_k
                  (retrieve_multi-IsRetrieved self.retriever p self.config.top_k variants
                    (some version) (some dense) scored x).allowed)
        ]

  module _ (query version key scope trace : Text) (start : W) where
    answer_retrieved-Cites :
        (w : W) (a : Answer F)
        → (answer_retrieved self query p version key scope trace start w).0 ≡ ok a
        → All (Cites self p query version) a.citations
    unfolding answer_retrieved deliver refuse_with refused_answer
    answer_retrieved-Cites w a h = elim (Result-cases (retrieve self query p version)) [
      | inr (r, x) ↦ absurd (ground arith)
      | inl (results, x) ↦
          elim (Result-cases
            (generate_grounded self.llm query results self.refusal_score_threshold
              self.prompt_version self.pii_redaction_enabled trace w).0) [
                | inl (b, y) ↦
                    let same : b.citations ≡ a.citations = ground arith in
                    subst (All (Cites self p query version)) same (
                      All-map (Lawful p results) (Cites self p query version) b.citations
                        (λ c l. (results, x, l))
                        (generate_grounded-Lawful self.llm query self.refusal_score_threshold
                          self.prompt_version self.pii_redaction_enabled trace p results
                          (retrieve-allowed query version results x) b w y))
                | inr (r, y) ↦
                    let none' : a.citations ≡ [] = ground arith in
                    subst (All (Cites self p query version)) (sym none') tt
              ]
    ]

    -- An answer that does not come from the cache cites only chunks which were retrieved for the query and which its
    -- caller may see, by the access tags they were retrieved with, whatever the backends return and the model
    -- writes, if the reranker hands on only chunks it was given.
    pub answer_routed-Lawful :
        (w : W) (a : Answer F)
        → (answer_routed self query p version key scope trace start w).0 ≡ ok a
        → All (Cites self p query version) a.citations
    unfolding answer_routed refuse_with refused_answer greeting
    answer_routed-Lawful w a h = by_route (route_query query) refl h
      where
        by_route :
            (r : QueryRoute)
            → route_query query ≡ r
            → (answer_routed self query p version key scope trace start w).0 ≡ ok a
            → All (Cites self p query version) a.citations
        by_route refuse e k =
            let none' : a.citations ≡ [] = ground arith in
            subst (All (Cites self p query version)) (sym none') tt
        by_route chitchat e k =
            let none' : a.citations ≡ [] = ground arith in
            subst (All (Cites self p query version)) (sym none') tt
        by_route factual e k = answer_retrieved-Cites w a (rw (e, answer_routed) at k)
        by_route procedural e k = answer_retrieved-Cites w a (rw (e, answer_routed) at k)
        by_route complex e k = answer_retrieved-Cites w a (rw (e, answer_routed) at k)
