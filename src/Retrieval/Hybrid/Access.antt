-- ===== src/Retrieval/Hybrid/Access.antt =====
-- Who gets what from `retrieve_multi` of src/rag/retrieval/hybrid.py.
use mathlib.Core.Path.{subst}
use ai_rag.Prelude.{
  or_else, ℕ, ◌==◌, ◌≡◌, ◌≤◌, Text, List, [], ◌∷◌, ◌++◌, map, Bool, true, false, Option, arith,
  length, take, keep, length-take-le, All, All-take, All-keep, All-map, inl, inr, Bool-cases,
}
use ai_rag.Prelude.Number.{Float}
use ai_rag.Prelude.Result.{ok, bind_ok}
use ai_rag.Prelude.Sort.{IsDescending, take-IsDescending}
use ai_rag.Schemas.Principal.{Principal}
use ai_rag.Schemas.Chunk.{ScoredChunk, fused}
use ai_rag.Security.Acl.{is_allowed}
use ai_rag.Retrieval.Ranking.{
  by_score, IsRanked, relabelled-IsRanked, relabelled-IsDescending, length-relabelled,
  All-relabelled,
}
use ai_rag.Retrieval.Fusion.{fusion, reciprocal_rank_fusion}
use ai_rag.Retrieval.Fusion.Fair.{fusion-IsDescending}
use ai_rag.Retrieval.Hybrid.{
  HybridRetriever, search_each, post_filter, fan_out, texts_of, retrieve_multi,
}

module _ {F : Type 0} ⦃fl : Float F⦄ (principal : Principal) (top_k : ℕ) where
  pub record IsRetrieved (hits : List (ScoredChunk F)) : Type 0 where
    pub allowed : All (λ s. is_allowed principal s.chunk.acl ≡ true) hits
    pub bounded : length hits ≤ top_k
    pub ranks : IsRanked 1 hits
    pub descending : IsDescending by_score hits

  nothing-IsRetrieved : IsRetrieved []
  nothing-IsRetrieved = record { allowed = tt; bounded = omega arith; ranks = tt; descending = tt }

  keep-allowed :
      (hits : List (ScoredChunk F))
      → All
          (λ s. is_allowed principal s.chunk.acl ≡ true)
          (keep (λ s. is_allowed principal s.chunk.acl) hits)
  keep-allowed [] = tt
  keep-allowed (s ∷ ss) = elim (Bool-cases (is_allowed principal s.chunk.acl)) [
    | inl e ↦ rw e (e, keep-allowed ss)
    | inr e ↦ rw e (keep-allowed ss)
  ]

  keep-IsDescending :
      (p : ScoredChunk F → Bool) (hits : List (ScoredChunk F))
      → IsDescending by_score hits
      → IsDescending by_score (keep p hits)
  keep-IsDescending p [] d = tt
  keep-IsDescending p (s ∷ ss) d = elim (Bool-cases (p s)) [
    | inl e ↦ rw e (
      All-map (λ y. (by_score s y ≡ false) × (p y ≡ true)) (λ y. by_score s y ≡ false) (keep p ss)
          (λ y h. h.0) (All-keep (λ y. by_score s y ≡ false) p ss d.0),
      keep-IsDescending p ss d.1,
    )
    | inr e ↦ rw e (keep-IsDescending p ss d.1)
  ]

module _ {F : Type 0} ⦃fl : Float F⦄ (self : HybridRetriever F) (principal : Principal)
    (top_k : ℕ) where
  post_filter-IsRetrieved :
      (hits : List (ScoredChunk F))
      → IsDescending by_score hits
      → IsRetrieved principal top_k (post_filter self principal top_k hits)
  unfolding post_filter
  post_filter-IsRetrieved hits d =
      let kept = keep (λ s. is_allowed principal s.chunk.acl) hits in
      record {
        allowed =
            All-relabelled (λ c. is_allowed principal c.acl ≡ true) fused 1 (take top_k kept)
              (All-take _ top_k kept (keep-allowed principal top_k hits));
        bounded =
            omega (arith, length-relabelled fused 1 (take top_k kept), length-take-le top_k kept);
        ranks = relabelled-IsRanked fused 1 (take top_k kept);
        descending =
            relabelled-IsDescending fused 1 (take top_k kept)
              (take-IsDescending by_score top_k kept (keep-IsDescending principal top_k _ hits d));
      }

  fusion_ok-IsDescending :
      (k : ℕ) (ws : Option (List F)) (ls : List (List (ScoredChunk F)))
      (hits : List (ScoredChunk F))
      → reciprocal_rank_fusion k ws ls ≡ ok hits
      → IsDescending by_score hits
  unfolding reciprocal_rank_fusion
  fusion_ok-IsDescending k ws ls hits h =
      let given = or_else ws (map (λ _. fl.of_nat 1) ls) in
      let same : fusion k given ls ≡ hits = ground arith in
      subst (IsDescending by_score) same (fusion-IsDescending k given ls).0

  fan_out-IsRetrieved :
      (queries texts : List Text) (version : Option Text) (hits : List (ScoredChunk F))
      → fan_out self queries texts principal top_k version ≡ ok hits
      → IsRetrieved principal top_k hits
  unfolding fan_out
  fan_out-IsRetrieved queries texts version hits h =
      let (vectors, e1, h1) = bind_ok (self.embed texts) _ hits h in
      let (dense_hits, e2, h2) =
        bind_ok (search_each self.vector_search top_k principal version vectors) _ hits h1 in
      let (lexical_hits, e3, h3) =
        bind_ok (search_each self.lexical_search top_k principal version queries) _ hits h2 in
      let (merged, e4, h4) =
        bind_ok (reciprocal_rank_fusion self.rrf_k _ (dense_hits ++ lexical_hits)) _ hits h3 in
      let same : post_filter self principal top_k merged ≡ hits = ground arith in
      subst (IsRetrieved principal top_k) same (
        post_filter-IsRetrieved merged
          (fusion_ok-IsDescending self.rrf_k _ (dense_hits ++ lexical_hits) merged e4))

  -- Whatever the vector store, the lexical index and the embedder return, the hits that `retrieve_multi` returns are
  -- chunks the principal may see, at most `top_k`, ranked 1, 2, … and in descending order of score.
  pub retrieve_multi-IsRetrieved :
      (queries : List Text) (version : Option Text) (dense_queries : Option (List Text))
      (hits : List (ScoredChunk F))
      → retrieve_multi self queries principal top_k version dense_queries ≡ ok hits
      → IsRetrieved principal top_k hits
  unfolding retrieve_multi
  retrieve_multi-IsRetrieved [] version dense_queries hits h =
      let same : [] ≡ hits = ground arith in
      subst (IsRetrieved principal top_k) same (nothing-IsRetrieved principal top_k)
  retrieve_multi-IsRetrieved (q ∷ qs) version dense_queries hits h =
      let texts = texts_of self (q ∷ qs) dense_queries in
      elim (Bool-cases (length texts == length (q ∷ qs))) [
        | inl e ↦ fan_out-IsRetrieved (q ∷ qs) texts version hits (rw (e, retrieve_multi) at h)
        | inr e ↦ absurd (ground arith)
      ]
