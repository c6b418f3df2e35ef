-- ===== src/Retrieval/Hybrid.antt =====
-- `HybridRetriever` of src/rag/retrieval/hybrid.py. The vector store, the lexical index and the embedder are
-- fields; the searches are run one after the other, in the order in which their results are read.
pub mod Access
use ai_rag.Prelude.{
  ℕ, ◌==◌, Text, List, [], ◌∷◌, ◌++◌, map, Bool, true, false, Option, none, some, if◌then◌else◌,
  codes, or_else, length, take, keep, is_empty,
}
use ai_rag.Prelude.Number.{Float}
use ai_rag.Prelude.Result.{Result, ok, raise, value_error, ◌>>=◌}
use ai_rag.Schemas.Principal.{Principal}
use ai_rag.Schemas.Chunk.{ScoredChunk, fused}
use ai_rag.Security.Acl.{is_allowed}
use ai_rag.Retrieval.Ranking.{relabelled}
use ai_rag.Retrieval.Fusion.{reciprocal_rank_fusion}

-- A backend's search: the query, `top_k`, the principal and the index version.
abbrev pub Search : Type 0 → Type 0 → Type 0
Search Q F = Q → ℕ → Principal → Option Text → Result (List (ScoredChunk F))

pub record HybridRetriever (F : Type 0) : Type 0 where
  pub vector_search : Search (List F) F
  pub lexical_search : Search Text F
  pub embed : List Text → Result (List (List F))
  pub rrf_k : ℕ
  pub dense_weight : F
  pub lexical_weight : F

-- The results of all searches, or the first exception.
unfoldable pub search_each :
    {F Q : Type 0}
    → Search Q F
    → ℕ
    → Principal
    → Option Text
    → List Q
    → Result (List (List (ScoredChunk F)))
search_each search top_k principal version [] = ok []
search_each search top_k principal version (q ∷ qs) = do
  hits ← search q top_k principal version
  rest ← search_each search top_k principal version qs
  ok (hits ∷ rest)

module _ {F : Type 0} ⦃fl : Float F⦄ (self : HybridRetriever F) where
  -- The fused results the principal may see, cut to `top_k` and ranked anew.
  unfoldable pub post_filter : Principal → ℕ → List (ScoredChunk F) → List (ScoredChunk F)
  post_filter principal top_k hits =
      relabelled fused 1 (take top_k (keep (λ s. is_allowed principal s.chunk.acl) hits))

  unfoldable pub fan_out :
      List Text → List Text → Principal → ℕ → Option Text → Result (List (ScoredChunk F))
  fan_out queries dense_texts principal top_k version = do
    vectors ← self.embed dense_texts
    dense_hits ← search_each self.vector_search top_k principal version vectors
    lexical_hits ← search_each self.lexical_search top_k principal version queries
    hits ←
        reciprocal_rank_fusion self.rrf_k
          (some (
            map (λ _. self.dense_weight) dense_hits ++ map (λ _. self.lexical_weight) lexical_hits))
          (dense_hits ++ lexical_hits)
    ok (post_filter principal top_k hits)

  -- `dense_queries or list(queries)`
  unfoldable pub texts_of : List Text → Option (List Text) → List Text
  texts_of queries none = queries
  texts_of queries (some []) = queries
  texts_of queries (some (t ∷ ts)) = t ∷ ts

  unfoldable pub retrieve_multi :
      List Text
      → Principal
      → (top_k : ℕ) → Option Text
      → Option (List Text)
      → Result (List (ScoredChunk F))
  unfolding texts_of
  retrieve_multi queries principal top_k version dense_queries =
      let dense_texts = texts_of queries dense_queries in
      if is_empty queries
      then ok []
      else if length dense_texts == length queries
      then fan_out queries dense_texts principal top_k version
      else raise (value_error (codes "dense_queries length must match queries"))

  -- `dense_query or query`
  dense_text : Text → Option Text → Text
  dense_text query none = query
  dense_text query (some t) = if is_empty t then query else t

  unfoldable pub retrieve :
      Text → Principal → (top_k : ℕ) → Option Text → Option Text → Result (List (ScoredChunk F))
  unfolding dense_text
  retrieve query principal top_k version dense_query =
      retrieve_multi (query ∷ []) principal top_k version (some (dense_text query dense_query ∷ []))
