-- ===== src/Retrieval/Remote/OpenSearch.antt =====
-- `OpenSearchLexicalIndex` of src/rag/lexical/opensearch.py. The client is a record of its calls, which change a
-- world and may raise.
use ai_rag.Prelude.{
  ℕ, ◌+◌, Text, List, [], ◌∷◌, map, Bool, Option, if◌then◌else◌, is_empty, or_else,
}
use ai_rag.Prelude.Number.{Float}
use ai_rag.Prelude.Result.{ok, Call, and_then}
use ai_rag.Schemas.Principal.{Principal}
use ai_rag.Schemas.Chunk.{Chunk, ScoredChunk, lexical}
use ai_rag.Security.Acl.{for_principal}
use ai_rag.Retrieval.Remote.{Payload, to_source, from_payload, Clause, collection_for}
use ai_rag.Retrieval.Remote.Filters.{opensearch_filter}

pub record Hit (F : Type 0) : Type 0 where
  pub id : Text
  pub score : Option F
  pub source : Payload

-- The body of a search: the size, the text to match, and the filter.
pub record Body : Type 0 where
  pub size : ℕ
  pub match_text : Text
  pub filter : List Clause

pub record OpenSearch (F W : Type 0) : Type 0 where
  pub exists : (index : Text) → Call W Bool
  pub create : (index : Text) → Call W Unit
  pub bulk_index : (index : Text) → List (Text × Payload) → Call W Unit
  pub bulk_delete : (index : Text) → List Text → Call W Unit
  pub search : (index : Text) → Body → Call W (List (Hit F))
  pub count : (index : Text) → Call W ℕ

pub record OpenSearchLexicalIndex (F W : Type 0) : Type 0 where
  pub client : OpenSearch F W
  pub index : Text

module _ {F W : Type 0} ⦃fl : Float F⦄ (self : OpenSearchLexicalIndex F W) where
  unfoldable pub ensure_index : Call W Unit
  ensure_index w =
      and_then (self.client.exists self.index w)
        (λ there w1. if there then (ok tt, w1) else self.client.create self.index w1)

  unfoldable pub upsert : List Chunk → Call W Unit
  upsert chunks w =
      if is_empty chunks
      then (ok tt, w)
      else and_then (ensure_index w)
          (λ u. self.client.bulk_index self.index (map (λ c. (c.chunk_id, to_source c)) chunks))

  unfoldable pub delete : List Text → Call W Unit
  delete chunk_ids w =
      if is_empty chunk_ids then (ok tt, w) else self.client.bulk_delete self.index chunk_ids w

  -- The loop over the hits, with the rank of the next; a score that is missing is zero.
  unfoldable pub results : (rank : ℕ) → List (Hit F) → List (ScoredChunk F)
  results rank [] = []
  results rank (hit ∷ hits) =
      record {
        chunk = from_payload hit.id hit.source;
        score = or_else hit.score (fl.of_nat 0);
        rank = rank;
        retriever = lexical;
      }
      ∷ results (rank + 1) hits

  unfoldable pub search :
      Text → (top_k : ℕ) → Principal → Option Text → Call W (List (ScoredChunk F))
  search query top_k principal index_version w =
      let body : Body = record {
        size = top_k;
        match_text = query;
        filter = opensearch_filter (for_principal principal index_version);
      } in
      and_then (self.client.search (collection_for self.index index_version) body w)
        (λ hits w1. (ok (results 1 hits), w1))

  unfoldable pub count : Option Text → Call W ℕ
  count index_version = self.client.count (collection_for self.index index_version)
