-- ===== src/Retrieval/Store.antt =====
-- src/rag/vectordb/memory.py: the vector store in memory. A vector is a list of floats; the square
-- root is an argument.
pub mod Search
use ai_rag.Prelude.{
  ℕ, ◌+◌, ◌==◌, Text, List, [], ◌∷◌, map, Bool, true, false, not, ◌&&◌, Option, none, some,
  if◌then◌else◌, is_empty, codes, text_eq, length, take, keep,
}
use ai_rag.Prelude.Number.{Float}
use ai_rag.Prelude.Dict.{Dict, lookup, insert, remove, values}
use ai_rag.Prelude.Result.{Result, ok, raise, value_error}
use ai_rag.Prelude.Sort.{sort_desc}
use ai_rag.Schemas.Principal.{Principal}
use ai_rag.Schemas.Chunk.{Chunk, ScoredChunk, dense}
use ai_rag.Security.Acl.{is_allowed}
use ai_rag.Retrieval.Ranking.{ranked, by_first}

pub record MemoryVectorStore (F : Type 0) : Type 0 where
  pub items : Dict (Chunk × List F)
  pub aliases : Dict Text

-- `index_version and chunk.index_version != index_version`, the negation
unfoldable pub fits_version : Option Text → Chunk → Bool
fits_version none chunk = true
fits_version (some v) chunk = if is_empty v then true else text_eq chunk.index_version v

-- What the loop of `search` does not skip.
unfoldable pub is_eligible : Principal → Option Text → Chunk → Bool
is_eligible principal index_version chunk =
    fits_version index_version chunk && is_allowed principal chunk.acl

module _ {F : Type 0} ⦃fl : Float F⦄ (sqrt : F → F) where
  -- `sum` of the products, from the first on
  products_from : F → List F → List F → F
  products_from total [] ys = total
  products_from total (x ∷ xs) [] = total
  products_from total (x ∷ xs) (y ∷ ys) = products_from (fl.add total (fl.mul x y)) xs ys

  sum_of_products : List F → List F → F
  unfolding products_from
  sum_of_products xs ys = products_from (fl.of_nat 0) xs ys

  -- `x or 1.0`, for numbers other than NaN
  or_one : F → F
  or_one x = if not (fl.lt x (fl.of_nat 0)) && not (fl.lt (fl.of_nat 0) x) then fl.of_nat 1 else x

  -- `_cosine`
  unfoldable pub cosine : List F → List F → F
  unfolding sum_of_products or_one
  cosine a b =
      if length a == length b
      then fl.div (sum_of_products a b)
          (fl.mul (or_one (sqrt (sum_of_products a a))) (or_one (sqrt (sum_of_products b b))))
      else fl.of_nat 0

  -- The pairs of score and chunk before they are sorted.
  unfoldable pub scored_items :
      List F → Principal → Option Text → List (Chunk × List F) → List (F × Chunk)
  scored_items vector principal index_version [] = []
  scored_items vector principal index_version ((chunk, stored) ∷ rest) =
      let others = scored_items vector principal index_version rest in
      if is_eligible principal index_version chunk
      then (cosine vector stored, chunk) ∷ others
      else others

  unfoldable pub search :
      List F → (top_k : ℕ) → Principal → Option Text → MemoryVectorStore F → List (ScoredChunk F)
  search vector top_k principal index_version self = ranked dense 1 (
      take top_k
        (sort_desc by_first (scored_items vector principal index_version (values self.items))))

module _ {F : Type 0} where
  store_all : List Chunk → List (List F) → Dict (Chunk × List F) → Dict (Chunk × List F)
  store_all [] vectors items = items
  store_all (c ∷ cs) [] items = items
  store_all (c ∷ cs) (v ∷ vs) items = store_all cs vs (insert c.chunk_id (c, v) items)

  unfoldable pub upsert :
      List Chunk → List (List F) → MemoryVectorStore F → Result (MemoryVectorStore F)
  unfolding store_all
  upsert chunks vectors self =
      if length chunks == length vectors
      then ok (record self { items = store_all chunks vectors self.items })
      else raise (value_error (codes "chunks and vectors length mismatch"))

  unfoldable pub drop_all : List Text → Dict (Chunk × List F) → Dict (Chunk × List F)
  drop_all [] items = items
  drop_all (cid ∷ cids) items = drop_all cids (remove cid items)

  unfoldable pub delete : List Text → MemoryVectorStore F → MemoryVectorStore F
  delete chunk_ids self = record self { items = drop_all chunk_ids self.items }

  unfoldable pub resolve_alias : Text → MemoryVectorStore F → Option Text
  resolve_alias alias self = lookup alias self.aliases

  unfoldable pub set_alias : Text → Text → MemoryVectorStore F → MemoryVectorStore F
  set_alias alias index_version self = record self {
    aliases = insert alias index_version self.aliases;
  }

  unfoldable pub count : Option Text → MemoryVectorStore F → ℕ
  count index_version self = length (keep (λ e. fits_version index_version e.0) (values self.items))
