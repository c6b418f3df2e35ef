-- ===== src/Retrieval/Lexical/Replay.antt =====
-- The lexical index of src/rag/lexical/bm25_memory.py against a dict of chunks: a history of upserts and deletes.
use ai_rag.Prelude.{◌≡◌, refl, ap, ◌∙◌, inl, inr, Text, List, [], ◌∷◌, if◌then◌else◌, Bool-cases}
use ai_rag.Prelude.Number.{Float}
use ai_rag.Prelude.Dict.{Dict, insert, remove, has}
use ai_rag.Schemas.Chunk.{Chunk}
use ai_rag.Retrieval.Lexical.{
  count_of, Bm25MemoryIndex, empty_index, remove_stats, recompute_avgdl, store, put, put_all,
  upsert, unstore, discard, discard_all, delete, average,
}
use ai_rag.Retrieval.Lexical.Counted.{IsCurrent, docs_with, upsert-IsCurrent, delete-IsCurrent}

-- A call that changes the index.
pub data Change : Type 0 where
  upserted : List Chunk → Change
  deleted : List Text → Change

-- What the calls mean: a chunk by its id, the last one written.
pub written : List Chunk → Dict Chunk → Dict Chunk
written [] d = d
written (c ∷ cs) d = written cs (insert c.chunk_id c d)

pub unwritten : List Text → Dict Chunk → Dict Chunk
unwritten [] d = d
unwritten (cid ∷ cids) d = unwritten cids (if has cid d then remove cid d else d)

pub view : List Change → Dict Chunk → Dict Chunk
view [] d = d
view (upserted cs ∷ changes) d = view changes (written cs d)
view (deleted cids ∷ changes) d = view changes (unwritten cids d)

module _ {F : Type 0} ⦃fl : Float F⦄ where
  pub replay : List Change → Bm25MemoryIndex F → Bm25MemoryIndex F
  replay [] self = self
  replay (upserted cs ∷ changes) self = replay changes (upsert cs self)
  replay (deleted cids ∷ changes) self = replay changes (delete cids self)

  put-chunks :
      (c : Chunk) (self : Bm25MemoryIndex F) → (put c self).chunks ≡ insert c.chunk_id c self.chunks
  unfolding put store remove_stats
  put-chunks c self = elim (Bool-cases (has c.chunk_id self.chunks)) [
    | inl e ↦ rw (put, e) refl
    | inr e ↦ rw (put, e) refl
  ]

  put_all-chunks :
      (cs : List Chunk) (self : Bm25MemoryIndex F)
      → (put_all cs self).chunks ≡ written cs self.chunks
  unfolding put_all written
  put_all-chunks [] self = refl
  put_all-chunks (c ∷ cs) self =
      put_all-chunks cs (put c self) ∙ ap (written cs) (put-chunks c self)

  discard-chunks :
      (cid : Text) (self : Bm25MemoryIndex F)
      → (discard cid self).chunks
        ≡ (if has cid self.chunks then remove cid self.chunks else self.chunks)
  unfolding discard unstore remove_stats
  discard-chunks cid self = elim (Bool-cases (has cid self.chunks)) [
    | inl e ↦ rw (discard, e) refl
    | inr e ↦ rw (discard, e) refl
  ]

  discard_all-chunks :
      (cids : List Text) (self : Bm25MemoryIndex F)
      → (discard_all cids self).chunks ≡ unwritten cids self.chunks
  unfolding discard_all unwritten
  discard_all-chunks [] self = refl
  discard_all-chunks (c ∷ cs) self =
      discard_all-chunks cs (discard c self) ∙ ap (unwritten cs) (discard-chunks c self)

  replay-chunks :
      (changes : List Change) (self : Bm25MemoryIndex F)
      → (replay changes self).chunks ≡ view changes self.chunks
  unfolding replay view upsert delete recompute_avgdl
  replay-chunks [] self = refl
  replay-chunks (upserted cs ∷ changes) self =
      replay-chunks changes (upsert cs self) ∙ ap (view changes) (put_all-chunks cs self)
  replay-chunks (deleted cids ∷ changes) self =
      replay-chunks changes (delete cids self) ∙ ap (view changes) (discard_all-chunks cids self)

  replay-IsCurrent :
      (changes : List Change) (self : Bm25MemoryIndex F)
      → IsCurrent self
      → IsCurrent (replay changes self)
  unfolding replay
  replay-IsCurrent [] self h = h
  replay-IsCurrent (upserted cs ∷ changes) self h =
      replay-IsCurrent changes (upsert cs self) (upsert-IsCurrent cs self h.0)
  replay-IsCurrent (deleted cids ∷ changes) self h =
      replay-IsCurrent changes (delete cids self) (delete-IsCurrent cids self h.0)

  empty-IsCurrent : (k1 b : F) → IsCurrent (empty_index k1 b)
  unfolding average count_of docs_with
  empty-IsCurrent k1 b =
      (record { distinct = tt; tf_of = refl; len_of = refl; df_of = λ t. refl }, refl)

  -- After any history of upserts and deletes from an empty index on, the chunks stored are those of the history read as
  -- writes to a dict, and every statistic (the counter and the length of each chunk, the number of chunks with
  -- each term, the average length) is what a count of those chunks gives.
  pub replay-refines :
      (k1 b : F) (changes : List Change)
      → ((replay changes (empty_index k1 b)).chunks ≡ view changes [])
        × IsCurrent (replay changes (empty_index k1 b))
  replay-refines k1 b changes = (
    replay-chunks changes (empty_index k1 b),
    replay-IsCurrent changes (empty_index k1 b) (empty-IsCurrent k1 b),
  )
