-- ===== src/Chunking/Fixed.antt =====
-- `FixedChunker` of src/rag/chunking/fixed.py, with `derive_chunk_id` of src/rag/schemas/chunk.py and src/rag/utils/hashing.py.
-- SHA-256 is an argument. A character of a text is one code point, which stands for its encoding.
pub mod Windows
use ai_rag.Prelude.{
  ℕ, zero, suc, ◌+◌, ◌-◌, ◌≡◌, min, max, Text, List, [], ◌∷◌, ◌++◌, map, Bool, true, false, Option,
  none, some, if◌then◌else◌, codes, is_empty, strip, length, take, drop, leb, or_else, show_nat,
}
use ai_rag.Schemas.Chunk.{Chunk, Document}

-- The parts, each followed by a zero.
unfoldable pub joined : List Text → Text
joined [] = []
joined (part ∷ parts) = part ++ (0 ∷ joined parts)

-- `short_id`
unfoldable pub short_id : (sha256 : Text → Text) → List Text → Text
short_id sha256 parts = take 24 (sha256 (joined parts))

unfoldable pub derive_chunk_id : (sha256 : Text → Text) → Text → ℕ → Text → Text → Text
derive_chunk_id sha256 doc_id ordinal chunker_version index_version =
    short_id sha256 (doc_id ∷ show_nat ordinal ∷ chunker_version ∷ index_version ∷ [])

module _ (sha256 : Text → Text) (document : Document) (index_version : Text) where
  unfoldable pub chunk_of : Text → ℕ → (start stop : ℕ) → Chunk
  chunk_of text ordinal start stop = record {
    chunk_id = derive_chunk_id sha256 document.doc_id ordinal (codes "1.0") index_version;
    doc_id = document.doc_id;
    ordinal = ordinal;
    text = take (stop - start) (drop start text);
    span = (start, stop);
    acl = document.acl;
    index_version = index_version;
    embedding_model = none;
    metadata = (codes "chunker", codes "fixed") ∷ (codes "chunker_version", codes "1.0") ∷ [];
  }

  -- The loop over the starts, from `start` on, with the ordinal of the next chunk; none where the fuel ran out.
  unfoldable pub windows : (fuel : ℕ) → Text → (size step start ordinal : ℕ) → Option (List Chunk)
  windows zero text size step start ordinal = none
  windows (suc fuel) text size step start ordinal =
      let stop = min (start + size) (length text) in
      let piece = take (stop - start) (drop start text) in
      let skipped = windows fuel text size step (start + step) ordinal in
      let later = windows fuel text size step (start + step) (ordinal + 1) in
      if leb (length text) start
      then some []
      else if is_empty (strip piece)
      then if leb (length text) stop then some [] else skipped
      else if leb (length text) stop
      then some (chunk_of text ordinal start stop ∷ [])
      else elim later [ none ↦ none | some rest ↦ some (chunk_of text ordinal start stop ∷ rest) ]

  -- `FixedChunker.chunk`, with one window of fuel more than the text has characters
  unfoldable pub chunk : (size overlap : ℕ) → Option (List Chunk)
  chunk size overlap =
      let text = or_else document.text [] in
      windows (length text + 1) text size (max (size - overlap) 1) 0 0
