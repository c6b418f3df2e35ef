-- ===== src/Chunking/Recursive.antt =====
-- `RecursiveChunker` of src/rag/chunking/recursive.py. The size is positive, as
-- src/rag/chunking/registry.py sees to: with a size of 0 the source raises at `range`.
pub mod Split
pub mod InOrder
pub mod Spans
pub mod Kept
use ai_rag.Prelude.{
  ℕ, zero, suc, ◌+◌, ◌-◌, max, Text, List, [], ◌∷◌, ◌++◌, Bool, true, false, Option, none, some,
  if◌then◌else◌, codes, is_empty, strip, starts_with, length, take, drop, leb, ltb, or_else,
}
use ai_rag.Schemas.Chunk.{Chunk, Document}
use ai_rag.Chunking.Fixed.{derive_chunk_id}

abbrev pub separators : List Text
separators = (10 ∷ 10 ∷ []) ∷ (10 ∷ []) ∷ codes ". " ∷ codes " " ∷ [] ∷ []

-- `text.split(sep)` with a separator that is not empty, in the middle of a part; `skip` is what is left of
-- the separator just met.
unfoldable pub split_from : (sep : Text) → (skip : ℕ) → (part text : Text) → List Text
unfolding starts_with
split_from sep skip part [] = part ∷ []
split_from sep (suc skip) part (c ∷ text) = split_from sep skip part text
split_from sep zero part (c ∷ text) =
    let next = split_from sep (length sep - 1) [] text in
    let same = split_from sep zero (part ++ (c ∷ [])) text in
    if starts_with (c ∷ text) sep then part ∷ next else same

-- `[text[i : i + size] for i in range(0, len(text), size)]`, a slice for each unit of fuel
unfoldable pub slices : (fuel : ℕ) → Text → (size : ℕ) → List Text
slices zero text size = []
slices (suc fuel) text size =
    let rest = slices fuel (drop size text) size in
    if is_empty text then [] else take size text ∷ rest

-- `[current] if current else []`
unfoldable pub flushed : Text → List Text
flushed current = if is_empty current then [] else current ∷ []

-- The loop over the parts, with the text collected so far; `deeper` splits a part that is too long.
unfoldable pub pack :
    (deeper : Text → List Text) → (size : ℕ) → (sep current : Text) → List Text → List Text
unfolding flushed
pack deeper size sep current [] = flushed current
pack deeper size sep current (part ∷ parts) =
    let candidate = if is_empty current then part else current ++ (sep ++ part) in
    let joined_on = pack deeper size sep candidate parts in
    let afresh = pack deeper size sep [] parts in
    let from_part = pack deeper size sep part parts in
    if leb (length candidate) size
    then joined_on
    else flushed current ++ (if ltb size (length part) then deeper part ++ afresh else from_part)

-- `split_text`
unfoldable pub split_text : List Text → (size : ℕ) → Text → List Text
unfolding slices pack split_from
split_text [] size text =
    if leb (length text) size
    then (if is_empty (strip text) then [] else text ∷ [])
    else slices (length text) text size
split_text (sep ∷ rest) size text =
    if leb (length text) size
    then (if is_empty (strip text) then [] else text ∷ [])
    else if is_empty sep
    then slices (length text) text size
    else pack (split_text rest size) size sep [] (split_from sep 0 [] text)

-- `text.find(needle, …)` in what is left of a text from a position on
unfoldable pub find_at : (needle : Text) → (position : ℕ) → Text → Option ℕ
unfolding starts_with
find_at needle position [] = if starts_with [] needle then some position else none
find_at needle position (c ∷ text) =
    let later = find_at needle (position + 1) text in
    if starts_with (c ∷ text) needle then some position else later

module _ (sha256 : Text → Text) (document : Document) (index_version : Text) where
  unfoldable pub piece_chunk : (ordinal start : ℕ) → Text → Chunk
  piece_chunk ordinal start piece = record {
    chunk_id = derive_chunk_id sha256 document.doc_id ordinal (codes "1.0") index_version;
    doc_id = document.doc_id;
    ordinal = ordinal;
    text = piece;
    span = (start, start + length piece);
    acl = document.acl;
    index_version = index_version;
    embedding_model = none;
    metadata = (codes "chunker", codes "recursive") ∷ (codes "chunker_version", codes "1.0") ∷ [];
  }

  -- The loop over the pieces.
  unfoldable pub place_pieces : Text → (overlap ordinal cursor : ℕ) → List Text → List Chunk
  unfolding find_at piece_chunk
  place_pieces text overlap ordinal cursor [] = []
  place_pieces text overlap ordinal cursor (piece ∷ pieces) =
      let start = or_else (find_at piece cursor (drop cursor text)) cursor in
      let end = start + length piece in
      piece_chunk ordinal start piece
      ∷ place_pieces text overlap (ordinal + 1) (max (end - overlap) end) pieces

  -- `RecursiveChunker.chunk`
  unfoldable pub chunk : (size overlap : ℕ) → List Chunk
  chunk size overlap =
      let text = or_else document.text [] in
      if is_empty text then [] else place_pieces text overlap 0 0 (split_text separators size text)
