-- ===== src/Chunking/Markdown.antt =====
-- `MarkdownAwareChunker` of src/rag/chunking/markdown_aware.py. The size is positive, as
-- src/rag/chunking/registry.py sees to.
pub mod Sections
use ai_rag.Prelude.{
  ℕ, zero, suc, ◌+◌, ◌==◌, Text, List, [], ◌∷◌, ◌++◌, Bool, true, false, not, ◌&&◌, none,
  if◌then◌else◌, codes, is_empty, is_space, strip, length, drop, leb, ltb, or_else, keep,
}
use ai_rag.Schemas.Chunk.{Chunk, Document}
use ai_rag.Chunking.Fixed.{derive_chunk_id}
use ai_rag.Chunking.Recursive.{separators, split_text, find_at}
use ai_rag.Chunking.Recursive

-- `#{1,6}\s`, with the hashes before it counted
unfoldable pub is_heading : (hashes : ℕ) → Text → Bool
unfolding is_space
is_heading hashes [] = false
is_heading hashes (c ∷ text) =
    let more = is_heading (hashes + 1) text in
    if c == b'#' then (if leb 6 hashes then false else more) else ltb 0 hashes && is_space c

-- `re.split(r"(?=^#{1,6}\s)", text, flags=re.M)`, in the middle of a section
unfoldable pub sections_from : (line_start : Bool) → (section text : Text) → List Text
unfolding is_heading
sections_from line_start section [] = section ∷ []
sections_from line_start section (c ∷ text) =
    let next = sections_from (c == 10) (c ∷ []) text in
    let same = sections_from (c == 10) (section ++ (c ∷ [])) text in
    if line_start && is_heading 0 (c ∷ text) then section ∷ next else same

-- The sections that are not blank.
unfoldable pub sections : Text → List Text
unfolding sections_from
sections text = keep (λ s. not (is_empty (strip s))) (sections_from true [] text)

unfoldable pub pieces_of : (size : ℕ) → Text → List Text
pieces_of size section =
    if leb (length section) size then section ∷ [] else split_text separators size section

-- The pieces of all sections, in the order in which the two loops meet them.
unfoldable pub all_pieces : (size : ℕ) → List Text → List Text
all_pieces size [] = []
all_pieces size (s ∷ ss) = pieces_of size s ++ all_pieces size ss

module _ (sha256 : Text → Text) (document : Document) (index_version : Text) where
  unfoldable pub section_chunk : (ordinal start : ℕ) → Text → Chunk
  section_chunk ordinal start piece = record {
    chunk_id = derive_chunk_id sha256 document.doc_id ordinal (codes "1.0") index_version;
    doc_id = document.doc_id;
    ordinal = ordinal;
    text = strip piece;
    span = (start, start + length piece);
    acl = document.acl;
    index_version = index_version;
    embedding_model = none;
    metadata =
        (codes "chunker", codes "markdown_aware") ∷ (codes "chunker_version", codes "1.0") ∷ [];
  }

  -- The body of the two loops.
  unfoldable pub place_sections : Text → (ordinal cursor : ℕ) → List Text → List Chunk
  unfolding find_at section_chunk
  place_sections text ordinal cursor [] = []
  place_sections text ordinal cursor (piece ∷ pieces) =
      let start = or_else (find_at piece cursor (drop cursor text)) cursor in
      section_chunk ordinal start piece
      ∷ place_sections text (ordinal + 1) (start + length piece) pieces

  -- `MarkdownAwareChunker.chunk`
  unfoldable pub chunk : (size overlap : ℕ) → List Chunk
  chunk size overlap =
      let text = or_else document.text [] in
      if is_empty text
      then []
      else if is_empty (sections text)
      then Recursive.chunk sha256 document index_version size overlap
      else place_sections text 0 0 (all_pieces size (sections text))
