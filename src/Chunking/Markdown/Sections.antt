-- ===== src/Chunking/Markdown/Sections.antt =====
-- The chunks of src/rag/chunking/markdown_aware.py are the stripped texts of their spans.
use mathlib.Core.List.{append_assoc}
use mathlib.Core.Path.{subst}
use ai_rag.Prelude.{
  ℕ, ◌+◌, ◌<◌, ◌≡◌, refl, ap, max, ◌-◌, ◌∙◌, ◌&&◌, ◌==◌, Text, List, [], ◌∷◌, ◌++◌, map, Bool, true,
  false, not, arith, codes, is_empty, strip, lstrip, rstrip, length, drop, leb, or_else, inl, inr,
  Bool-cases, All, All-append, keep,
}
use ai_rag.Schemas.Chunk.{Chunk, Document}
use ai_rag.Chunking.Recursive.{separators, find_at, piece_chunk, place_pieces}
use ai_rag.Chunking.Recursive.InOrder.{InOrder, extend, beside, alone, split_text-InOrder}
use ai_rag.Chunking.Recursive.Spans.{
  AreSpans, Anything, Fits, split_text-Fits, place_pieces-AreSpans,
}
use ai_rag.Chunking.Markdown.{
  is_heading, sections_from, sections, pieces_of, all_pieces, section_chunk, place_sections, chunk,
}

-- All sections put together are the text.
concat : List Text → Text
concat [] = []
concat (s ∷ ss) = s ++ concat ss

concat-sections_from :
    (line_start : Bool) (section text : Text)
    → concat (sections_from line_start section text) ≡ section ++ text
unfolding sections_from concat
concat-sections_from line_start section [] = refl
concat-sections_from line_start section (c ∷ text) =
    elim (Bool-cases (line_start && is_heading 0 (c ∷ text))) [
      | inl e ↦ rw e (ap (λ t. section ++ t) (concat-sections_from (c == 10) (c ∷ []) text))
      | inr e ↦ rw e (
          concat-sections_from (c == 10) (section ++ (c ∷ [])) text
          ∙ append_assoc section (c ∷ []) text)
    ]

pieces_of-InOrder :
    (size : ℕ) (section : Text) → 0 < size → InOrder Anything section (pieces_of size section)
unfolding pieces_of
pieces_of-InOrder size section pos = elim (Bool-cases (leb (length section) size)) [
  | inl e ↦ rw (pieces_of, e) (alone Anything tt (λ a b g k. tt) section)
  | inr e ↦
      rw (pieces_of, e)
        (split_text-InOrder Anything tt (λ a b g k. tt) separators size section pos (λ t h. tt)
          (tt, (tt, (tt, (tt, (tt, tt))))))
]

pieces_of-Fits : (size : ℕ) (section : Text) → All (Fits size) (pieces_of size section)
unfolding pieces_of
pieces_of-Fits size section = elim (Bool-cases (leb (length section) size)) [
  | inl e ↦ rw (pieces_of, e) (ground (arith, e), tt)
  | inr e ↦ rw (pieces_of, e) (split_text-Fits size separators section)
]

worded : Text → Bool
worded s = not (is_empty (strip s))

all_pieces-InOrder :
    (size : ℕ) (ss : List Text)
    → 0 < size
    → InOrder Anything (concat ss) (all_pieces size (keep worded ss))
unfolding all_pieces concat
all_pieces-InOrder size [] pos = tt
all_pieces-InOrder size (s ∷ ss) pos = elim (Bool-cases (worded s)) [
  | inl e ↦ rw e (
      beside Anything tt (λ a b g k. tt) s (concat ss) (pieces_of size s) _
        (pieces_of-InOrder size s pos) (all_pieces-InOrder size ss pos))
  | inr e ↦
      rw e (extend Anything tt (λ a b g k. tt) s (concat ss) _ tt (all_pieces-InOrder size ss pos))
]

all_pieces-Fits : (size : ℕ) (ss : List Text) → All (Fits size) (all_pieces size ss)
unfolding all_pieces
all_pieces-Fits size [] = tt
all_pieces-Fits size (s ∷ ss) =
    All-append (Fits size) (pieces_of size s) _ (pieces_of-Fits size s) (all_pieces-Fits size ss)

sections_none : (text : Text) → is_empty text ≡ true → is_empty (sections text) ≡ true
unfolding sections sections_from strip lstrip rstrip
sections_none [] h = refl
sections_none (c ∷ text) h = absurd (ground (arith, h))

-- A chunk as the markdown chunker writes it.
abbrev pub stripped : Chunk → Chunk
stripped c = record c {
  text = strip c.text;
  metadata =
      (codes "chunker", codes "markdown_aware") ∷ (codes "chunker_version", codes "1.0") ∷ [];
}

module _ (sha256 : Text → Text) (document : Document) (index_version : Text) where
  place_sections-stripped :
      (text : Text) (ordinal cursor : ℕ) (pieces : List Text)
      → place_sections sha256 document index_version text ordinal cursor pieces
        ≡ map stripped (place_pieces sha256 document index_version text 0 ordinal cursor pieces)
  unfolding place_sections section_chunk place_pieces piece_chunk
  place_sections-stripped text ordinal cursor [] = refl
  place_sections-stripped text ordinal cursor (p ∷ ps) =
      let start : ℕ = or_else (find_at p cursor (drop cursor text)) cursor in
      let end : ℕ = start + length p in
      let next : max (end - 0) end ≡ end = omega arith in
      rw next (
        ap (λ cs. section_chunk sha256 document index_version ordinal start p ∷ cs)
          (place_sections-stripped text (ordinal + 1) end ps))

  -- Where the text has a section that is not blank, the chunks are those of spans of the text, each at most
  -- `size` long, behind the one before without overlap, numbered from 0 on and tagged as the document, with the
  -- whitespace at the ends of their texts stripped, for a positive size.
  pub chunk-stripped :
      (size overlap : ℕ)
      → 0 < size
      → is_empty (sections (or_else document.text [])) ≡ false
      → (cs : List Chunk) × (chunk sha256 document index_version size overlap ≡ map stripped cs)
        × AreSpans sha256 document index_version (or_else document.text []) size 0 0 cs
  unfolding chunk sections worded
  chunk-stripped size overlap pos titled =
      let text : Text = or_else document.text [] in
      let pieces : List Text = all_pieces size (sections text) in
      let whole : concat (sections_from true [] text) ≡ text = concat-sections_from true [] text in
      let placed : InOrder Anything text pieces =
        subst (λ t. InOrder Anything t pieces) whole
          (all_pieces-InOrder size (sections_from true [] text) pos) in
      (
        place_pieces sha256 document index_version text 0 0 0 pieces,
        elim (Bool-cases (is_empty text)) [
          | inl e ↦ absurd (ground (arith, titled, sections_none text e))
          | inr e ↦ rw (chunk, e, titled) (place_sections-stripped text 0 0 pieces)
        ],
        place_pieces-AreSpans sha256 document index_version text size 0 0 0 pieces (omega arith)
            (all_pieces-Fits size (sections text)) placed,
      )
