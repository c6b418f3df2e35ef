-- ===== src/Chunking/Recursive/Spans.antt =====
-- The chunks of src/rag/chunking/recursive.py are the texts of their spans.
use mathlib.Core.List.{append_assoc}
use ai_rag.Prelude.{
  ℕ, zero, suc, ◌+◌, ◌-◌, ◌≤◌, ◌<◌, ◌≡◌, refl, sym, ap, ◌∙◌, max, Text, List, [], ◌∷◌, ◌++◌, true,
  some, arith, is_empty, strip, length, length-append, take, drop, leb, ltb, inl, inr, Bool-cases,
  All, All-append, starts_with, starts_with_self_append, if◌then◌else◌, length-take-le, or_else,
}
use ai_rag.Schemas.Chunk.{Chunk, Document}
use ai_rag.Chunking.Recursive.{
  slices, flushed, pack, split_text, split_from, separators, find_at, piece_chunk, place_pieces,
  chunk,
}
use ai_rag.Chunking.Recursive.Split.{starts_with-drop}
use ai_rag.Chunking.Recursive.InOrder.{InOrder, extend, split_text-InOrder}

module _ (size : ℕ) where
  abbrev pub Fits : Text → Type 0
  Fits piece = length piece ≤ size

  slices-Fits : (fuel : ℕ) (text : Text) → All Fits (slices fuel text size)
  unfolding slices
  slices-Fits zero text = tt
  slices-Fits (suc fuel) [] = tt
  slices-Fits (suc fuel) (c ∷ text) =
      (length-take-le size (c ∷ text), slices-Fits fuel (drop size (c ∷ text)))

  flushed-Fits : (current : Text) → length current ≤ size → All Fits (flushed current)
  unfolding flushed
  flushed-Fits [] h = tt
  flushed-Fits (c ∷ current) h = (h, tt)

  pack-Fits :
      (deeper : Text → List Text) (sep current : Text) (parts : List Text)
      → ((text : Text) → All Fits (deeper text))
      → length current ≤ size
      → All Fits (pack deeper size sep current parts)
  unfolding pack
  pack-Fits deeper sep current [] deep h = flushed-Fits current h
  pack-Fits deeper sep current (p ∷ ps) deep h =
      let candidate : Text = if is_empty current then p else current ++ (sep ++ p) in
      elim (Bool-cases (leb (length candidate) size)) [
        | inl fits ↦ rw (fits, pack) (pack-Fits deeper sep candidate ps deep (ground (arith, fits)))
        | inr over ↦
            rw (over, pack)
              (All-append Fits (flushed current) _ (flushed-Fits current h)
                (elim (Bool-cases (ltb size (length p))) [
                  | inl long ↦ rw long (
                      All-append Fits (deeper p) _ (deep p)
                        (pack-Fits deeper sep [] ps deep (omega arith)))
                  | inr short ↦ rw short (pack-Fits deeper sep p ps deep (ground (arith, short)))
                ]))
      ]

  whole_or_none :
      (text : Text)
      → leb (length text) size ≡ true
      → All Fits (if is_empty (strip text) then [] else text ∷ [])
  whole_or_none text h = elim (Bool-cases (is_empty (strip text))) [
    | inl e ↦ rw e tt
    | inr e ↦ rw e (ground (arith, h), tt)
  ]

  -- No piece is longer than the size, whatever the separators.
  pub split_text-Fits : (seps : List Text) (text : Text) → All Fits (split_text seps size text)
  unfolding split_text
  split_text-Fits [] text = elim (Bool-cases (leb (length text) size)) [
    | inl short ↦ rw (short, split_text) (whole_or_none text short)
    | inr long ↦ rw (long, split_text) (slices-Fits (length text) text)
  ]
  split_text-Fits (sep ∷ seps) text = elim (Bool-cases (leb (length text) size)) [
    | inl short ↦ rw (short, split_text) (whole_or_none text short)
    | inr long ↦ elim (Bool-cases (is_empty sep)) [
      | inl e ↦ rw (long, e, split_text) (slices-Fits (length text) text)
      | inr e ↦
          rw (long, e, split_text)
            (pack-Fits (split_text seps size) sep [] (split_from sep 0 [] text)
              (λ t. split_text-Fits seps t) (omega arith))
    ]
  ]

drop_append : (n : ℕ) (x y : Text) → n ≤ length x → drop n (x ++ y) ≡ drop n x ++ y
drop_append zero x y h = refl
drop_append (suc n) [] y h = absurd (omega (arith, h))
drop_append (suc n) (c ∷ x) y h = drop_append n x y (omega (arith, h))

drop-drop : (m n : ℕ) (text : Text) → drop n (drop m text) ≡ drop (m + n) text
drop-drop zero n text = let e : 0 + n ≡ n = omega arith in rw e refl
drop-drop (suc m) zero [] = let e : suc m + 0 ≡ suc m = omega arith in rw e refl
drop-drop (suc m) (suc n) [] = let e : suc m + suc n ≡ suc (m + suc n) = omega arith in rw e refl
drop-drop (suc m) n (c ∷ text) =
    let e : suc m + n ≡ suc (m + n) = omega arith in rw e (drop-drop m n text)

length-drop : (n : ℕ) (text : Text) → length (drop n text) ≡ length text - n
length-drop zero text = omega arith
length-drop (suc n) [] = omega arith
length-drop (suc n) (c ∷ text) = omega (arith, length-drop n text)

take-length : (p a : Text) → take (length p) (p ++ a) ≡ p
take-length [] a = refl
take-length (c ∷ p) a = ap (λ t. c ∷ t) (take-length p a)

drop-length : (p a : Text) → drop (length p) (p ++ a) ≡ a
drop-length [] a = refl
drop-length (c ∷ p) a = drop-length p a

find_here : (p text : Text) (at : ℕ) → starts_with text p ≡ true → find_at p at text ≡ some at
unfolding find_at
find_here p [] at h = rw h refl
find_here p (c ∷ text) at h = rw h refl

-- `find` meets a piece that is there, at its place or before it.
record IsFound (p : Text) (at : ℕ) (text after : Text) : Type 0 where
  skipped : Text
  behind : Text
  between : Text
  found : find_at p at text ≡ some (at + length skipped)
  placed : text ≡ skipped ++ (p ++ behind)
  later : behind ≡ between ++ after

find-IsFound :
    (p : Text) (at : ℕ) (before after : Text) → IsFound p at (before ++ (p ++ after)) after
unfolding find_at
find-IsFound p at [] after = record {
  skipped = [];
  behind = after;
  between = [];
  found =
      let e : at + 0 ≡ at = omega arith in
      rw e (find_here p (p ++ after) at (starts_with_self_append p after));
  placed = refl;
  later = refl;
}
find-IsFound p at (c ∷ before) after =
    let text : Text = c ∷ (before ++ (p ++ after)) in
    elim (Bool-cases (starts_with text p)) [
      | inl here ↦ record {
        skipped = [];
        behind = drop (length p) text;
        between = drop (length p) ((c ∷ before) ++ p);
        found = let e : at + 0 ≡ at = omega arith in rw e (find_here p text at here);
        placed = sym (starts_with-drop text p here);
        later =
            ap (drop (length p)) (sym (append_assoc (c ∷ before) p after))
            ∙ drop_append (length p) ((c ∷ before) ++ p) after
                (omega (arith, length-append (c ∷ before) p));
      }
      | inr elsewhere ↦
          let h = find-IsFound p (at + 1) before after in
          let e : at + length (c ∷ h.skipped) ≡ at + 1 + length h.skipped = omega arith in
          record {
            skipped = c ∷ h.skipped;
            behind = h.behind;
            between = h.between;
            found = rw (e, elsewhere) h.found;
            placed = ap (λ t. c ∷ t) h.placed;
            later = h.later;
          }
    ]

-- Nothing is asked of what lies between the pieces.
abbrev pub Anything : Text → Type 0
Anything gap = Unit

loosened :
    (G : Text → Type 0) (text : Text) (ps : List Text)
    → InOrder G text ps
    → InOrder Anything text ps
loosened G text [] h = tt
loosened G text (p ∷ ps) (before, after, gap, e, rest) =
    (before, after, tt, e, loosened G after ps rest)

module _ (sha256 : Text → Text) (document : Document) (index_version : Text) (text : Text)
    (size : ℕ) where
  -- A chunk that is the text of its span, behind `start`, at most `size` long, with the access tags of the document.
  pub record IsSpan (start ordinal : ℕ) (c : Chunk) : Type 0 where
    pub text_of : c.text ≡ take (c.span.1 - c.span.0) (drop c.span.0 text)
    pub after : start ≤ c.span.0
    pub order : c.span.0 ≤ c.span.1
    pub inside : c.span.1 ≤ length text
    pub bounded : length c.text ≤ size
    pub numbered : c.ordinal ≡ ordinal
    pub tagged : c.acl ≡ document.acl
    pub versioned : c.index_version ≡ index_version

  -- The chunks from a position and an ordinal on, none overlapping the one before.
  abbrev pub AreSpans : (start ordinal : ℕ) → List Chunk → Type 0
  AreSpans start ordinal [] = Unit
  AreSpans start ordinal (c ∷ cs) = IsSpan start ordinal c × AreSpans c.span.1 (ordinal + 1) cs

  piece_chunk-IsSpan :
      (ordinal cursor : ℕ) (piece after : Text)
      → cursor ≤ length text
      → length piece ≤ size
      → (h : IsFound piece cursor (drop cursor text) after)
      → IsSpan cursor ordinal
          (piece_chunk sha256 document index_version ordinal (cursor + length h.skipped) piece)
  unfolding piece_chunk
  piece_chunk-IsSpan ordinal cursor piece after inside fits h =
      let start : ℕ = cursor + length h.skipped in
      let rest : drop start text ≡ piece ++ h.behind =
        sym (drop-drop cursor (length h.skipped) text)
        ∙ (ap (drop (length h.skipped)) h.placed ∙ drop-length h.skipped (piece ++ h.behind)) in
      let wide : start + length piece - start ≡ length piece = omega arith in
      record {
        text_of = rw (rest, wide) (sym (take-length piece h.behind));
        after = omega arith;
        order = omega arith;
        inside = omega (
          arith,
          length-drop cursor text,
          ap length h.placed,
          length-append h.skipped (piece ++ h.behind),
          length-append piece h.behind,
        );
        bounded = fits;
        numbered = refl;
        tagged = refl;
        versioned = refl;
      }

  behind-drop :
      (p : Text) (cursor : ℕ) (after : Text) (h : IsFound p cursor (drop cursor text) after)
      → drop (cursor + length h.skipped + length p) text ≡ h.behind
  behind-drop p cursor after h =
      sym (drop-drop (cursor + length h.skipped) (length p) text)
      ∙ (ap (drop (length p)) (sym (drop-drop cursor (length h.skipped) text))
          ∙ (ap (λ t. drop (length p) (drop (length h.skipped) t)) h.placed
              ∙ (ap (drop (length p)) (drop-length h.skipped (p ++ h.behind))
                  ∙ drop-length p h.behind)))

  pub place_pieces-AreSpans :
      (overlap ordinal cursor : ℕ) (pieces : List Text)
      → cursor ≤ length text
      → All (Fits size) pieces
      → InOrder Anything (drop cursor text) pieces
      → AreSpans cursor ordinal
          (place_pieces sha256 document index_version text overlap ordinal cursor pieces)
  unfolding place_pieces piece_chunk
  place_pieces-AreSpans overlap ordinal cursor [] inside fits h = tt
  place_pieces-AreSpans overlap ordinal cursor (p ∷ ps) inside fits (before, after, gap, e, rest) =
      let h : IsFound p cursor (drop cursor text) after =
        rw e (find-IsFound p cursor before after) in
      let c = piece_chunk-IsSpan ordinal cursor p after inside fits.0 h in
      let start : ℕ = cursor + length h.skipped in
      let end : ℕ = start + length p in
      let next : max (end - overlap) end ≡ end = omega arith in
      rw (place_pieces, h.found, next)
        (
          c,
          place_pieces-AreSpans overlap (ordinal + 1) end ps c.inside fits.1 (
              rw (behind-drop p cursor after h, h.later)
                (extend Anything tt (λ a b g k. tt) h.between after ps tt rest)),
        )

-- Every chunk is the text of its span, at most `size` long, behind the one before without overlap, numbered from 0 on
-- and tagged as the document, for a positive size.
pub chunk-AreSpans :
    (sha256 : Text → Text) (document : Document) (index_version : Text) (size overlap : ℕ)
    → 0 < size
    → AreSpans sha256 document index_version
        (or_else document.text [])
        size
        0
        0
        (chunk sha256 document index_version size overlap)
unfolding chunk
chunk-AreSpans sha256 document index_version size overlap pos =
    let text : Text = or_else document.text [] in
    elim (Bool-cases (is_empty text)) [
      | inl e ↦ rw (chunk, e) tt
      | inr e ↦
          rw (chunk, e)
            (place_pieces-AreSpans sha256 document index_version text size overlap 0 0
              (split_text separators size text) (omega arith) (split_text-Fits size separators text)
              (split_text-InOrder Anything tt (λ a b g k. tt) separators size text pos (λ t h. tt)
                (tt, (tt, (tt, (tt, (tt, tt)))))))
    ]

-- The loop does not depend on the overlap.
place_overlap :
    (sha256 : Text → Text) (document : Document) (v text : Text) (o p ordinal cursor : ℕ)
    (pieces : List Text)
    → place_pieces sha256 document v text o ordinal cursor pieces
      ≡ place_pieces sha256 document v text p ordinal cursor pieces
unfolding place_pieces
place_overlap sha256 document v text o p ordinal cursor [] = refl
place_overlap sha256 document v text o p ordinal cursor (piece ∷ pieces) =
    let start : ℕ = or_else (find_at piece cursor (drop cursor text)) cursor in
    let end : ℕ = start + length piece in
    let by_o : max (end - o) end ≡ end = omega arith in
    let by_p : max (end - p) end ≡ end = omega arith in
    rw (by_o, by_p)
      (ap (λ cs. piece_chunk sha256 document v ordinal start piece ∷ cs)
        (place_overlap sha256 document v text o p (ordinal + 1) end pieces))

-- The chunks are the same for every overlap.
pub chunk_overlap :
    (sha256 : Text → Text) (document : Document) (v : Text) (size o p : ℕ)
    → chunk sha256 document v size o ≡ chunk sha256 document v size p
unfolding chunk
chunk_overlap sha256 document v size o p =
    let text : Text = or_else document.text [] in
    elim (Bool-cases (is_empty text)) [
      | inl e ↦ rw (chunk, e) refl
      | inr e ↦
          rw (chunk, e)
            (place_overlap sha256 document v text o p 0 0 (split_text separators size text))
    ]
