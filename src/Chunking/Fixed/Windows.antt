-- ===== src/Chunking/Fixed/Windows.antt =====
-- What the chunks of src/rag/chunking/fixed.py are.
use ai_rag.Prelude.{
  ℕ, zero, suc, ◌+◌, ◌-◌, ◌≤◌, ◌<◌, ◌≡◌, refl, min, max, Text, List, [], ◌∷◌, false, some, arith,
  is_empty, strip, length, take, drop, leb, or_else, inl, inr, Bool-cases,
}
use ai_rag.Schemas.Chunk.{Chunk, Document}
use ai_rag.Chunking.Fixed.{chunk_of, windows, chunk}

module _ (sha256 : Text → Text) (document : Document) (index_version : Text) (text : Text)
    (size : ℕ) where
  -- A chunk that is the text of its span, at most `size` long and not blank, with the access tags of the document.
  pub record IsWindow (start ordinal : ℕ) (c : Chunk) : Type 0 where
    pub text_of : c.text ≡ take (c.span.1 - c.span.0) (drop c.span.0 text)
    pub after : start ≤ c.span.0
    pub order : c.span.0 < c.span.1
    pub inside : c.span.1 ≤ length text
    pub bounded : c.span.1 ≤ c.span.0 + size
    pub worded : is_empty (strip c.text) ≡ false
    pub numbered : c.ordinal ≡ ordinal
    pub tagged : c.acl ≡ document.acl
    pub versioned : c.index_version ≡ index_version

  -- The chunks from a start and an ordinal on, each `step` or more behind the one before.
  abbrev pub AreWindows : (step start ordinal : ℕ) → List Chunk → Type 0
  AreWindows step start ordinal [] = Unit
  AreWindows step start ordinal (c ∷ cs) =
      IsWindow start ordinal c × AreWindows step (c.span.0 + step) (ordinal + 1) cs

  sooner :
      (step start start' ordinal : ℕ) (cs : List Chunk)
      → start ≤ start'
      → AreWindows step start' ordinal cs
      → AreWindows step start ordinal cs
  sooner step start start' ordinal [] h k = tt
  sooner step start start' ordinal (c ∷ cs) h k = (
    record {
      text_of = k.0.text_of;
      after = omega (arith, k.0.after);
      order = k.0.order;
      inside = k.0.inside;
      bounded = k.0.bounded;
      worded = k.0.worded;
      numbered = k.0.numbered;
      tagged = k.0.tagged;
      versioned = k.0.versioned;
    },
    k.1,
  )

  chunk_of-IsWindow :
      (start ordinal : ℕ)
      → start < length text
      → 0 < size
      → is_empty (strip (take (min (start + size) (length text) - start) (drop start text))) ≡ false
      → IsWindow start ordinal (
          chunk_of sha256 document index_version text ordinal start
            (min (start + size) (length text)))
  unfolding chunk_of
  chunk_of-IsWindow start ordinal h pos worded = record {
    text_of = refl;
    after = omega arith;
    order = omega arith;
    inside = omega arith;
    bounded = omega arith;
    worded = worded;
    numbered = refl;
    tagged = refl;
    versioned = refl;
  }

  -- The loop with enough fuel.
  Cut : (fuel step start ordinal : ℕ) → Type 0
  Cut fuel step start ordinal =
      (cs : List Chunk) × (windows sha256 document index_version fuel text size step start ordinal
        ≡ some cs)
      × AreWindows step start ordinal cs

  windows-Cut :
      (fuel step start ordinal : ℕ)
      → 0 < step
      → 0 < size
      → length text - start < fuel
      → Cut fuel step start ordinal
  unfolding windows Cut chunk_of
  windows-Cut zero step start ordinal h k m = absurd (omega arith)
  windows-Cut (suc fuel) step start ordinal h k m =
      let stop : ℕ = min (start + size) (length text) in
      elim (Bool-cases (leb (length text) start)) [
        | inl past ↦ ([], rw (past, windows) refl, tt)
        | inr more ↦
            let here : start < length text = ground arith in
            let (later, e, ws) =
              windows-Cut fuel step (start + step) (ordinal + 1) h k (omega arith) in
            let (skipped, f, vs) = windows-Cut fuel step (start + step) ordinal h k (omega arith) in
            elim (Bool-cases (is_empty (strip (take (stop - start) (drop start text))))) [
              | inl blank ↦ elim (Bool-cases (leb (length text) stop)) [
                | inl end' ↦ ([], rw (more, windows, blank, end') refl, tt)
                | inr on ↦ (
                  skipped,
                  rw (more, windows, blank, on) f,
                  sooner step start (start + step) ordinal skipped (omega arith) vs,
                )
              ]
              | inr worded ↦
                  let first = chunk_of-IsWindow start ordinal here k worded in
                  elim (Bool-cases (leb (length text) stop)) [
                    | inl end' ↦ (
                      chunk_of sha256 document index_version text ordinal start stop ∷ [],
                      rw (more, windows, worded, end') refl,
                      (first, tt),
                    )
                    | inr on ↦ (
                      chunk_of sha256 document index_version text ordinal start stop ∷ later,
                      rw (more, windows, worded, on, e) refl,
                      (first, ws),
                    )
                  ]
            ]
      ]

module _ (sha256 : Text → Text) (document : Document) (index_version : Text) where
  -- The chunker ends. Each chunk is the text of its span, which lies in the document, is at most `size` characters long and not blank;
  -- each starts at least `size - overlap` characters, and at least one, behind the one before; the ordinals count up
  -- from 0; and every chunk carries the access tags of the document and the index version. The size is positive.
  pub chunk-AreWindows :
      (size overlap : ℕ)
      → 0 < size
      → (cs : List Chunk) × (chunk sha256 document index_version size overlap ≡ some cs)
        × AreWindows sha256 document index_version
            (or_else document.text [])
            size
            (max (size - overlap) 1)
            0
            0
            cs
  unfolding chunk Cut
  chunk-AreWindows size overlap k =
      let text : Text = or_else document.text [] in
      windows-Cut sha256 document index_version text size (length text + 1) (max (size - overlap) 1)
        0 0 (omega arith) k (omega arith)
