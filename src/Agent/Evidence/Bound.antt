-- ===== src/Agent/Evidence/Bound.antt =====
-- How long a rendering of src/rag/agent/evidence.py can be.
use ai_rag.Prelude.{
  ℕ, zero, suc, ap, ◌+◌, ◌⊎◌, ◌-◌, ◌≤◌, Text, List, [], ◌∷◌, ◌++◌, true, false, ◌≡◌, refl, arith,
  inl, inr, Bool-cases, length, length-append, min, join, codes, ltb, length-take-le,
}
use ai_rag.Schemas.Answer.{Source}
use ai_rag.Agent.Evidence.{header, render_from, slice_to, omitted_note, min_quote_chars}

-- Where the budget is not overdrawn, a slice stays within it.
slice_to-le :
    (cap limit used : ℕ) (t : Text)
    → used ≤ limit
    → length (slice_to cap limit used t) ≤ limit - used
unfolding slice_to
slice_to-le cap limit used t h = ground (arith, length-take-le (min cap (limit - used)) t)

abbrev pub total : List Text → ℕ
total parts = length (join (codes "\n\n") parts)

total-step :
    (p : Text) (ps : List Text) (used limit : ℕ)
    → used + length p ≤ limit
    → (ps ≡ []) ⊎ (used + length p + 2 + total ps ≤ limit)
    → used + total (p ∷ ps) ≤ limit
unfolding join
total-step p [] used limit h k = h
total-step p (q ∷ ps) used limit h (inl none) = absurd (ground arith)
total-step p (q ∷ ps) used limit h (inr k) =
    let rest = join (codes "\n\n") (q ∷ ps) in
    omega (arith, length-append p (codes "\n\n" ++ rest), length-append (codes "\n\n") rest)

-- The line that says how many sources were left out, if any were.
abbrev pub note_for : ℕ → List Text
note_for zero = []
note_for (suc k) = omitted_note (suc k) ∷ []

-- A rendering of `n` sources: the entries of the first of them, within `limit` characters where
-- `used` are spent, and a note on the `omitted` ones.
pub record Fits (limit used n : ℕ) (out : List Text) : Type 0 where
  pub entries : List Text
  pub omitted : ℕ
  pub within : (entries ≡ []) ⊎ (used + total entries ≤ limit)
  pub counted : length entries + omitted ≡ n
  pub shape : out ≡ (entries ++ note_for omitted)

module _ {F : Type 0} (show_score : F → Text) (limit cap : ℕ) where
  abbrev entry_of : Source F → ℕ → Text
  entry_of src used =
      let head = header show_score src in
      head ++ (codes "\n" ++ slice_to cap limit (used + length head + 1) src.quote)

  length-entry :
      (src : Source F) (used : ℕ)
      → used + length (header show_score src) + 1 ≤ limit
      → used + length (entry_of src used) ≤ limit
  length-entry src used h =
      let head = header show_score src in
      let slice = slice_to cap limit (used + length head + 1) src.quote in
      omega (
        arith,
        length-append head (codes "\n" ++ slice),
        length-append (codes "\n") slice,
        slice_to-le cap limit (used + length head + 1) src.quote h,
      )

  Fits-cons :
      (src : Source F) (used n : ℕ) (later : List Text)
      → used + length (header show_score src) + 1 ≤ limit
      → Fits limit (used + length (entry_of src used) + 2) n later
      → Fits limit used (suc n) (entry_of src used ∷ later)
  Fits-cons src used n later h f = record {
    entries = entry_of src used ∷ f.entries;
    omitted = f.omitted;
    within =
        inr
          (total-step (entry_of src used) f.entries used limit (length-entry src used h) f.within);
    counted = omega (arith, f.counted);
    shape = ap (◌∷◌ (entry_of src used)) f.shape;
  }

  Fits-note : (used n : ℕ) → Fits limit used (suc n) (omitted_note (suc n) ∷ [])
  Fits-note used n = record {
    entries = [];
    omitted = suc n;
    within = inl refl;
    counted = omega arith;
    shape = refl;
  }

  render_from-Fits :
      (used : ℕ) (srcs : List (Source F))
      → Fits limit used (length srcs) (render_from show_score limit cap used false srcs)
  unfolding render_from
  render_from-Fits used [] = record {
    entries = [];
    omitted = 0;
    within = inl refl;
    counted = refl;
    shape = refl;
  }
  render_from-Fits used (src ∷ rest) =
      elim (Bool-cases (ltb limit (used + length (header show_score src) + 1 + min_quote_chars))) [
        | inl full ↦ rw full (Fits-note used (length rest))
        | inr room ↦ rw room (
            Fits-cons src used (length rest) _ (ground arith)
              (render_from-Fits (used + length (entry_of src used) + 2) rest))
      ]

  -- Where the header of the strongest source and a line feed fit, the entries of a rendering with their
  -- separators take at most `limit` characters, and a note after them, if there is one, counts the sources
  -- without an entry.
  pub render_from-bounded :
      (src : Source F) (rest : List (Source F))
      → length (header show_score src) + 1 ≤ limit
      → Fits limit 0 (length (src ∷ rest)) (render_from show_score limit cap 0 true (src ∷ rest))
  unfolding render_from
  render_from-bounded src rest h =
      let first =
        Fits-cons src 0 (length rest) _ (omega arith)
          (render_from-Fits (0 + length (entry_of src 0) + 2) rest) in
      elim (Bool-cases (ltb limit (0 + length (header show_score src) + 1 + min_quote_chars))) [
        | inl full ↦ rw full first
        | inr room ↦ rw room first
      ]
