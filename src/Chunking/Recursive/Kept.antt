-- ===== src/Chunking/Recursive/Kept.antt =====
-- What src/rag/chunking/recursive.py leaves out of a text.
use ai_rag.Prelude.{
  ℕ, ◌<◌, ◌==◌, ◌≡◌, refl, Text, [], ◌∷◌, true, ◌||◌, arith, is_empty, is_space, strip, lstrip,
  rstrip, inl, inr, Bool-cases, All, All-append,
}
use ai_rag.Chunking.Recursive.{split_text, separators}
use ai_rag.Chunking.Recursive.InOrder.{InOrder, split_text-InOrder}

-- A text of whitespace and full stops.
abbrev pub IsGap : Text → Type 0
IsGap = All (λ c. (is_space c || (c == 46)) ≡ true)

rstrip_blank : (text : Text) → is_empty (rstrip text) ≡ true → IsGap text
unfolding rstrip
rstrip_blank [] h = tt
rstrip_blank (c ∷ text) h =
    let blank : is_space c ≡ true = ground (arith, h) in
    let none_left : is_empty (rstrip text) ≡ true = ground (arith, h) in
    (ground (arith, blank), rstrip_blank text none_left)

lstrip-IsGap : (text : Text) → IsGap (lstrip text) → IsGap text
unfolding lstrip
lstrip-IsGap [] h = tt
lstrip-IsGap (c ∷ text) h = elim (Bool-cases (is_space c)) [
  | inl e ↦ (ground (arith, e), lstrip-IsGap text (rw (lstrip, e) at h))
  | inr e ↦ (rw (lstrip, e) at h)
]

strip_blank : (text : Text) → is_empty (strip text) ≡ true → IsGap text
unfolding strip
strip_blank text h = lstrip-IsGap text (rstrip_blank (lstrip text) h)

-- The pieces stand in the text in their order and without overlap, and nothing but whitespace and full stops
-- lies before, between and behind them, for a positive size.
pub split_text_kept :
    (size : ℕ) (text : Text) → 0 < size → InOrder IsGap text (split_text separators size text)
unfolding is_space
split_text_kept size text pos =
    split_text-InOrder IsGap tt (λ a b g k. All-append _ a b g k) separators size text pos
      strip_blank ((refl, (refl, tt)), ((refl, tt), ((refl, (refl, tt)), ((refl, tt), (tt, tt)))))
