-- ===== src/Chunking/Recursive/Split.antt =====
-- Cutting and joining texts: the slices and `str.split` of src/rag/chunking/recursive.py.
use mathlib.Core.List.{append_assoc, append-nil}
use ai_rag.Prelude.{
  ℕ, zero, suc, ◌-◌, ◌≤◌, ◌≡◌, refl, sym, ap, ◌∙◌, Text, List, [], ◌∷◌, ◌++◌, true, false, arith,
  is_empty, length, take, drop, inl, inr, Bool-cases, join, starts_with,
}
use ai_rag.Chunking.Recursive.{split_from}

pub take-drop : (n : ℕ) (text : Text) → take n text ++ drop n text ≡ text
take-drop zero text = refl
take-drop (suc n) [] = refl
take-drop (suc n) (c ∷ text) = ap (λ t. c ∷ t) (take-drop n text)

pub length-drop-le : (n : ℕ) (text : Text) → length (drop n text) ≤ length text
length-drop-le zero text = omega arith
length-drop-le (suc n) [] = omega arith
length-drop-le (suc n) (c ∷ text) = omega (arith, length-drop-le n text)

-- `sep.join(parts)` where parts are left
pub join-cons :
    (sep p : Text) (ps : List Text)
    → is_empty ps ≡ false
    → join sep (p ∷ ps) ≡ p ++ (sep ++ join sep ps)
unfolding join
join-cons sep p [] h = absurd (ground (arith, h))
join-cons sep p (q ∷ ps) h = refl

pub join_one : (sep p : Text) → join sep (p ∷ []) ≡ p
unfolding join
join_one sep p = refl

pub split_from-nonempty :
    (sep : Text) (skip : ℕ) (part text : Text) → is_empty (split_from sep skip part text) ≡ false
unfolding split_from
split_from-nonempty sep skip part [] = refl
split_from-nonempty sep (suc skip) part (c ∷ text) = split_from-nonempty sep skip part text
split_from-nonempty sep zero part (c ∷ text) =
    ground (arith, split_from-nonempty sep zero (part ++ (c ∷ [])) text)

pub starts_with-drop :
    (text prefix : Text)
    → starts_with text prefix ≡ true
    → prefix ++ drop (length prefix) text ≡ text
unfolding starts_with
starts_with-drop text [] h = refl
starts_with-drop [] (c ∷ prefix) h = absurd (ground (arith, h))
starts_with-drop (d ∷ text) (c ∷ prefix) h =
    let rest = starts_with-drop text prefix (ground (arith, h)) in
    let same : d ≡ c = ground (arith, h) in rw same (ap (λ t. c ∷ t) rest)

-- Splitting and joining give the text back.
pub join-split_from :
    (sep : Text) (skip : ℕ) (part text : Text)
    → is_empty sep ≡ false
    → join sep (split_from sep skip part text) ≡ part ++ drop skip text
unfolding split_from
join-split_from sep zero part [] h = join_one sep part ∙ sym (append-nil part)
join-split_from sep (suc skip) part [] h = join_one sep part ∙ sym (append-nil part)
join-split_from sep (suc skip) part (c ∷ text) h = join-split_from sep skip part text h
join-split_from (d ∷ sep) zero part (c ∷ text) h =
    let one_less : length (d ∷ sep) - 1 ≡ length sep = omega arith in
    elim (Bool-cases (starts_with (c ∷ text) (d ∷ sep))) [
      | inl e ↦
          rw
            (
              e,
              one_less,
              join-cons (d ∷ sep) part (split_from (d ∷ sep) (length sep) [] text)
                  (split_from-nonempty (d ∷ sep) (length sep) [] text),
              join-split_from (d ∷ sep) (length sep) [] text h,
            )
            (ap (λ t. part ++ t) (starts_with-drop (c ∷ text) (d ∷ sep) e))
      | inr e ↦
          rw (e, join-split_from (d ∷ sep) zero (part ++ (c ∷ [])) text h)
            (append_assoc part (c ∷ []) text)
    ]
join-split_from [] zero part (c ∷ text) h = absurd (ground (arith, h))
