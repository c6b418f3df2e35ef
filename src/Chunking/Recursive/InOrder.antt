-- ===== src/Chunking/Recursive/InOrder.antt =====
-- The pieces of src/rag/chunking/recursive.py stand in the text, one behind the other, and fit the size.
use mathlib.Core.Path.{subst}
use mathlib.Core.List.{append_assoc, append-nil}
use ai_rag.Prelude.{
  ℕ, zero, suc, ◌≤◌, ◌<◌, ◌≡◌, refl, sym, ap, ◌∙◌, Text, List, [], ◌∷◌, ◌++◌, true, false, arith,
  is_empty, strip, length, take, drop, leb, ltb, inl, inr, Bool-cases, All, join, if◌then◌else◌,
}
use ai_rag.Chunking.Recursive.Split.{
  take-drop, length-drop-le, join-cons, join_one, split_from-nonempty, join-split_from,
}
use ai_rag.Chunking.Recursive.{split_from, slices, flushed, pack, split_text}

-- The pieces stand in the text in their order, without overlap, and what lies before, between and behind
-- them has the property `G`.
abbrev pub InOrder : (G : Text → Type 0) → Text → List Text → Type 0
InOrder G text [] = G text
InOrder G text (piece ∷ pieces) =
    (before : Text) × (after : Text) × G before
    × (text ≡ before ++ (piece ++ after))
    × InOrder G after pieces

module _ (G : Text → Type 0) (gap_nil : G [])
    (gap_append : (a b : Text) → G a → G b → G (a ++ b)) where
  pub extend :
      (a text : Text) (pieces : List Text)
      → G a
      → InOrder G text pieces
      → InOrder G (a ++ text) pieces
  extend a text [] g h = gap_append a text g h
  extend a text (p ∷ ps) g (before, after, gap, e, rest) = (
    a ++ before,
    after,
    gap_append a before g gap,
    ap (λ t. a ++ t) e ∙ sym (append_assoc a before (p ++ after)),
    rest,
  )

  pub beside :
      (a b : Text) (xs ys : List Text)
      → InOrder G a xs
      → InOrder G b ys
      → InOrder G (a ++ b) (xs ++ ys)
  beside a b [] ys h k = extend a b ys h k
  beside a b (x ∷ xs) ys (before, after, gap, e, rest) k = (
    before,
    after ++ b,
    gap,
    rw e (append_assoc before (x ++ after) b ∙ ap (λ t. before ++ t) (append_assoc x after b)),
    beside after b xs ys rest k,
  )

  in_front : (p text : Text) (ps : List Text) → InOrder G text ps → InOrder G (p ++ text) (p ∷ ps)
  in_front p text ps h = ([], text, gap_nil, refl, h)

  pub alone : (p : Text) → InOrder G p (p ∷ [])
  alone p = ([], [], gap_nil, sym (append-nil p), gap_nil)

  slices-InOrder :
      (fuel : ℕ) (text : Text) (size : ℕ)
      → 0 < size
      → length text ≤ fuel
      → InOrder G text (slices fuel text size)
  unfolding slices
  slices-InOrder zero [] size pos enough = gap_nil
  slices-InOrder zero (c ∷ text) size pos enough = absurd (omega (arith, enough))
  slices-InOrder (suc fuel) [] size pos enough = gap_nil
  slices-InOrder (suc fuel) (c ∷ text) (suc size) pos enough =
      let rest =
        slices-InOrder fuel (drop size text) (suc size) pos
          (omega (arith, length-drop-le size text, enough)) in
      subst (λ t. InOrder G t (slices (suc fuel) (c ∷ text) (suc size)))
        (take-drop (suc size) (c ∷ text)) (in_front (c ∷ take size text) (drop size text) _ rest)
  slices-InOrder (suc fuel) (c ∷ text) zero pos enough = absurd (omega (arith, pos))

  module _ (size : ℕ) (sep : Text) (deeper : Text → List Text) (gap_sep : G sep)
      (deeper-InOrder : (text : Text) → InOrder G text (deeper text)) where
    -- What the loop has before it: the text collected, and the parts joined.
    ahead : (current : Text) → List Text → Text
    ahead current [] = current
    ahead [] (p ∷ ps) = join sep (p ∷ ps)
    ahead (c ∷ current) (p ∷ ps) = (c ∷ current) ++ (sep ++ join sep (p ∷ ps))

    ahead_part :
        (p : Text) (ps xs : List Text)
        → InOrder G (ahead p ps) xs
        → InOrder G (join sep (p ∷ ps)) xs
    unfolding ahead
    ahead_part p [] xs h = rw (join_one sep p) h
    ahead_part [] (q ∷ ps) xs h =
        rw (join-cons sep [] (q ∷ ps) refl) (extend sep (join sep (q ∷ ps)) xs gap_sep h)
    ahead_part (c ∷ p) (q ∷ ps) xs h = rw (join-cons sep (c ∷ p) (q ∷ ps) refl) h

    ahead_joined :
        (c : ℕ) (current p : Text) (ps xs : List Text)
        → InOrder G (ahead ((c ∷ current) ++ (sep ++ p)) ps) xs
        → InOrder G (ahead (c ∷ current) (p ∷ ps)) xs
    unfolding ahead
    ahead_joined c current p [] xs h = rw (join_one sep p) h
    ahead_joined c current p (q ∷ ps) xs h = rw (join-cons sep p (q ∷ ps) refl) (
        subst (λ t. InOrder G t xs)
          (append_assoc (c ∷ current) (sep ++ p) (sep ++ join sep (q ∷ ps))
            ∙ ap (λ t. (c ∷ current) ++ t) (append_assoc sep p (sep ++ join sep (q ∷ ps))))
          h)

    ahead-flushed :
        (current p : Text) (ps xs : List Text)
        → InOrder G (join sep (p ∷ ps)) xs
        → InOrder G (ahead current (p ∷ ps)) (flushed current ++ xs)
    unfolding ahead flushed
    ahead-flushed [] p ps xs h = h
    ahead-flushed (c ∷ current) p ps xs h =
        in_front (c ∷ current) (sep ++ join sep (p ∷ ps)) xs
          (extend sep (join sep (p ∷ ps)) xs gap_sep h)

    ahead_deeper :
        (p : Text) (ps ys : List Text)
        → InOrder G (ahead [] ps) ys
        → InOrder G (join sep (p ∷ ps)) (deeper p ++ ys)
    unfolding ahead
    ahead_deeper p [] ys h =
        subst (λ t. InOrder G t (deeper p ++ ys)) (append-nil p ∙ sym (join_one sep p))
          (beside p [] (deeper p) ys (deeper-InOrder p) h)
    ahead_deeper p (q ∷ ps) ys h = rw (join-cons sep p (q ∷ ps) refl) (
        beside p (sep ++ join sep (q ∷ ps)) (deeper p) ys (deeper-InOrder p)
          (extend sep (join sep (q ∷ ps)) ys gap_sep h))

    ahead_nil : (parts : List Text) → is_empty parts ≡ false → ahead [] parts ≡ join sep parts
    unfolding ahead
    ahead_nil [] h = absurd (ground (arith, h))
    ahead_nil (p ∷ ps) h = refl

    flushed-InOrder : (current : Text) → InOrder G current (flushed current)
    unfolding flushed
    flushed-InOrder [] = gap_nil
    flushed-InOrder (c ∷ current) = alone (c ∷ current)

    -- After a flush the part is split further, or begins what is collected next.
    pack_rest :
        (p : Text) (ps ys zs : List Text)
        → InOrder G (ahead [] ps) ys
        → InOrder G (ahead p ps) zs
        → InOrder G (join sep (p ∷ ps)) (if ltb size (length p) then deeper p ++ ys else zs)
    pack_rest p ps ys zs hy hz = elim (Bool-cases (ltb size (length p))) [
      | inl long ↦ rw long (ahead_deeper p ps ys hy)
      | inr short ↦ rw short (ahead_part p ps zs hz)
    ]

    pack-InOrder :
        (current : Text) (parts : List Text)
        → InOrder G (ahead current parts) (pack deeper size sep current parts)
    unfolding pack ahead
    pack-InOrder current [] = flushed-InOrder current
    pack-InOrder [] (p ∷ ps) = elim (Bool-cases (leb (length p) size)) [
      | inl fits ↦ rw (fits, pack) (ahead_part p ps _ (pack-InOrder p ps))
      | inr over ↦
          rw (over, pack)
            (ahead-flushed [] p ps _ (pack_rest p ps _ _ (pack-InOrder [] ps) (pack-InOrder p ps)))
    ]
    pack-InOrder (c ∷ current) (p ∷ ps) =
        let candidate : Text = (c ∷ current) ++ (sep ++ p) in
        elim (Bool-cases (leb (length candidate) size)) [
          | inl fits ↦ rw (fits, pack) (ahead_joined c current p ps _ (pack-InOrder candidate ps))
          | inr over ↦
              rw (over, pack)
                (ahead-flushed (c ∷ current) p ps _
                  (pack_rest p ps _ _ (pack-InOrder [] ps) (pack-InOrder p ps)))
        ]

  -- The text that `split_from` starts on is what `pack` has ahead.
  ahead-split :
      (size : ℕ) (sep text : Text) (deeper : Text → List Text)
      → is_empty sep ≡ false
      → G sep
      → ((part : Text) → InOrder G part (deeper part))
      → InOrder G text (pack deeper size sep [] (split_from sep 0 [] text))
  ahead-split size sep text deeper named gap_sep deep =
      let parts = split_from sep 0 [] text in
      subst (λ t. InOrder G t (pack deeper size sep [] parts))
        (ahead_nil size sep deeper gap_sep deep parts (split_from-nonempty sep 0 [] text)
          ∙ join-split_from sep 0 [] text named)
        (pack-InOrder size sep deeper gap_sep deep [] parts)

  pub split_text-InOrder :
      (seps : List Text) (size : ℕ) (text : Text)
      → 0 < size
      → ((t : Text) → is_empty (strip t) ≡ true → G t)
      → All G seps
      → InOrder G text (split_text seps size text)
  unfolding split_text
  split_text-InOrder [] size text pos blank gs = elim (Bool-cases (leb (length text) size)) [
    | inl short ↦ elim (Bool-cases (is_empty (strip text))) [
      | inl e ↦ rw (short, e, split_text) (blank text e)
      | inr e ↦ rw (short, e, split_text) (alone text)
    ]
    | inr long ↦ rw (long, split_text) (slices-InOrder (length text) text size pos (omega arith))
  ]
  split_text-InOrder (sep ∷ seps) size text pos blank gs =
      elim (Bool-cases (leb (length text) size)) [
        | inl short ↦ elim (Bool-cases (is_empty (strip text))) [
          | inl e ↦ rw (short, e, split_text) (blank text e)
          | inr e ↦ rw (short, e, split_text) (alone text)
        ]
        | inr long ↦ elim (Bool-cases (is_empty sep)) [
          | inl e ↦
              rw (long, e, split_text) (slices-InOrder (length text) text size pos (omega arith))
          | inr e ↦
              rw (long, e, split_text)
                (ahead-split size sep text (split_text seps size) e gs.0
                  (λ part. split_text-InOrder seps size part pos blank gs.1))
        ]
      ]
