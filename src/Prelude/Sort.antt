-- ===== src/Prelude/Sort.antt =====
-- `sorted(xs, key=…, reverse=True)`: a stable sort, the largest first. `lt x y` compares the keys.
use Prim.Native.Nat.{ℕ, zero, suc, ◌+◌}
use mathlib.Core.Path.{◌≡◌, refl, ap, ◌∙◌}
use mathlib.Core.Logic.{inl, inr, ∥∥₁_elim}
use mathlib.Core.Bool.{Bool, true, false, ◌||◌}
use mathlib.Core.List.{List, [], ◌∷◌, Perm, Permᴰ}
use mathlib.Core.List.Perm
use native.Mathlib.Omega.{arith}
use ai_rag.Prelude.Tests.{if◌then◌else◌, Bool-cases}
use ai_rag.Prelude.Lists.{length, All, All-map, All-take, take, any}

module _ {A : Type 0} (lt : A → A → Bool) where
  -- In front of the first element that is not larger: equal ones keep their order.
  unfoldable pub place : A → List A → List A
  place x [] = x ∷ []
  place x (y ∷ ys) = if lt x y then y ∷ place x ys else x ∷ y ∷ ys

  unfoldable pub sort_desc : List A → List A
  unfolding place
  sort_desc [] = []
  sort_desc (x ∷ xs) = place x (sort_desc xs)

  -- No element is smaller than one behind it.
  abbrev pub IsDescending : List A → Type 0
  IsDescending [] = Unit
  IsDescending (x ∷ xs) = All (λ y. lt x y ≡ false) xs × IsDescending xs

  pub All-place : (P : A → Type 0) (x : A) (ys : List A) → P x → All P ys → All P (place x ys)
  unfolding place
  All-place P x [] h all = (h, tt)
  All-place P x (y ∷ ys) h all = elim (Bool-cases (lt x y)) [
    | inl e ↦ rw e (all.0, All-place P x ys h all.1)
    | inr e ↦ rw e (h, all)
  ]

  pub All-sort_desc : (P : A → Type 0) (xs : List A) → All P xs → All P (sort_desc xs)
  unfolding sort_desc
  All-sort_desc P [] all = tt
  All-sort_desc P (x ∷ xs) all = All-place P x (sort_desc xs) all.0 (All-sort_desc P xs all.1)

  place-perm : (x : A) (ys : List A) → Perm (place x ys) (x ∷ ys)
  unfolding place
  place-perm x [] = Perm.refl (x ∷ [])
  place-perm x (y ∷ ys) = elim (Bool-cases (lt x y)) [
    | inl e ↦ rw e (Perm.trans (Perm.cons y (place-perm x ys)) (Perm.swap x y ys))
    | inr e ↦ rw e (Perm.refl _)
  ]

  pub sort_desc-perm : (xs : List A) → Perm (sort_desc xs) xs
  unfolding sort_desc
  sort_desc-perm [] = Perm.refl []
  sort_desc-perm (x ∷ xs) =
      Perm.trans (place-perm x (sort_desc xs)) (Perm.cons x (sort_desc-perm xs))

  pub length-place : (x : A) (ys : List A) → length (place x ys) ≡ length ys + 1
  unfolding place
  length-place x [] = omega arith
  length-place x (y ∷ ys) = ground (arith, length-place x ys)

  pub length-sort_desc : (xs : List A) → length (sort_desc xs) ≡ length xs
  unfolding sort_desc
  length-sort_desc [] = refl
  length-sort_desc (x ∷ xs) = omega (arith, length-place x (sort_desc xs), length-sort_desc xs)

  any-place : (p : A → Bool) (x : A) (ys : List A) → any p (place x ys) ≡ (p x || any p ys)
  unfolding place
  any-place p x [] = refl
  any-place p x (y ∷ ys) = ground (arith, any-place p x ys)

  -- Sorting loses and adds nothing.
  pub any-sort_desc : (p : A → Bool) (xs : List A) → any p (sort_desc xs) ≡ any p xs
  unfolding sort_desc
  any-sort_desc p [] = refl
  any-sort_desc p (x ∷ xs) = any-place p x (sort_desc xs) ∙ ap (◌||◌ (p x)) (any-sort_desc p xs)

  pub take-IsDescending : (n : ℕ) (xs : List A) → IsDescending xs → IsDescending (take n xs)
  take-IsDescending zero xs h = tt
  take-IsDescending (suc n) [] h = tt
  take-IsDescending (suc n) (x ∷ xs) h =
      (All-take (λ y. lt x y ≡ false) n xs h.0, take-IsDescending n xs h.1)

  module _ (asymm : (a b : A) → lt a b ≡ true → lt b a ≡ false)
      (ge_trans : (a b c : A) → lt a b ≡ false → lt b c ≡ false → lt a c ≡ false) where
    -- Where elements that compare equal are equal, the order of insertion leaves no trace.
    place_comm :
        ((a b : A) → lt a b ≡ false → lt b a ≡ false → a ≡ b)
        → (x y : A) (zs : List A) → place x (place y zs) ≡ place y (place x zs)
    unfolding place
    place_comm antisym x y [] = ground (arith, asymm x y, asymm y x, antisym x y)
    place_comm antisym x y (z ∷ zs) = ground (
      arith,
      place_comm antisym x y zs,
      asymm x y,
      asymm y x,
      antisym x y,
      asymm x z,
      asymm z x,
      asymm y z,
      asymm z y,
      ge_trans x y z,
      ge_trans y x z,
      ge_trans x z y,
      ge_trans y z x,
      ge_trans z x y,
      ge_trans z y x,
    )

    sort_desc-permᴰ :
        ((a b : A) → lt a b ≡ false → lt b a ≡ false → a ≡ b)
        → {xs ys : List A} → Permᴰ xs ys
        → sort_desc xs ≡ sort_desc ys
    unfolding sort_desc
    sort_desc-permᴰ antisym Permᴰ.nil = refl
    sort_desc-permᴰ antisym (Permᴰ.cons {a = x} {b = y} {l₁ = l} e p) =
        ap (λ z. place z (sort_desc l)) e ∙ ap (place y) (sort_desc-permᴰ antisym p)
    sort_desc-permᴰ antisym (Permᴰ.swap {a = x} {b = y} {a' = u} {l = l} e f) =
        place_comm antisym x y (sort_desc l)
        ∙ (ap (λ z. place z (place x (sort_desc l))) f
            ∙ ap (λ z. place u (place z (sort_desc l))) e)
    sort_desc-permᴰ antisym (Permᴰ.trans p q) =
        sort_desc-permᴰ antisym p ∙ sort_desc-permᴰ antisym q

    -- A list and its rearrangements are sorted to one list.
    pub sort_desc-perm_eq :
        IsSet (List A)
        → ((a b : A) → lt a b ≡ false → lt b a ≡ false → a ≡ b)
        → (xs ys : List A) → Perm xs ys
        → sort_desc xs ≡ sort_desc ys
    sort_desc-perm_eq set antisym xs ys p = ∥∥₁_elim p (set _ _) (sort_desc-permᴰ antisym)

    place-IsDescending : (x : A) (ys : List A) → IsDescending ys → IsDescending (place x ys)
    unfolding place
    place-IsDescending x [] d = (tt, tt)
    place-IsDescending x (y ∷ ys) d = elim (Bool-cases (lt x y)) [
      | inl e ↦
          rw e (All-place (λ z. lt y z ≡ false) x ys (asymm x y e) d.0, place-IsDescending x ys d.1)
      | inr e ↦ rw e (
        (e, All-map (λ z. lt y z ≡ false) (λ z. lt x z ≡ false) ys (λ z h. ge_trans x y z e h) d.0),
        d,
      )
    ]

    pub sort_desc-IsDescending : (xs : List A) → IsDescending (sort_desc xs)
    unfolding sort_desc
    sort_desc-IsDescending [] = tt
    sort_desc-IsDescending (x ∷ xs) =
        place-IsDescending x (sort_desc xs) (sort_desc-IsDescending xs)
