-- ===== src/Prelude/Lists.antt =====
-- Lists measured by native numbers, under the library's names, and a predicate on every element.
use Prim.Native.Nat.{ℕ, zero, suc, ◌+◌, ◌≤◌}
use mathlib.Core.Path.{◌≡◌, refl, sym, subst}
use mathlib.Core.Logic.{◌⊎◌, inl, inr}
use mathlib.Core.Bool.{Bool, true, false, ◌||◌, ◌&&◌}
use mathlib.Core.List.{List, [], ◌∷◌, ◌++◌}
use native.Mathlib.Omega.{arith}
use ai_rag.Prelude.Tests.{if◌then◌else◌, Bool-cases}

module _ {ℓ} {A : Type ℓ} where
  abbrev pub length : List A → ℕ
  length [] = 0
  length (x ∷ xs) = suc (length xs)

  abbrev pub take : ℕ → List A → List A
  take zero xs = []
  take (suc n) [] = []
  take (suc n) (x ∷ xs) = x ∷ take n xs

  abbrev pub drop : ℕ → List A → List A
  drop zero xs = xs
  drop (suc n) [] = []
  drop (suc n) (x ∷ xs) = drop n xs

  -- `not xs`
  abbrev pub is_empty : List A → Bool
  is_empty [] = true
  is_empty (x ∷ xs) = false

  -- `[x for x in xs if p(x)]`
  abbrev pub keep : (A → Bool) → List A → List A
  keep p [] = []
  keep p (x ∷ xs) = if p x then x ∷ keep p xs else keep p xs

  -- `any(p(x) for x in xs)`
  abbrev pub any : (A → Bool) → List A → Bool
  any p [] = false
  any p (x ∷ xs) = p x || any p xs

  abbrev pub all : (A → Bool) → List A → Bool
  all p [] = true
  all p (x ∷ xs) = p x && all p xs

module _ {ℓ} {A : Type ℓ} where
  abbrev pub All {κ} : (A → Type κ) → List A → Type κ
  All P [] = Unit
  All P (x ∷ xs) = P x × All P xs

  -- Some element of the list satisfies the predicate; the proof says which.
  abbrev pub Some : (A → Type 0) → List A → Type 0
  Some P [] = ⊥
  Some P (x ∷ xs) = P x ⊎ Some P xs

-- `x in xs`
abbrev pub In : {A : Type 0} → A → List A → Type 0
In x = Some (λ y. y ≡ x)

module _ {ℓ} {A : Type ℓ} where
  pub length-append : (xs ys : List A) → length (xs ++ ys) ≡ length xs + length ys
  length-append [] ys = omega arith
  length-append (x ∷ xs) ys = omega (arith, length-append xs ys)

  pub length-take-le : (n : ℕ) (xs : List A) → length (take n xs) ≤ n
  length-take-le zero xs = omega arith
  length-take-le (suc n) [] = omega arith
  length-take-le (suc n) (x ∷ xs) = omega (arith, length-take-le n xs)

  pub All-append : (P : A → Type 0) (xs ys : List A) → All P xs → All P ys → All P (xs ++ ys)
  All-append P [] ys h k = k
  All-append P (x ∷ xs) ys h k = (h.0, All-append P xs ys h.1 k)

  pub All-take : (P : A → Type 0) (n : ℕ) (xs : List A) → All P xs → All P (take n xs)
  All-take P zero xs h = tt
  All-take P (suc n) [] h = tt
  All-take P (suc n) (x ∷ xs) h = (h.0, All-take P n xs h.1)

  -- What `keep` keeps passes its test, and whatever held of all still does.
  pub All-keep :
      (P : A → Type 0) (p : A → Bool) (xs : List A)
      → All P xs
      → All (λ x. P x × (p x ≡ true)) (keep p xs)
  All-keep P p [] h = tt
  All-keep P p (x ∷ xs) h = elim (Bool-cases (p x)) [
    | inl e ↦ rw e ((h.0, e), All-keep P p xs h.1)
    | inr e ↦ rw e (All-keep P p xs h.1)
  ]

  pub All-map : (P Q : A → Type 0) (xs : List A) → ((x : A) → P x → Q x) → All P xs → All Q xs
  All-map P Q [] f h = tt
  All-map P Q (x ∷ xs) f h = (f x h.0, All-map P Q xs f h.1)

  pub All_any : (P : A → Type 0) (xs : List A) → ((x : A) → P x) → All P xs
  All_any P [] f = tt
  All_any P (x ∷ xs) f = (f x, All_any P xs f)

module _ {A : Type 0} where
  pub In-append_left : (x : A) (xs ys : List A) → In x xs → In x (xs ++ ys)
  In-append_left x [] ys h = absurd h
  In-append_left x (y ∷ xs) ys (inl h) = inl h
  In-append_left x (y ∷ xs) ys (inr h) = inr (In-append_left x xs ys h)

  pub In-append_right : (x : A) (xs ys : List A) → In x ys → In x (xs ++ ys)
  In-append_right x [] ys h = h
  In-append_right x (y ∷ xs) ys h = inr (In-append_right x xs ys h)

  pub In-take : (x : A) (n : ℕ) (xs : List A) → In x (take n xs) → In x xs
  In-take x zero xs h = absurd h
  In-take x (suc n) [] h = absurd h
  In-take x (suc n) (y ∷ xs) (inl h) = inl h
  In-take x (suc n) (y ∷ xs) (inr h) = inr (In-take x n xs h)

  In-cons_kept :
      (p : A → Bool) (x y : A) (xs ys : List A)
      → p y ≡ true
      → (In x xs → In x ys × (p x ≡ true))
      → In x (y ∷ xs)
      → In x (y ∷ ys) × (p x ≡ true)
  In-cons_kept p x y xs ys e rest (inl same) = (inl same, subst (λ z. p z ≡ true) same e)
  In-cons_kept p x y xs ys e rest (inr later) = let (a, b) = rest later in (inr a, b)

  pub In-keep : (p : A → Bool) (x : A) (xs : List A) → In x (keep p xs) → In x xs × (p x ≡ true)
  In-keep p x [] h = absurd h
  In-keep p x (y ∷ xs) h = elim (Bool-cases (p y)) [
    | inl e ↦ In-cons_kept p x y (keep p xs) xs e (In-keep p x xs) (rw e at h)
    | inr e ↦ let (a, b) = In-keep p x xs (rw e at h) in (inr a, b)
  ]

  -- An element that passes the test is kept.
  pub In-keep_of : (p : A → Bool) (x : A) (xs : List A) → In x xs → p x ≡ true → In x (keep p xs)
  In-keep_of p x [] h e = absurd h
  In-keep_of p x (y ∷ xs) (inl same) e =
      let here : p y ≡ true = subst (λ z. p z ≡ true) (sym same) e in rw here (inl same)
  In-keep_of p x (y ∷ xs) (inr later) e = elim (Bool-cases (p y)) [
    | inl c ↦ rw c (inr (In-keep_of p x xs later e))
    | inr c ↦ rw c (In-keep_of p x xs later e)
  ]

  -- What holds of all holds of each.
  pub All-In : (P : A → Type 0) (x : A) (xs : List A) → All P xs → In x xs → P x
  All-In P x (y ∷ xs) h (inl e) = subst P e h.0
  All-In P x (y ∷ xs) h (inr k) = All-In P x xs h.1 k
  All-In P x [] h k = absurd k

  pub All_of_In : (P : A → Type 0) (xs : List A) → ((x : A) → In x xs → P x) → All P xs
  All_of_In P [] f = tt
  All_of_In P (x ∷ xs) f = (f x (inl refl), All_of_In P xs (λ y k. f y (inr k)))
