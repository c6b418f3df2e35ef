-- ===== src/Prelude/Dict.antt =====
-- Python's `dict` with text keys: an association list in insertion order.
use ai_rag.Prelude.Tests.{if◌then◌else◌, Bool-cases}
use ai_rag.Prelude.Lists.{length, All, All-map}
use ai_rag.Prelude.Texts.{Text, text_eq, text_eq_iff, text_eq_refl}
use Prim.Native.Nat.{◌+◌}
use mathlib.Core.Path.{◌≡◌, refl, subst₂}
use mathlib.Core.Logic.{inl, inr}
use mathlib.Core.Bool.{Bool, true, false}
use mathlib.Core.Option.{Option, none, some}
use mathlib.Core.List.{List, [], ◌∷◌, map}
use native.Mathlib.Omega.{arith}

abbrev pub Dict {ℓ} : Type ℓ → Type ℓ
Dict V = List (Text × V)

module _ {ℓ} {V : Type ℓ} where
  -- `d.get(k)`
  unfoldable pub lookup : Text → Dict V → Option V
  lookup k [] = none
  lookup k ((j, v) ∷ d) = if text_eq j k then some v else lookup k d

  -- `d[k] = v`: in place if the key is there, else at the end
  unfoldable pub insert : Text → V → Dict V → Dict V
  insert k v [] = (k, v) ∷ []
  insert k v ((j, w) ∷ d) = if text_eq j k then (j, v) ∷ d else (j, w) ∷ insert k v d

  -- `d.pop(k, None)`
  unfoldable pub remove : Text → Dict V → Dict V
  remove k [] = []
  remove k ((j, v) ∷ d) = if text_eq j k then remove k d else (j, v) ∷ remove k d

  abbrev pub keys : Dict V → List Text
  keys = map (λ e. e.0)

  abbrev pub values : Dict V → List V
  values = map (λ e. e.1)

  -- `k in d`
  abbrev pub has : Text → Dict V → Bool
  has k d = elim (lookup k d) [ none ↦ false | some _ ↦ true ]

  pub lookup-insert :
      (k j : Text) (v : V) (d : Dict V)
      → lookup j (insert k v d) ≡ (if text_eq k j then some v else lookup j d)
  unfolding lookup insert
  lookup-insert k j v [] = refl
  lookup-insert k j v ((i, w) ∷ d) =
      ground (arith, lookup-insert k j v d, text_eq_iff i k, text_eq_iff i j, text_eq_iff k j)

  pub lookup-remove :
      (k j : Text) (d : Dict V) → lookup j (remove k d) ≡ (if text_eq k j then none else lookup j d)
  unfolding lookup remove
  lookup-remove k j [] = ground arith
  lookup-remove k j ((i, w) ∷ d) =
      ground (arith, lookup-remove k j d, text_eq_iff i k, text_eq_iff i j, text_eq_iff k j)

  pub length-insert :
      (k : Text) (v : V) (d : Dict V)
      → length (insert k v d) ≡ (if has k d then length d else length d + 1)
  unfolding lookup insert
  length-insert k v [] = refl
  length-insert k v ((j, w) ∷ d) = ground (arith, length-insert k v d)

  -- An invariant of the values survives a write of a value that has it.
  pub All-insert :
      (P : Text → V → Type 0) (k : Text) (v : V) (d : Dict V)
      → ((j : Text) → j ≡ k → P j v)
      → All (λ e. P e.0 e.1) d
      → All (λ e. P e.0 e.1) (insert k v d)
  unfolding insert
  All-insert P k v [] h all = (h k refl, tt)
  All-insert P k v ((j, w) ∷ d) h all = elim (Bool-cases (text_eq j k)) [
    | inl e ↦ rw e (h j ((text_eq_iff j k).0 e), all.1)
    | inr e ↦ rw e (all.0, All-insert P k v d h all.1)
  ]

  pub All-lookup :
      (P : Text → V → Type 0) (k : Text) (v : V) (d : Dict V)
      → All (λ e. P e.0 e.1) d
      → lookup k d ≡ some v
      → P k v
  unfolding lookup
  All-lookup P k v [] all h = absurd (ground arith)
  All-lookup P k v ((j, w) ∷ d) all h = elim (Bool-cases (text_eq j k)) [
    | inl e ↦
        let same : j ≡ k = (text_eq_iff j k).0 e in
        let found : w ≡ v = ground arith in subst₂ P same found all.0
    | inr e ↦ All-lookup P k v d all.1 (ground arith)
  ]

  pub All-remove :
      (P : Text → V → Type 0) (k : Text) (d : Dict V)
      → All (λ e. P e.0 e.1) d
      → All (λ e. P e.0 e.1) (remove k d)
  unfolding remove
  All-remove P k [] all = tt
  All-remove P k ((j, w) ∷ d) all = elim (Bool-cases (text_eq j k)) [
    | inl e ↦ rw e (All-remove P k d all.1)
    | inr e ↦ rw e (all.0, All-remove P k d all.1)
  ]

  -- No key stands twice, which holds of every Python `dict`.
  abbrev pub Distinct : Dict V → Type ℓ
  Distinct [] = Unit
  Distinct ((k, v) ∷ d) = (lookup k d ≡ none) × Distinct d

  pub insert-Distinct : (k : Text) (v : V) (d : Dict V) → Distinct d → Distinct (insert k v d)
  unfolding insert lookup
  insert-Distinct k v [] h = (refl, tt)
  insert-Distinct k v ((j, w) ∷ d) h = elim (Bool-cases (text_eq j k)) [
    | inl e ↦ rw e h
    | inr e ↦ rw e (
      ground (arith, lookup-insert k j v d, text_eq_iff j k, text_eq_iff k j),
      insert-Distinct k v d h.1,
    )
  ]

-- Where no key stands twice, each entry is what its key finds.
pub found_of_Distinct :
    {V : Type 0} (d : Dict V) → Distinct d → All (λ e. lookup e.0 d ≡ some e.1) d
unfolding lookup
found_of_Distinct [] h = tt
found_of_Distinct ((k, v) ∷ d) h = (
  rw (text_eq_refl k) refl,
  All-map (λ e. lookup e.0 d ≡ some e.1) (λ e. lookup e.0 ((k, v) ∷ d) ≡ some e.1) d
      (λ e found. elim (Bool-cases (text_eq k e.0)) [
        | inl c ↦
            let same : k ≡ e.0 = (text_eq_iff k e.0).0 c in
            absurd (ground (arith, h.0, same, found))
        | inr c ↦ rw (lookup, c) found
      ])
      (found_of_Distinct d h.1),
)
