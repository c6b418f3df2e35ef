-- ===== src/Prelude/Number.antt =====
-- Floating-point numbers: scores, costs and seconds. The type and its operations are a parameter,
-- with the laws of the order that hold of IEEE doubles other than NaN. Nothing is assumed of the
-- arithmetic.
use Prim.Native.Nat.{ℕ, ◌+◌, ◌*◌, ◌-◌, ◌/◌}
use mathlib.Core.Path.{◌≡◌}
use mathlib.Core.Bool.{Bool, true, false}
use native.Mathlib.Omega.{arith}
use ai_rag.Prelude.Tests.{ltb, if◌then◌else◌}

pub record Float (F : Type 0) : Type 0 where
  pub lt : F → F → Bool
  pub add : F → F → F
  pub sub : F → F → F
  pub mul : F → F → F
  pub div : F → F → F
  pub of_nat : ℕ → F
  pub lt_asymm : (a b : F) → lt a b ≡ true → lt b a ≡ false
  pub ge_trans : (a b c : F) → lt a b ≡ false → lt b c ≡ false → lt a c ≡ false

module _ {F : Type 0} ⦃fl : Float F⦄ where
  -- `min(a, b)`: the first of the two unless the second is smaller
  abbrev pub min_float : F → F → F
  min_float a b = if fl.lt b a then b else a

  abbrev pub max_float : F → F → F
  max_float a b = if fl.lt a b then b else a

-- A float at most another, as the programs test it.
abbrev pub IsAtMost : {F : Type 0} ⦃fl : Float F⦄ → F → F → Type 0
IsAtMost ⦃fl⦄ a b = fl.lt b a ≡ false

pub nat_asymm : (a b : ℕ) → ltb a b ≡ true → ltb b a ≡ false
nat_asymm a b h = ground arith

pub nat_ge_trans : (a b c : ℕ) → ltb a b ≡ false → ltb b c ≡ false → ltb a c ≡ false
nat_ge_trans a b c h k = ground arith

-- Whole numbers meet the laws: what the examples compute with.
instance abbrev pub whole : Float ℕ
whole = record {
  lt = ltb;
  add = ◌+◌;
  sub = ◌-◌;
  mul = ◌*◌;
  div = ◌/◌;
  of_nat = λ n. n;
  lt_asymm = nat_asymm;
  ge_trans = nat_ge_trans;
}
