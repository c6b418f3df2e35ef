-- ===== src/Prelude/Result.antt =====
-- Exceptions, and calls that may raise and that change a world they share.
use native.Mathlib.Omega.{arith}
use ai_rag.Prelude.Texts.{Text}
use mathlib.Core.Path.{◌≡◌, refl}
use mathlib.Core.Logic.{◌⊎◌, inl, inr}

pub data Raised : Type 0 where
  -- `LLMError` and its subclasses
  llm_error : Text → Raised
  -- `TimeoutError`
  timeout_error : Raised
  value_error : Text → Raised
  key_error : Text → Raised
  -- any other `Exception`
  exception : Text → Raised

pub data Result {ℓ} (A : Type ℓ) : Type ℓ where
  ok : A → Result A
  raise : Raised → Result A

-- A call that reads and changes a world `W`, and returns or raises.
abbrev pub Call : Type 0 → Type 0 → Type 0
Call W A = W → Result A × W

infixl 5 ◌>>=◌
abbrev pub ◌>>=◌ {ℓ κ} : {A : Type ℓ} {B : Type κ} → Result A → (A → Result B) → Result B
ok a >>= f = f a
raise e >>= f = raise e

unfoldable pub then_of : {W A B : Type 0} → Result A → W → (A → Call W B) → Result B × W
then_of (ok a) w next = next a w
then_of (raise e) w next = (raise e, w)

-- A call whose outcome is `out`, and then the next one.
unfoldable pub and_then : {W A B : Type 0} → (out : Result A × W) → (A → Call W B) → Result B × W
unfolding then_of
and_then out next = then_of out.0 out.1 next

-- What holds of the world after the first call and is kept by the next holds at the end.
pub and_then_keeps :
    {W A B : Type 0} (P : W → Type 0) (out : Result A × W) (next : A → Call W B)
    → P out.1
    → ((a : A) (w : W) → P w → P (next a w).1)
    → P (and_then out next).1
unfolding and_then then_of
and_then_keeps P (ok a, w) next h k = k a w h
and_then_keeps P (raise e, w) next h k = h

-- How two calls in a row end: the first raised, or the next one said.
pub and_then_cases :
    {W A B : Type 0} (P : Result B × W → Type 0) (out : Result A × W) (next : A → Call W B)
    → ((e : Raised) → out.0 ≡ raise e → P (raise e, out.1))
    → ((a : A) → out.0 ≡ ok a → P (next a out.1))
    → P (and_then out next)
unfolding and_then then_of
and_then_cases P (ok a, w) next h k = k a refl
and_then_cases P (raise e, w) next h k = h e refl

-- The same with the world that the first call left.
pub and_then_ends :
    {W A B : Type 0} (P : Result B × W → Type 0) (out : Result A × W) (next : A → Call W B)
    → ((e : Raised) (w : W) → out ≡ (raise e, w) → P (raise e, w))
    → ((a : A) (w : W) → out ≡ (ok a, w) → P (next a w))
    → P (and_then out next)
unfolding and_then then_of
and_then_ends P (ok a, w) next h k = k a w refl
and_then_ends P (raise e, w) next h k = h e w refl

-- To split on the outcome of a call and keep the equation.
pub Result-cases :
    {A : Type 0} (r : Result A) → ((a : A) × (r ≡ ok a)) ⊎ ((e : Raised) × (r ≡ raise e))
Result-cases (ok a) = inl (a, refl)
Result-cases (raise e) = inr (e, refl)

-- A chain of calls that returned: the first returned, and then the rest.
pub bind_ok :
    {A B : Type 0} (r : Result A) (f : A → Result B) (b : B)
    → (r >>= f) ≡ ok b
    → (a : A) × (r ≡ ok a) × (f a ≡ ok b)
bind_ok (ok a) f b h = (a, refl, h)
bind_ok (raise e) f b h = absurd (ground arith)
