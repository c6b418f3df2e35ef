-- ===== src/Llm/Resilient.antt =====
-- src/rag/llm/resilient.py, src/rag/llm/resilient_chat.py and src/rag/llm/policy.py: retries, timeouts and
-- fallbacks. The two wrappers run the same loop: a call has a question of type `Q` and a reply of type `R`.
-- Sleeping, the random number, the executor's timeout and the wording of errors are arguments.
pub mod Fallback
use ai_rag.Prelude.{
  ◌≡◌, refl, ◌⊎◌, inl, inr, ℕ, zero, suc, ◌+◌, ◌-◌, ◌^◌, ◌==◌, Text, List, [], ◌∷◌, ◌++◌, map, Bool,
  true, false, not, Option, none, some, if◌then◌else◌, codes, join,
}
use ai_rag.Prelude.Number.{Float, min_float}
use ai_rag.Prelude.Result.{
  Raised, llm_error, timeout_error, value_error, key_error, exception, Result, ok, raise, Call,
}

pub record RetryPolicy (F : Type 0) : Type 0 where
  pub max_attempts : ℕ
  pub base_delay_seconds : F
  pub max_delay_seconds : F
  pub timeout_seconds : F
  pub jitter : Bool

pub record LlmClient (Q R W : Type 0) : Type 0 where
  pub model_name : Text
  pub call : Q → Call W R

-- What the wrappers use of the runtime system.
pub record Host (F R W : Type 0) : Type 0 where
  pub sleep : F → W → W
  -- `random.random()`
  pub random : W → F × W
  -- the call under a timeout, with `TimeoutError` where it takes longer
  pub with_timeout : F → Call W R → Call W R
  pub show_error : Raised → Text
  pub show_seconds : F → Text

pub record ResilientLlm (F Q R W : Type 0) : Type 0 where
  pub primary : LlmClient Q R W
  pub fallbacks : List (LlmClient Q R W)
  pub policy : RetryPolicy F

-- How the attempts on one model end: with a reply, or with the last error.
pub data Tried (R W : Type 0) : Type 0 where
  replied : R → W → Tried R W
  spent : (last_error : Text) → W → Tried R W

-- To split on how the attempts ended and keep the equation.
pub Tried-cases :
    {R W : Type 0} (t : Tried R W)
    → ((r : R) × (w : W) × (t ≡ replied r w)) ⊎ ((error : Text) × (w : W) × (t ≡ spent error w))
Tried-cases (replied r w) = inl (r, w, refl)
Tried-cases (spent error w) = inr (error, w, refl)

module _ {F : Type 0} ⦃fl : Float F⦄ where
  -- `delay_for`, with the random number that is drawn where there is jitter
  unfoldable pub delay_for : RetryPolicy F → (random : F) → (attempt : ℕ) → F
  delay_for self random zero = fl.of_nat 0
  delay_for self random (suc n) =
      let capped =
        min_float (fl.mul self.base_delay_seconds (fl.of_nat (2 ^ n))) self.max_delay_seconds in
      if not self.jitter
      then capped
      else fl.mul capped (fl.add (fl.div (fl.of_nat 1) (fl.of_nat 2)) (fl.div random (fl.of_nat 2)))

module _ {F Q R W : Type 0} ⦃fl : Float F⦄ (host : Host F R W) (self : ResilientLlm F Q R W) where
  abbrev pub chain : List (LlmClient Q R W)
  chain = self.primary ∷ self.fallbacks

  -- `LLMTimeoutError(model, timeout)`
  abbrev pub timed_out : LlmClient Q R W → Result R → Result R
  timed_out client (ok r) = ok r
  timed_out client (raise timeout_error) = raise (
      llm_error (
        client.model_name
        ++ (codes " timed out after "
            ++ (host.show_seconds self.policy.timeout_seconds ++ codes "s"))))
  timed_out client (raise (llm_error t)) = raise (llm_error t)
  timed_out client (raise (value_error t)) = raise (value_error t)
  timed_out client (raise (key_error t)) = raise (key_error t)
  timed_out client (raise (exception t)) = raise (exception t)

  -- `_attempt`
  unfoldable pub attempt_once : LlmClient Q R W → Q → Call W R
  attempt_once client question w =
      if fl.lt (fl.of_nat 0) self.policy.timeout_seconds
      then (let (outcome, w') =
            host.with_timeout self.policy.timeout_seconds (client.call question) w in
          (timed_out client outcome, w'))
      else client.call question w

  unfoldable pub back_off : (attempt : ℕ) → W → W
  back_off attempt w =
      let (r, w') = if self.policy.jitter then host.random w else (fl.of_nat 0, w) in
      host.sleep (delay_for self.policy r attempt) w'

  -- The attempts on one model, `left` of them from the number `attempt` on.
  unfoldable pub attempts :
      (left attempt : ℕ) → LlmClient Q R W → Q → (last_error : Text) → W → Tried R W
  attempts zero attempt client question last_error w = spent last_error w
  attempts (suc left) attempt client question last_error w =
      let (outcome, w') = attempt_once client question w in
      elim outcome [
        | ok reply ↦ replied reply w'
        | raise e ↦
            attempts left (attempt + 1) client question (host.show_error e)
              (if left == 0 then w' else back_off attempt w')
      ]

  unfoldable pub exhausted : (last_error : Text) → Raised
  exhausted last_error = llm_error (
      codes "all LLM models exhausted ("
      ++ (join (codes ", ") (map (λ (c : LlmClient Q R W). c.model_name) chain)
          ++ (codes "); last error: " ++ last_error)))

  unfoldable pub try_chain : List (LlmClient Q R W) → Q → (last_error : Text) → Call W R
  try_chain [] question last_error w = (raise (exhausted last_error), w)
  try_chain (client ∷ clients) question last_error w =
      elim (attempts self.policy.max_attempts 1 client question last_error w) [
        | replied reply w' ↦ (ok reply, w')
        | spent error w' ↦ try_chain clients question error w'
      ]

  -- `complete`, and `chat`
  unfoldable pub complete : Q → Call W R
  complete question w = try_chain chain question (codes "none") w
