-- ===== src/Llm/Resilient/Fallback.antt =====
-- What the retries and fallbacks of src/rag/llm/resilient.py and resilient_chat.py come to.
use mathlib.Core.Path.{ap, subst, ◌∙◌}
use ai_rag.Prelude.{
  ℕ, zero, suc, ◌+◌, ◌<◌, ◌≡◌, Text, List, [], ◌∷◌, false, arith, codes, Some, inl, inr, Bool-cases,
}
use ai_rag.Prelude.Number.{Float, IsAtMost}
use ai_rag.Prelude.Result.{Raised, ok, raise, Result-cases}
use ai_rag.Llm.Resilient.{
  RetryPolicy, LlmClient, Host, ResilientLlm, replied, Tried-cases, delay_for, chain, attempt_once,
  attempts, exhausted, try_chain, complete,
}

module _ {F : Type 0} ⦃fl : Float F⦄ where
  lt_irrefl : (a : F) → fl.lt a a ≡ false
  lt_irrefl a = elim (Bool-cases (fl.lt a a)) [ inl e ↦ fl.lt_asymm a a e | inr e ↦ e ]

  -- Without jitter, no delay before a retry is above the policy's maximum.
  pub delay_for-IsAtMost :
      (self : RetryPolicy F) (random : F) (n : ℕ)
      → self.jitter ≡ false
      → IsAtMost (delay_for self random (suc n)) self.max_delay_seconds
  unfolding delay_for
  delay_for-IsAtMost self random n plain = ground (arith, lt_irrefl self.max_delay_seconds)

module _ {F Q R W : Type 0} ⦃fl : Float F⦄ (host : Host F R W) (self : ResilientLlm F Q R W)
    (question : Q) where
  -- The reply is that of an attempt on the client.
  unfoldable pub Gave : R → LlmClient Q R W → Type 0
  Gave r client = (w : W) × ((attempt_once host self client question w).0 ≡ ok r)

  attempts-Gave :
      (client : LlmClient Q R W) (left n : ℕ) (error : Text) (w w' : W) (r : R)
      → attempts host self left n client question error w ≡ replied r w'
      → Gave r client
  unfolding attempts Gave
  attempts-Gave client zero n error w w' r h = absurd (ground arith)
  attempts-Gave client (suc left) n error w w' r h =
      elim (Result-cases (attempt_once host self client question w).0) [
        | inl (s, e) ↦ let same : s ≡ r = ground arith in (w, e ∙ ap ok same)
        | inr (raised, e) ↦ attempts-Gave client left (n + 1) _ _ w' r (rw (e, attempts) at h)
      ]

  -- A reply that a chain gives is that of an attempt on one of its clients.
  try_chain-Gave :
      (clients : List (LlmClient Q R W)) (error : Text) (w : W) (r : R)
      → (try_chain host self clients question error w).0 ≡ ok r
      → Some (Gave r) clients
  unfolding try_chain
  try_chain-Gave [] error w r h = absurd (ground arith)
  try_chain-Gave (c ∷ cs) error w r h =
      elim (Tried-cases (attempts host self self.policy.max_attempts 1 c question error w)) [
        | inl (s, w', e) ↦
            let same : s ≡ r = ground arith in
            inl (
              subst (λ x. Gave x c) same
                (attempts-Gave c self.policy.max_attempts 1 error w w' s e))
        | inr (error', w', e) ↦ inr (try_chain-Gave cs error' w' r (rw (e, try_chain) at h))
      ]

  -- An exception that a chain raises says that every model was tried.
  try_chain-exhausted :
      (clients : List (LlmClient Q R W)) (error : Text) (w : W) (x : Raised)
      → (try_chain host self clients question error w).0 ≡ raise x
      → (last : Text) × (x ≡ exhausted host self last)
  unfolding try_chain
  try_chain-exhausted [] error w x h = (error, ground arith)
  try_chain-exhausted (c ∷ cs) error w x h =
      elim (Tried-cases (attempts host self self.policy.max_attempts 1 c question error w)) [
        | inl (s, w', e) ↦ absurd (ground arith)
        | inr (error', w', e) ↦ try_chain-exhausted cs error' w' x (rw (e, try_chain) at h)
      ]

  -- What `complete` returns or raises: a reply is that of an attempt on the primary or a fallback model; the only
  -- exception is the `LLMUnavailableError` that names the whole chain, an `LLMError`, whatever the clients raise.
  pub complete-Gave :
      (w : W)
      → ((r : R) → (complete host self question w).0 ≡ ok r → Some (Gave r) (chain host self))
        × ((x : Raised)
            → (complete host self question w).0 ≡ raise x
            → (last : Text) × (x ≡ exhausted host self last))
  unfolding complete
  complete-Gave w = (
    λ r h. try_chain-Gave (chain host self) (codes "none") w r h,
    λ x h. try_chain-exhausted (chain host self) (codes "none") w x h,
  )

  -- The client replies in every world.
  unfoldable pub Replies : LlmClient Q R W → Type 0
  Replies client = (w : W) → (r : R) × ((attempt_once host self client question w).0 ≡ ok r)

  attempts-Replies :
      (client : LlmClient Q R W) (left n : ℕ) (error : Text) (w : W)
      → 0 < left
      → Replies client
      → (r : R) × (w' : W) × (attempts host self left n client question error w ≡ replied r w')
  unfolding attempts Replies
  attempts-Replies client zero n error w some_try h = absurd (omega arith)
  attempts-Replies client (suc left) n error w some_try h =
      let (r, e) = h w in (r, (attempt_once host self client question w).1, rw (e, attempts))

  try_chain-Replies :
      (clients : List (LlmClient Q R W)) (error : Text) (w : W)
      → 0 < self.policy.max_attempts
      → Some Replies clients
      → (r : R) × ((try_chain host self clients question error w).0 ≡ ok r)
  unfolding try_chain
  try_chain-Replies (c ∷ cs) error w some_try h =
      elim (Tried-cases (attempts host self self.policy.max_attempts 1 c question error w)) [
        | inl (s, w', e) ↦ (s, rw (e, try_chain))
        | inr (error', w', e) ↦ elim h [
          | inl here ↦
              let (r, w'', k) =
                attempts-Replies c self.policy.max_attempts 1 error w some_try here in
              (r, rw (k, try_chain))
          | inr later ↦
              let (r, k) = try_chain-Replies cs error' w' some_try later in (r, rw (e, try_chain) k)
        ]
      ]
  try_chain-Replies [] error w some_try h = absurd h

  -- If one of the models, the primary or a fallback, always replies to the question, and each model is
  -- tried at least once, `complete` returns a reply, whatever the others do.
  pub complete-Replies :
      (w : W)
      → 0 < self.policy.max_attempts
      → Some Replies (chain host self)
      → (r : R) × ((complete host self question w).0 ≡ ok r)
  unfolding complete
  complete-Replies w some_try h = try_chain-Replies (chain host self) (codes "none") w some_try h
