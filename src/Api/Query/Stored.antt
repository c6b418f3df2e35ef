-- ===== src/Api/Query/Stored.antt =====
-- What the agent's side of src/rag/api/routes/query.py stores and spends.
use ai_rag.Prelude.{◌≡◌, Text, false, ◌⊎◌}
use ai_rag.Prelude.Number.{Float}
use ai_rag.Prelude.Result.{Result, ok, raise}
use ai_rag.Schemas.Principal.{Principal}
use ai_rag.Schemas.Agent.{AgentAnswer}
use ai_rag.Agent.Runtime.Loop.{Progress, next, left, returned, crashed}
use ai_rag.Agent.Runtime.Honest.{IsVouched}
use ai_rag.Api.Query.{AppState, Served, by_agent, should_store, store_turn}

module _ {F W : Type 0} ⦃fl : Float F⦄ (state : AppState F W) (principal : Principal) where
  -- What the caller is shown of an outcome, and the world after it.
  abbrev pub served_of : Result (AgentAnswer F) → Result (Served F)
  served_of (ok a) = ok (by_agent a)
  served_of (raise e) = raise e

  abbrev pub after : (key : Text) → Result (AgentAnswer F) → W → W
  after key (ok a) w = store_turn state key a w
  after key (raise e) w = w

  -- An answer of the turn that the rounds ended with.
  abbrev pub VouchedBy : Progress F W → AgentAnswer F → Type 0
  VouchedBy (next turn w) a = IsVouched principal turn a
  VouchedBy (left stop turn w) a = IsVouched principal turn a
  VouchedBy (returned b w) a = ⊥
  VouchedBy (crashed e w) a = ⊥

  -- The outcome is not stored, or it is an answer that is vouched for.
  abbrev pub Storable : Progress F W → Result (AgentAnswer F) → Type 0
  Storable p (ok a) = (should_store state a ≡ false) ⊎ VouchedBy p a
  Storable p (raise e) = Unit
