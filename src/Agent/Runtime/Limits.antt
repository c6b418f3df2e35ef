-- ===== src/Agent/Runtime/Limits.antt =====
-- The limits of a turn of src/rag/agent/runtime.py.
mod Rounds
use ai_rag.Prelude.{
  ℕ, zero, suc, or_else, ◌+◌, ◌-◌, ◌≤◌, ◌<◌, ◌≡◌, refl, Text, List, codes, Option, none, some,
  arith, length-take-le, inl, inr, Bool-cases, Option-cases, is_empty, strip,
}
use ai_rag.Prelude.Number.{Float}
use ai_rag.Prelude.Result.{Result-cases, Result, ok, raise}
use ai_rag.Schemas.Answer.{Source, Usage, blank_usage, Answer}
use ai_rag.Schemas.Agent.{Budget, clamp, StopReason, AgentAnswer}
use ai_rag.Schemas.Chat.{ChatCompletion}
use ai_rag.Schemas.Principal.{Principal}
use ai_rag.Agent.Budget.{
  charge_step, charge_tool_calls, charge_critique, charge_usage, terminal_stop,
  remaining_tool_calls, can_critique, start_tracker,
}
use ai_rag.Agent.Evidence.{sources}
use ai_rag.Agent.Runtime.State.{AgentRuntime, Turn, Request}
use ai_rag.Agent.Runtime.Answering.{
  build_answer, fallback_or_refuse, refuse_turn, adopt_fallback, finalize, is_publishable, publish,
}
use ai_rag.Agent.Runtime.Loop.{
  Progress, next, left, returned, crashed, act_step, after_verdict, corrected, judged, escape,
  critique_step, drafted, asked_again, unjudged, draft_step, planned, planner_failed, plan_step,
  round, rounds, conclude, run, first_turn, effective_budget, request,
}
pub use Rounds.*

module _ {F W : Type 0} ⦃fl : Float F⦄ (self : AgentRuntime F W) (req : Request F)
    (b : Budget F) where
  -- How a loop within the budget ends.
  abbrev pub Ends : Progress F W → Type 0
  Ends (next turn w) = ⊥
  Ends (left stop turn w) = InBudget b turn
  Ends (returned answer w) = Kept b answer
  Ends (crashed e w) = Unit

  -- The loop with this fuel ends.
  Stops : (fuel : ℕ) → Turn F → W → Type 0
  Stops fuel turn w = (p : Progress F W) × (rounds self req fuel turn w ≡ some p) × Ends p

  rounds_step :
      (fuel : ℕ) (turn : Turn F) (w : W) (p : Progress F W)
      → round self req turn w ≡ p
      → Bounded b (turn.tracker.steps + 1) p
      → b.max_steps < turn.tracker.steps + suc fuel
      → ((turn' : Turn F) (w' : W)
          → InBudget b turn'
          → b.max_steps < turn'.tracker.steps + fuel
          → Stops fuel turn' w')
      → Stops (suc fuel) turn w
  unfolding rounds Stops
  rounds_step fuel turn w (next turn' w') e (k, n) h ih =
      rw (e, rounds) (ih turn' w' k (omega (arith, n)))
  rounds_step fuel turn w (left stop turn' w') e k h ih =
      rw (e, rounds) (left stop turn' w', refl, k)
  rounds_step fuel turn w (returned a w') e k h ih = rw (e, rounds) (returned a w', refl, k)
  rounds_step fuel turn w (crashed r w') e k h ih = rw (e, rounds) (crashed r w', refl, tt)

  -- With more fuel than steps are left the loop ends, whatever the planner, the tools and the critic do.
  rounds-Ends :
      (fuel : ℕ) (turn : Turn F) (w : W)
      → InBudget b turn
      → b.max_steps < turn.tracker.steps + fuel
      → Stops fuel turn w
  unfolding Stops
  rounds-Ends zero turn w k h = absurd (omega (arith, k.steps))
  rounds-Ends (suc fuel) turn w k h =
      rounds_step fuel turn w (round self req turn w) refl (round-Bounded self req b turn w k) h
        (rounds-Ends fuel)

-- What the outcome of `run` has spent, where it is an answer.
abbrev pub AnswerKept : {F : Type 0} → Budget F → Result (AgentAnswer F) → Type 0
AnswerKept b (ok answer) = Kept b answer
AnswerKept b (raise e) = Unit

module _ {F W : Type 0} ⦃fl : Float F⦄ (self : AgentRuntime F W) where
  conclude-AnswerKept :
      (req : Request F) (b : Budget F) (p : Progress F W)
      → Ends self req b p
      → AnswerKept b (conclude self req p).0
  unfolding conclude
  conclude-AnswerKept req b (next turn w) k = absurd k
  conclude-AnswerKept req b (left stop turn w) k = finalize-Kept self req b turn k stop w
  conclude-AnswerKept req b (returned a w) k = k
  conclude-AnswerKept req b (crashed e w) k = tt

  first_turn-InBudget :
      (question : Text) (b : Budget F) (w : W) → InBudget b (first_turn self question b w)
  unfolding first_turn start_tracker
  first_turn-InBudget question b w = record {
    same = refl;
    steps = omega arith;
    tool_calls = omega arith;
    critique_rounds = omega arith;
    self_corrections = omega arith;
  }

  pub clamp-Kept :
      (b ceiling : Budget F) (r : Result (AgentAnswer F))
      → AnswerKept (clamp b ceiling) r
      → AnswerKept b r × AnswerKept ceiling r
  unfolding clamp
  clamp-Kept b ceiling (raise e) k = (tt, tt)
  clamp-Kept b ceiling (ok a) k = ground arith

  pub run-AnswerKept :
      (question : Text) (principal : Principal) (budget : Option (Budget F)) (trace_id : Text)
      (w : W)
      → (r : Result (AgentAnswer F)) × (w' : W) × (run self question principal budget trace_id w
          ≡ some (r, w'))
        × AnswerKept (or_else budget self.budget) r
        × AnswerKept self.budget r
  unfolding run effective_budget Stops
  run-AnswerKept question principal budget trace_id w =
      let req : Request F = request self question principal trace_id w in
      let b : Budget F = effective_budget self budget in
      let first : Turn F = first_turn self question b w in
      let (p, e, ends) =
        rounds-Ends self req b (b.max_steps + 1) first w (first_turn-InBudget question b w)
          (omega arith) in
      let r = conclude self req p in
      let (asked, own) =
        clamp-Kept (or_else budget self.budget) self.budget r.0
          (conclude-AnswerKept req b p ends) in
      (r.0, r.1, rw (e, run) refl, asked, own)
