-- ===== src/Agent/Runtime/Loop.antt =====
-- `run` of src/rag/agent/runtime.py: the loop, from its start to its answer.
mod Branches
use ai_rag.Prelude.{
  ℕ, zero, suc, ◌+◌, ◌==◌, Text, List, [], ◌∷◌, ◌++◌, map, not, ◌&&◌, Option, none, some,
  if◌then◌else◌, is_empty, codes, strip, or_else, length, take, join,
}
use ai_rag.Prelude.Number.{Float}
use ai_rag.Prelude.Result.{
  Raised, timeout_error, llm_error, value_error, key_error, exception, Result, ok, raise,
}
use ai_rag.Schemas.Principal.{Principal}
use ai_rag.Schemas.Answer.{Usage, add_usage, blank_usage}
use ai_rag.Schemas.Agent.{
  Budget, clamp, StopReason, budget_exhausted, critic_exhausted, critic_grounded, ToolCall,
  ToolResult, plan, act, critique, Verdict, AgentAnswer,
}
use ai_rag.Schemas.Chat.{Role, Message, ChatCompletion}
use ai_rag.Agent.Budget.{
  BudgetTracker, start_tracker, charge_step, charge_tool_calls, charge_critique, charge_usage,
  terminal_stop, remaining_tool_calls, can_critique,
}
use ai_rag.Agent.Evidence.{EvidenceLedger, add, sources, render}
use ai_rag.Agent.Critic.{evaluate}
use ai_rag.Agent.Tools.Registry.{specs, execute}
use ai_rag.Agent.Runtime.State.{AgentRuntime, Turn, Request}
use ai_rag.Agent.Runtime.Answering.{authorised_sources, fallback_or_refuse, finalize}
unfoldable pub use Branches.*

module _ {F W : Type 0} ⦃fl : Float F⦄ (self : AgentRuntime F W) (req : Request F) where
  -- One round of `while True`.
  unfoldable pub round : Turn F → W → Progress F W
  round turn w = elim (terminal_stop (self.perf_counter w) turn.tracker) [
    | some stop ↦ left stop turn w
    | none ↦ plan_step self req turn w
  ]

  -- The loop; none where the fuel ran out.
  unfoldable pub rounds : (fuel : ℕ) → Turn F → W → Option (Progress F W)
  rounds zero turn w = none
  rounds (suc fuel) turn w = elim (round turn w) [
    | next turn' w' ↦ rounds fuel turn' w'
    | left stop turn' w' ↦ some (left stop turn' w')
    | returned answer w' ↦ some (returned answer w')
    | crashed e w' ↦ some (crashed e w')
  ]

  -- What `run` makes of the way in which the loop ended.
  unfoldable pub conclude : Progress F W → Result (AgentAnswer F) × W
  conclude (next turn w) = let (a, w') = finalize self req StopReason.answered turn w in (ok a, w')
  conclude (left stop turn w) = let (a, w') = finalize self req stop turn w in (ok a, w')
  conclude (returned answer w) = (ok answer, w)
  conclude (crashed e w) = (raise e, w)

module _ {F W : Type 0} ⦃fl : Float F⦄ (self : AgentRuntime F W) where
  unfoldable pub request : Text → Principal → (trace_id : Text) → W → Request F
  request question principal trace_id w = record {
    question = question;
    principal = principal;
    index_version = self.active_index_version w;
    tool_specs = specs self.allow_egress w self.tools;
    started = self.perf_counter w;
    trace_id = trace_id;
  }

  -- `(budget or self.budget).clamp(self.budget)`
  unfoldable pub effective_budget : Option (Budget F) → Budget F
  effective_budget budget = clamp (or_else budget self.budget) self.budget

  unfoldable pub first_turn : Text → Budget F → W → Turn F
  first_turn question budget w =
      let ledger : EvidenceLedger F = record {
        max_chars = self.max_evidence_chars;
        max_quote_chars = 500;
        by_ref = [];
      } in
      record {
        tracker = start_tracker budget (self.perf_counter w);
        ledger = ledger;
        steps = [];
        messages =
            said Role.system system_text
            ∷ said Role.user
                (self.plan_prompt question (codes "(none)") (render self.critic.show_score ledger))
            ∷ [];
        self_corrections = 0;
        draft = none;
        verdict = none;
        usage = blank_usage self.model_name self.prompt_version;
      }

  -- `AgentRuntime.run`, with one round of fuel more than the budget has steps.
  unfoldable pub run :
      Text
      → Principal
      → Option (Budget F)
      → (trace_id : Text) → W
      → Option (Result (AgentAnswer F) × W)
  run question principal budget trace_id w =
      let effective = effective_budget budget in
      let req = request question principal trace_id w in
      elim (rounds self req (effective.max_steps + 1) (first_turn question effective w) w) [
        | none ↦ none
        | some progress ↦ some (conclude self req progress)
      ]
