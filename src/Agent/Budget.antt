-- ===== src/Agent/Budget.antt =====
-- src/rag/agent/budget.py: the spend counter of one agent turn. The clock's reading is an argument
-- where the code calls `time.perf_counter()`.
use ai_rag.Prelude.{ℕ, ◌+◌, ◌-◌, codes, Bool, not, Option, none, some, ltb, leb, if◌then◌else◌}
use ai_rag.Prelude.Number.{Float, max_float}
use ai_rag.Schemas.Answer.{Usage, add_usage, blank_usage}
use ai_rag.Schemas.Agent.{Budget, StopReason, budget_exhausted}

pub record BudgetTracker (F : Type 0) : Type 0 where
  pub budget : Budget F
  pub steps : ℕ
  pub tool_calls : ℕ
  pub critique_rounds : ℕ
  pub tokens : ℕ
  pub cost_usd : F
  pub started_at : F
  pub usage_total : Usage F

module _ {F : Type 0} ⦃fl : Float F⦄ where
  unfoldable pub start_tracker : Budget F → (now : F) → BudgetTracker F
  unfolding blank_usage
  start_tracker budget now = record {
    budget = budget;
    steps = 0;
    tool_calls = 0;
    critique_rounds = 0;
    tokens = 0;
    cost_usd = fl.of_nat 0;
    started_at = now;
    usage_total = blank_usage (codes "echo") (codes "v1");
  }

  unfoldable pub charge_step : BudgetTracker F → BudgetTracker F
  charge_step self = record self { steps = self.steps + 1 }

  unfoldable pub charge_tool_calls : ℕ → BudgetTracker F → BudgetTracker F
  charge_tool_calls n self = record self { tool_calls = self.tool_calls + n }

  unfoldable pub charge_critique : BudgetTracker F → BudgetTracker F
  charge_critique self = record self { critique_rounds = self.critique_rounds + 1 }

  unfoldable pub charge_usage : Usage F → BudgetTracker F → BudgetTracker F
  charge_usage usage self = record self {
    tokens = self.tokens + usage.total_tokens;
    cost_usd = fl.add self.cost_usd usage.cost_usd;
    usage_total = add_usage self.usage_total usage;
  }

  unfoldable pub elapsed_seconds : F → BudgetTracker F → F
  elapsed_seconds now self = fl.sub now self.started_at

  unfoldable pub remaining_seconds : F → BudgetTracker F → F
  remaining_seconds now self =
      max_float (fl.of_nat 0) (fl.sub self.budget.max_wall_clock_seconds (elapsed_seconds now self))

  unfoldable pub terminal_stop : F → BudgetTracker F → Option StopReason
  unfolding elapsed_seconds
  terminal_stop now self =
      if leb self.budget.max_steps self.steps
      then some budget_exhausted
      else if leb self.budget.max_tool_calls self.tool_calls
      then some budget_exhausted
      else if leb self.budget.max_tokens self.tokens
      then some budget_exhausted
      else if not (fl.lt self.cost_usd self.budget.max_cost_usd)
      then some budget_exhausted
      else if not (fl.lt (elapsed_seconds now self) self.budget.max_wall_clock_seconds)
      then some budget_exhausted
      else none

  -- `max(0, …)` is the subtraction of ℕ
  unfoldable pub remaining_tool_calls : BudgetTracker F → ℕ
  remaining_tool_calls self = self.budget.max_tool_calls - self.tool_calls

  unfoldable pub can_critique : BudgetTracker F → Bool
  can_critique self = ltb self.critique_rounds self.budget.max_critique_rounds
