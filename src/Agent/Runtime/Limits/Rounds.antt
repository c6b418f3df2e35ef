-- ===== src/Agent/Runtime/Limits/Rounds.antt =====
-- What one round of src/rag/agent/runtime.py spends, branch by branch.
use ai_rag.Prelude.{
  ℕ, ◌+◌, ◌-◌, ◌≤◌, ◌<◌, ◌≡◌, Text, List, codes, none, arith, length-take-le, inl, inr, Bool-cases,
  Option-cases, is_empty, strip,
}
use ai_rag.Prelude.Number.{Float}
use ai_rag.Prelude.Result.{Result-cases}
use ai_rag.Schemas.Answer.{Source, Usage, blank_usage, Answer}
use ai_rag.Schemas.Agent.{Budget, StopReason, AgentAnswer}
use ai_rag.Schemas.Chat.{ChatCompletion}
use ai_rag.Agent.Budget.{
  charge_step, charge_tool_calls, charge_critique, charge_usage, terminal_stop,
  remaining_tool_calls, can_critique,
}
use ai_rag.Agent.Evidence.{sources}
use ai_rag.Agent.Runtime.State.{AgentRuntime, Turn, Request}
use ai_rag.Agent.Runtime.Answering.{
  build_answer, fallback_or_refuse, refuse_turn, adopt_fallback, finalize, is_publishable, publish,
}
use ai_rag.Agent.Runtime.Loop.{
  Progress, next, left, returned, crashed, act_step, after_verdict, corrected, judged, escape,
  critique_step, drafted, asked_again, unjudged, draft_step, planned, planner_failed, plan_step,
  round,
}

-- What a turn may have spent of the budget `b`.
pub record InBudget {F : Type 0} (b : Budget F) (turn : Turn F) : Type 0 where
  pub same : turn.tracker.budget ≡ b
  pub steps : turn.tracker.steps ≤ b.max_steps
  pub tool_calls : turn.tracker.tool_calls ≤ b.max_tool_calls
  pub critique_rounds : turn.tracker.critique_rounds ≤ b.max_critique_rounds
  pub self_corrections : turn.self_corrections ≤ turn.tracker.critique_rounds

pub record Kept {F : Type 0} (b : Budget F) (answer : AgentAnswer F) : Type 0 where
  pub steps : answer.steps_taken ≤ b.max_steps
  pub tool_calls : answer.tool_calls ≤ b.max_tool_calls
  pub self_corrections : answer.self_corrections ≤ b.max_critique_rounds

-- After `n` rounds: the turn that goes on has taken as many steps, and nothing is over the budget.
abbrev pub Bounded : {F W : Type 0} → Budget F → ℕ → Progress F W → Type 0
Bounded b n (next turn w) = InBudget b turn × (turn.tracker.steps ≡ n)
Bounded b n (left stop turn w) = InBudget b turn
Bounded b n (returned answer w) = Kept b answer
Bounded b n (crashed e w) = Unit

module _ {F W : Type 0} ⦃fl : Float F⦄ (self : AgentRuntime F W) (req : Request F)
    (b : Budget F) where
  act_step-Bounded :
      (started : F) (c : ChatCompletion F) (turn : Turn F) (w : W)
      → InBudget b turn
      → Bounded b turn.tracker.steps (act_step self req started c turn w)
  unfolding act_step charge_tool_calls remaining_tool_calls
  act_step-Bounded started c turn w k = ground (
    arith,
    length-take-le (turn.tracker.budget.max_tool_calls - turn.tracker.tool_calls)
        c.message.tool_calls,
  )

  critique_step-Bounded :
      (c : ChatCompletion F) (draft : Text) (turn : Turn F) (w : W)
      → InBudget b turn
      → turn.tracker.critique_rounds < b.max_critique_rounds
      → Bounded b turn.tracker.steps (critique_step self req c draft turn w)
  unfolding critique_step escape after_verdict corrected judged charge_critique charge_usage
  critique_step-Bounded c draft turn w k room = ground arith

  draft_step-Bounded :
      (started : F) (c : ChatCompletion F) (turn : Turn F) (w : W)
      → InBudget b turn
      → Bounded b turn.tracker.steps (draft_step self req started c turn w)
  unfolding draft_step drafted asked_again can_critique
  draft_step-Bounded started c turn w k =
      let draft : Text = strip c.message.content in
      ground (arith, critique_step-Bounded c draft (drafted self req started c draft turn w) w)

  module _ (turn : Turn F) (k : InBudget b turn) where
    refuse_turn-Kept :
        (reason : Text) (stop : StopReason) (srcs : List (Source F)) (u : Usage F) (w : W)
        → Kept b (refuse_turn self req reason stop srcs u turn w)
    unfolding refuse_turn build_answer
    refuse_turn-Kept reason stop srcs u w = omega arith

    adopt_fallback-Kept :
        (reason : Text) (srcs : List (Source F)) (u : Usage F) (a : Answer F) (w : W)
        → Kept b (adopt_fallback self req reason srcs u turn a w)
    unfolding adopt_fallback build_answer
    adopt_fallback-Kept reason srcs u a w = omega arith

    fallback_or_refuse-Kept :
        (reason : Text) (stop : StopReason) (srcs : List (Source F)) (u : Usage F) (w : W)
        → Kept b (fallback_or_refuse self req reason stop srcs u turn w).0
    unfolding fallback_or_refuse
    fallback_or_refuse-Kept reason stop srcs u w =
        elim (Result-cases (self.answer req.question req.principal w).0) [
          | inl (a, e) ↦ rw (e, fallback_or_refuse) (adopt_fallback-Kept reason srcs u a _)
          | inr (r, e) ↦ rw (e, fallback_or_refuse) (refuse_turn-Kept reason stop srcs u _)
        ]

    pub finalize-Kept : (stop : StopReason) (w : W) → Kept b (finalize self req stop turn w).0
    unfolding finalize publish build_answer
    finalize-Kept stop w = elim (Bool-cases (is_publishable self req stop turn)) [
      | inl own ↦ rw own (omega arith)
      | inr other ↦ rw other (fallback_or_refuse-Kept _ _ _ _ w)
    ]

  unjudged-InBudget : (turn : Turn F) → InBudget b turn → InBudget b (unjudged turn)
  unfolding unjudged
  unjudged-InBudget turn k = ground arith

  planner_failed-Bounded :
      (turn : Turn F)
      → InBudget b turn
      → (w : W) → Bounded b turn.tracker.steps (planner_failed self req turn w)
  unfolding planner_failed
  planner_failed-Bounded turn k w = ground (
    arith,
    fallback_or_refuse-Kept (unjudged turn) (unjudged-InBudget turn k) (codes "llm_unavailable")
        StopReason.error (sources turn.ledger) (blank_usage self.model_name self.prompt_version) w,
  )

  planned-InBudget :
      (c : ChatCompletion F) (turn : Turn F) → InBudget b turn → InBudget b (planned c turn)
  unfolding planned charge_usage
  planned-InBudget c turn k = ground arith

  plan_step-Bounded :
      (turn : Turn F) (w : W)
      → InBudget b turn
      → turn.tracker.steps < b.max_steps
      → Bounded b (turn.tracker.steps + 1) (plan_step self req turn w)
  unfolding plan_step charge_step planned charge_usage
  plan_step-Bounded turn w k room =
      let charged : Turn F = record turn { tracker = charge_step turn.tracker } in
      let k' : InBudget b charged = ground arith in
      let reply = self.chat turn.messages req.tool_specs w in
      elim (Bool-cases (self.interrupted reply.1)) [
        | inl struck ↦ rw struck k'
        | inr running ↦ elim (Result-cases reply.0) [
          | inr (r, e) ↦ rw (running, plan_step, e) (planner_failed-Bounded charged k' reply.1)
          | inl (c, e) ↦
              let kc = planned-InBudget c charged k' in
              elim (Bool-cases (is_empty c.message.tool_calls)) [
                | inl none' ↦
                    rw (running, plan_step, e, none')
                      (draft_step-Bounded (self.perf_counter w) c (planned c charged) reply.1 kc)
                | inr calls ↦
                    rw (running, plan_step, e, calls)
                      (act_step-Bounded (self.perf_counter w) c (planned c charged) reply.1 kc)
              ]
        ]
      ]

  below_steps :
      (now : F) (turn : Turn F)
      → InBudget b turn
      → terminal_stop now turn.tracker ≡ none
      → turn.tracker.steps < b.max_steps
  unfolding terminal_stop
  below_steps now turn k e = ground (arith, k.same)

  -- A round that goes on has taken a step, within the budget.
  pub round-Bounded :
      (turn : Turn F) (w : W)
      → InBudget b turn
      → Bounded b (turn.tracker.steps + 1) (round self req turn w)
  unfolding round
  round-Bounded turn w k = elim (Option-cases (terminal_stop (self.perf_counter w) turn.tracker)) [
    | inr (stop, e) ↦ rw (e, round) k
    | inl e ↦
        rw (e, round) (plan_step-Bounded turn w k (below_steps (self.perf_counter w) turn k e))
  ]
