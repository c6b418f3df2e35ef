-- ===== src/Agent/Runtime/Access.antt =====
-- Who sees what in a turn of src/rag/agent/runtime.py.
use mathlib.Core.Path.{subst}
use ai_rag.Prelude.{
  codes, ℕ, zero, suc, ◌+◌, ◌≡◌, refl, Text, List, [], ◌∷◌, true, Option, some, arith, All,
  All-append, keep, inl, inr, Bool-cases, Option-cases, take, strip, is_empty,
}
use ai_rag.Prelude.Number.{Float}
use ai_rag.Prelude.Result.{Result-cases, Result, ok, raise}
use ai_rag.Schemas.Principal.{Principal}
use ai_rag.Schemas.Answer.{Source, blank_usage}
use ai_rag.Schemas.Agent.{StopReason, Budget, AgentAnswer, ToolResult, ToolCall}
use ai_rag.Schemas.Chat.{ChatCompletion}
use ai_rag.Agent.Budget.{charge_step, remaining_tool_calls, terminal_stop}
use ai_rag.Agent.Evidence.{sources}
use ai_rag.Agent.Evidence.Best.{Holds, add-Holds}
use ai_rag.Agent.Runtime.State.{AgentRuntime, Turn, Request}
use ai_rag.Agent.Runtime.Limits.{run-AnswerKept}
use ai_rag.Agent.Runtime.Honest.{
  IsHonest, IsGivenUp, finalize-IsHonest, fallback_or_refuse-IsGivenUp,
}
use ai_rag.Agent.Runtime.Answering.{may_see, authorised_sources}
use ai_rag.Agent.Runtime.Loop.{
  Progress, next, left, returned, crashed, act_step, after_tools, run_tools, after_verdict,
  corrected, judged, escape, critique_step, drafted, asked_again, unjudged, draft_step, planned,
  planner_failed, plan_step, round, rounds, conclude, run, request, first_turn, effective_budget,
}

module _ {F : Type 0} (principal : Principal) where
  abbrev pub Seen : Source F → Type 0
  Seen s = may_see principal s ≡ true

  keep-Seen : (ss : List (Source F)) → All Seen (keep (may_see principal) ss)
  keep-Seen [] = tt
  keep-Seen (s ∷ ss) = elim (Bool-cases (may_see principal s)) [
    | inl e ↦ rw (e, keep) (e, keep-Seen ss)
    | inr e ↦ rw (e, keep) (keep-Seen ss)
  ]

  authorised_sources-Seen :
      (results : List (ToolResult F)) → All Seen (authorised_sources results principal)
  unfolding authorised_sources
  authorised_sources-Seen [] = tt
  authorised_sources-Seen (r ∷ rs) = elim (Bool-cases r.ok) [
    | inl e ↦
        rw (e, authorised_sources)
          (All-append Seen _ _ (keep-Seen r.sources) (authorised_sources-Seen rs))
    | inr e ↦ rw (e, authorised_sources) (authorised_sources-Seen rs)
  ]

module _ {F W : Type 0} ⦃fl : Float F⦄ (self : AgentRuntime F W) (req : Request F) where
  -- After a round: the ledger of the turn that goes on, or that is left, is what the principal may see.
  abbrev pub Private : Progress F W → Type 0
  Private (next turn w) = Holds (Seen req.principal) turn.ledger
  Private (left stop turn w) = Holds (Seen req.principal) turn.ledger
  Private (returned a w) = IsGivenUp self req a
  Private (crashed e w) = Unit

  after_tools-Private :
      (started : F) (c : ChatCompletion F) (calls : List ToolCall) (results : List (ToolResult F))
      (turn : Turn F) (w : W)
      → Holds (Seen req.principal) turn.ledger
      → Holds (Seen req.principal) (after_tools self req started c calls results turn w).ledger
  unfolding after_tools
  after_tools-Private started c calls results turn w k =
      add-Holds (Seen req.principal) (authorised_sources results req.principal) turn.ledger
        (authorised_sources-Seen req.principal results) k

  act_step-Private :
      (started : F) (c : ChatCompletion F) (turn : Turn F) (w : W)
      → Holds (Seen req.principal) turn.ledger
      → Private (act_step self req started c turn w)
  unfolding act_step
  act_step-Private started c turn w k =
      let calls = take (remaining_tool_calls turn.tracker) c.message.tool_calls in
      let run = run_tools self req calls turn.tracker w in
      ground (arith, after_tools-Private started c calls run.0 turn run.1 k)

  critique_step-Private :
      (c : ChatCompletion F) (draft : Text) (turn : Turn F) (w : W)
      → Holds (Seen req.principal) turn.ledger
      → Private (critique_step self req c draft turn w)
  unfolding critique_step escape after_verdict corrected judged
  critique_step-Private c draft turn w k = ground arith

  draft_step-Private :
      (started : F) (c : ChatCompletion F) (turn : Turn F) (w : W)
      → Holds (Seen req.principal) turn.ledger
      → Private (draft_step self req started c turn w)
  unfolding draft_step drafted asked_again
  draft_step-Private started c turn w k =
      let draft : Text = strip c.message.content in
      ground (arith, critique_step-Private c draft (drafted self req started c draft turn w) w)

  planner_failed-Private :
      (turn : Turn F) (w : W)
      → Holds (Seen req.principal) turn.ledger
      → Private (planner_failed self req turn w)
  unfolding planner_failed
  planner_failed-Private turn w k = ground (
    arith,
    fallback_or_refuse-IsGivenUp self req (codes "llm_unavailable") StopReason.error
        (sources turn.ledger) (blank_usage self.model_name self.prompt_version) (unjudged turn) w,
  )

  plan_step-Private :
      (turn : Turn F) (w : W)
      → Holds (Seen req.principal) turn.ledger
      → Private (plan_step self req turn w)
  unfolding plan_step planned planner_failed
  plan_step-Private turn w k =
      let charged : Turn F = record turn { tracker = charge_step turn.tracker } in
      let reply = self.chat turn.messages req.tool_specs w in
      elim (Bool-cases (self.interrupted reply.1)) [
        | inl struck ↦ rw struck k
        | inr running ↦ elim (Result-cases reply.0) [
          | inr (r, e) ↦ rw (running, plan_step, e) (planner_failed-Private charged reply.1 k)
          | inl (c, e) ↦ elim (Bool-cases (is_empty c.message.tool_calls)) [
            | inl none' ↦
                rw (running, plan_step, e, none')
                  (draft_step-Private (self.perf_counter w) c (planned c charged) reply.1 k)
            | inr calls ↦
                rw (running, plan_step, e, calls)
                  (act_step-Private (self.perf_counter w) c (planned c charged) reply.1 k)
          ]
        ]
      ]

  -- If the ledger of a turn holds only sources its principal may see, so does the ledger of the turn that a
  -- round hands on, to the next round or to `_finalize`; and an answer that a round returns at once is a
  -- refusal without citations, or the pipeline's.
  pub round-Private :
      (turn : Turn F) (w : W)
      → Holds (Seen req.principal) turn.ledger
      → Private (round self req turn w)
  unfolding round
  round-Private turn w k = elim (Option-cases (terminal_stop (self.perf_counter w) turn.tracker)) [
    | inr (stop, e) ↦ rw (e, round) k
    | inl e ↦ rw (e, round) (plan_step-Private turn w k)
  ]

  rounds_step-Private :
      (fuel : ℕ) (turn : Turn F) (w : W) (q p : Progress F W)
      → round self req turn w ≡ q
      → Private q
      → ((turn' : Turn F) (w' : W)
          → Holds (Seen req.principal) turn'.ledger
          → rounds self req fuel turn' w' ≡ some p
          → Private p)
      → rounds self req (suc fuel) turn w ≡ some p
      → Private p
  unfolding rounds
  rounds_step-Private fuel turn w (next turn' w') p e k ih h = ih turn' w' k (rw (e, rounds) at h)
  rounds_step-Private fuel turn w (left stop turn' w') p e k ih h =
      let same : left stop turn' w' ≡ p = ground arith in subst Private same k
  rounds_step-Private fuel turn w (returned a w') p e k ih h =
      let same : returned a w' ≡ p = ground arith in subst Private same k
  rounds_step-Private fuel turn w (crashed r w') p e k ih h =
      let same : crashed r w' ≡ p = ground arith in subst Private same k

  rounds-Private :
      (fuel : ℕ) (turn : Turn F) (w : W) (p : Progress F W)
      → Holds (Seen req.principal) turn.ledger
      → rounds self req fuel turn w ≡ some p
      → Private p
  unfolding rounds
  rounds-Private zero turn w p k h = absurd (ground arith)
  rounds-Private (suc fuel) turn w p k h =
      rounds_step-Private fuel turn w (round self req turn w) p refl (round-Private turn w k)
        (λ turn' w' k' h'. rounds-Private fuel turn' w' p k' h') h

  -- What an answer is worth, by the way in which the loop ended.
  abbrev pub HonestOutcome : Progress F W → Result (AgentAnswer F) → Type 0
  HonestOutcome p (raise e) = Unit
  HonestOutcome (next turn w) (ok a) = IsHonest self req turn a
  HonestOutcome (left stop turn w) (ok a) = IsHonest self req turn a
  HonestOutcome (returned b w) (ok a) = IsGivenUp self req a
  HonestOutcome (crashed e w) (ok a) = ⊥

  conclude-Honest : (p : Progress F W) → Private p → HonestOutcome p (conclude self req p).0
  unfolding conclude
  conclude-Honest (next turn w) k = finalize-IsHonest self req StopReason.answered turn w
  conclude-Honest (left stop turn w) k = finalize-IsHonest self req stop turn w
  conclude-Honest (returned a w) k = k
  conclude-Honest (crashed e w) k = tt

module _ {F W : Type 0} ⦃fl : Float F⦄ (self : AgentRuntime F W) (question : Text)
    (principal : Principal) (budget : Option (Budget F)) (trace_id : Text) (w : W) where
  -- The rounds of the turn end like this.
  abbrev pub EndsWith : Progress F W → Type 0
  EndsWith p =
      rounds self (request self question principal trace_id w)
        ((effective_budget self budget).max_steps + 1)
        (first_turn self question (effective_budget self budget) w) w
      ≡ some p

  run_honest :
      (w' : W) (r : Result (AgentAnswer F))
      → run self question principal budget trace_id w ≡ some (r, w')
      → (p : Progress F W) × EndsWith p
        × HonestOutcome self (request self question principal trace_id w) p r
  unfolding run first_turn
  run_honest w' r h =
      let req : Request F = request self question principal trace_id w in
      let b : Budget F = effective_budget self budget in
      elim (Option-cases (rounds self req (b.max_steps + 1) (first_turn self question b w) w)) [
        | inl e ↦ absurd (ground arith)
        | inr (p, e) ↦
            let same : (conclude self req p).0 ≡ r = ground arith in
            (
              p,
              e,
              subst (HonestOutcome self req p) same (
                  conclude-Honest self req p (
                    rounds-Private self req (b.max_steps + 1) (first_turn self question b w) w p tt
                      e)),
            )
      ]

  -- `run` ends, and an answer it returns is one of three: an answer of the turn's own, which cites, each citation being
  -- that of a source which is in the ledger at the end of the rounds and which the principal may see, no ref twice,
  -- after an answerable stop; a refusal with a reason and no citation; or what the pipeline answered to the same
  -- question for the same principal, with its text, citations and refusal unchanged and flagged as a fallback.
  pub run-IsHonest :
      (r : Result (AgentAnswer F)) × (w' : W) × (p : Progress F W) × (run self question principal
          budget trace_id w
        ≡ some (r, w'))
      × EndsWith p
      × HonestOutcome self (request self question principal trace_id w) p r
  run-IsHonest =
      let (r, w', e, asked, own) = run-AnswerKept self question principal budget trace_id w in
      let (p, ends, honest) = run_honest w' r e in (r, w', p, e, ends, honest)
