-- ===== src/Agent/Runtime/Answering.antt =====
-- `_finalize`, `_fallback_or_refuse`, `_build_answer` and `_trace` of src/rag/agent/runtime.py, and the
-- two helpers at its end. Metrics and logs are left out.
use ai_rag.Prelude.{
  Text, List, [], ◌∷◌, ◌++◌, map, Bool, true, false, not, ◌&&◌, Option, none, some, if◌then◌else◌,
  is_empty, codes, strip, or_else, keep,
}
use ai_rag.Prelude.Number.{Float}
use ai_rag.Prelude.Result.{ok, raise}
use ai_rag.Schemas.Principal.{Principal}
use ai_rag.Schemas.Answer.{Source, Citation, Usage, add_usage, Answer}
use ai_rag.Schemas.Agent.{
  StopReason, is_answerable, budget_exhausted, no_grounding, fallback_pipeline, ToolCall,
  ToolResult, AgentStep, AgentTrace, AgentAnswer,
}
use ai_rag.Security.Acl.{is_allowed}
use ai_rag.Generation.Citations.{resolve_source_citations}
use ai_rag.Generation.Grounded.{refused_answer}
use ai_rag.Agent.Evidence.{sources}
use ai_rag.Agent.Runtime.State.{AgentRuntime, Turn, Request}

-- `source.acl is None or is_allowed(principal, source.acl)`
unfoldable pub may_see : {F : Type 0} → Principal → Source F → Bool
may_see principal source = elim source.acl [ none ↦ true | some acl ↦ is_allowed principal acl ]

-- `_authorised_sources`
unfoldable pub authorised_sources : {F : Type 0} → List (ToolResult F) → Principal → List (Source F)
authorised_sources [] principal = []
authorised_sources (result ∷ results) principal =
    let rest = authorised_sources results principal in
    if not result.ok then rest else keep (may_see principal) result.sources ++ rest

-- `_tools_used`
unfoldable pub tools_used : {F : Type 0} → List (AgentStep F) → List Text
tools_used [] = []
tools_used (step ∷ steps) = map (λ (call : ToolCall). call.name) step.tool_calls ++ tools_used steps

-- The arguments of `_build_answer` that differ between its calls.
pub record Built (F : Type 0) : Type 0 where
  pub text : Text
  pub citations : List (Citation F)
  pub refused : Bool
  pub refusal_reason : Option Text
  pub stop : StopReason
  pub sources : List (Source F)
  pub usage : Usage F
  pub trace_id : Text
  pub fallback_used : Bool
  pub degraded_reason : Option Text
  pub index_version : Option Text
  pub cached : Bool

module _ {F W : Type 0} ⦃fl : Float F⦄ (self : AgentRuntime F W) (req : Request F) where
  unfoldable pub trace_of : Turn F → Built F → AgentTrace F
  trace_of turn b = record {
    steps = turn.steps;
    stop_reason = b.stop;
    sources = b.sources;
    critique_rounds = turn.tracker.critique_rounds;
    total_tool_calls = turn.tracker.tool_calls;
    self_corrections = turn.self_corrections;
    fallback_used = b.fallback_used;
  }

  -- The trace id is never empty: `start_trace` made it.
  unfoldable pub build_answer : Turn F → Built F → W → AgentAnswer F
  build_answer turn b w = record {
    text = b.text;
    citations = b.citations;
    refused = b.refused;
    refusal_reason = b.refusal_reason;
    usage = b.usage;
    trace_id = b.trace_id;
    index_version = or_else b.index_version (self.active_index_version w);
    latency_ms = fl.mul (fl.sub (self.perf_counter w) req.started) (fl.of_nat 1000);
    cached = b.cached;
    stop_reason = b.stop;
    steps_taken = turn.tracker.steps;
    tool_calls = turn.tracker.tool_calls;
    tools_used = tools_used turn.steps;
    self_corrections = turn.self_corrections;
    fallback_used = b.fallback_used;
    degraded_reason = b.degraded_reason;
    critic_verdict = turn.verdict;
    trace = if self.include_trace then some (trace_of turn b) else none;
  }

  -- The answer where the pipeline raises.
  unfoldable pub refuse_turn :
      (reason : Text) → StopReason → List (Source F) → Usage F → Turn F → W → AgentAnswer F
  unfolding refused_answer
  refuse_turn reason stop srcs usage turn w =
      let refused = refused_answer reason usage req.trace_id in
      build_answer turn
        (record {
          text = refused.text;
          citations = refused.citations;
          refused = true;
          refusal_reason = refused.refusal_reason;
          stop = stop;
          sources = srcs;
          usage = usage;
          trace_id = req.trace_id;
          fallback_used = false;
          degraded_reason = some reason;
          index_version = none;
          cached = false;
        })
        w

  -- The answer where the pipeline answers.
  unfoldable pub adopt_fallback :
      (reason : Text) → List (Source F) → Usage F → Turn F → Answer F → W → AgentAnswer F
  adopt_fallback reason srcs usage turn fallback w =
      build_answer turn
        (record {
          text = fallback.text;
          citations = fallback.citations;
          refused = fallback.refused;
          refusal_reason = fallback.refusal_reason;
          stop = fallback_pipeline;
          sources = srcs;
          usage = add_usage usage fallback.usage;
          trace_id = if is_empty fallback.trace_id then req.trace_id else fallback.trace_id;
          fallback_used = true;
          degraded_reason = some reason;
          index_version = some fallback.index_version;
          cached = fallback.cached;
        })
        w

  unfoldable pub fallback_or_refuse :
      (reason : Text) → StopReason → List (Source F) → Usage F → Turn F → W → AgentAnswer F × W
  fallback_or_refuse reason stop srcs usage turn w =
      let (outcome, w') = self.answer req.question req.principal w in
      elim outcome [
        | raise e ↦ (refuse_turn reason stop srcs usage turn w', w')
        | ok fallback ↦ (adopt_fallback reason srcs usage turn fallback w', w')
      ]

  abbrev pub authorised : Turn F → List (Source F)
  authorised turn = keep (may_see req.principal) (sources turn.ledger)

  abbrev pub final_text : Turn F → Text
  final_text turn = strip (or_else turn.draft [])

  unfoldable pub final_citations : Turn F → List (Citation F)
  final_citations turn =
      if is_empty (final_text turn)
      then []
      else resolve_source_citations (final_text turn) (authorised turn) true

  -- The condition under which the draft is published.
  unfoldable pub is_publishable : StopReason → Turn F → Bool
  is_publishable stop turn =
      not (is_empty (final_text turn))
      && not (is_empty (final_citations turn))
      && is_answerable stop

  unfoldable pub publish : StopReason → Turn F → W → AgentAnswer F
  publish stop turn w =
      build_answer turn
        (record {
          text =
              if self.pii_redaction_enabled
              then self.redact_pii (final_text turn)
              else final_text turn;
          citations = final_citations turn;
          refused = false;
          refusal_reason = none;
          stop = stop;
          sources = authorised turn;
          usage = turn.usage;
          trace_id = req.trace_id;
          fallback_used = false;
          degraded_reason = none;
          index_version = none;
          cached = false;
        })
        w

  abbrev pub reason_of : StopReason → Text
  reason_of budget_exhausted = codes "agent_budget_exhausted"
  reason_of _ = codes "agent_no_grounding"

  abbrev pub stop_of : StopReason → StopReason
  stop_of budget_exhausted = budget_exhausted
  stop_of _ = no_grounding

  unfoldable pub finalize : StopReason → Turn F → W → AgentAnswer F × W
  finalize stop turn w =
      if is_publishable stop turn
      then (publish stop turn w, w)
      else fallback_or_refuse (reason_of stop) (stop_of stop) (authorised turn) turn.usage turn w
