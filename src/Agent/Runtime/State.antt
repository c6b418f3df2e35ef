-- ===== src/Agent/Runtime/State.antt =====
-- The fields of `AgentRuntime` in src/rag/agent/runtime.py, and the local variables of `run`.
use ai_rag.Prelude.{ℕ, Text, List, Option, Bool}
use ai_rag.Prelude.Result.{Call}
use ai_rag.Schemas.Principal.{Principal}
use ai_rag.Schemas.Answer.{Usage, Answer}
use ai_rag.Schemas.Agent.{Budget, AgentStep, Verdict}
use ai_rag.Schemas.Chat.{Message, ToolSpec, ChatCompletion}
use ai_rag.Agent.Budget.{BudgetTracker}
use ai_rag.Agent.Evidence.{EvidenceLedger}
use ai_rag.Agent.Critic.{Critic}
use ai_rag.Agent.Tools.ResultCache.{Codec}
use ai_rag.Agent.Tools.Registry.{ToolRegistry, Wording}

-- The world `W` holds whatever the planner, the tools, the critic, the pipeline and the clock
-- depend on. `interrupted` tells of a world whether the deadline of the turn has struck by then.
pub record AgentRuntime (F W : Type 0) : Type 0 where
  pub model_name : Text
  pub chat : List Message → List ToolSpec → Call W (ChatCompletion F)
  pub tools : ToolRegistry F W
  pub answer : Text → Principal → Call W (Answer F)
  pub active_index_version : W → Text
  pub pii_redaction_enabled : Bool
  pub critic : Critic F W
  pub budget : Budget F
  pub allow_egress : Bool
  pub include_trace : Bool
  pub prompt_version : Text
  pub max_evidence_chars : ℕ
  pub codec : Codec F
  pub wording : Wording
  pub redact_pii : Text → Text
  -- `get_prompt("agent_plan", …).render(question, missing, sources)`
  pub plan_prompt : Text → Text → Text → Text
  pub perf_counter : W → F
  pub interrupted : W → Bool

pub record Turn (F : Type 0) : Type 0 where
  pub tracker : BudgetTracker F
  pub ledger : EvidenceLedger F
  pub steps : List (AgentStep F)
  pub messages : List Message
  pub self_corrections : ℕ
  pub draft : Option Text
  pub verdict : Option (Verdict F)
  pub usage : Usage F

-- What `run` was called with and fixed before the loop.
pub record Request (F : Type 0) : Type 0 where
  pub question : Text
  pub principal : Principal
  pub index_version : Text
  pub tool_specs : List ToolSpec
  pub started : F
  pub trace_id : Text
