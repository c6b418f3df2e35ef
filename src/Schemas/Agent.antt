-- ===== src/Schemas/Agent.antt =====
-- src/rag/schemas/agent.py. The arguments of a tool call are a value of JSON.
use ai_rag.Prelude.{Text, List, Option, Bool, true, false, ℕ, min}
use ai_rag.Prelude.Dict.{Dict}
use ai_rag.Prelude.Number.{Float, min_float}
use ai_rag.Schemas.Answer.{Source, Citation, Usage}

pub data StopReason : Type 0 where
  answered budget_exhausted critic_grounded critic_exhausted no_grounding tool_unavailable
        fallback_pipeline refused error :
      StopReason

-- `stop in ANSWERABLE_STOPS`
unfoldable pub is_answerable : StopReason → Bool
is_answerable StopReason.answered = true
is_answerable StopReason.critic_grounded = true
is_answerable StopReason.critic_exhausted = true
is_answerable _ = false

pub record Budget (F : Type 0) : Type 0 where
  pub max_steps : ℕ
  pub max_tool_calls : ℕ
  pub max_critique_rounds : ℕ
  pub max_tokens : ℕ
  pub max_cost_usd : F
  pub max_wall_clock_seconds : F

unfoldable pub clamp : {F : Type 0} ⦃fl : Float F⦄ → Budget F → Budget F → Budget F
clamp self ceiling = record {
  max_steps = min self.max_steps ceiling.max_steps;
  max_tool_calls = min self.max_tool_calls ceiling.max_tool_calls;
  max_critique_rounds = min self.max_critique_rounds ceiling.max_critique_rounds;
  max_tokens = min self.max_tokens ceiling.max_tokens;
  max_cost_usd = min_float self.max_cost_usd ceiling.max_cost_usd;
  max_wall_clock_seconds = min_float self.max_wall_clock_seconds ceiling.max_wall_clock_seconds;
}

-- Python's `int`; `negsuc n` is -(n + 1).
pub data ℤ : Type 0 where
  pos : ℕ → ℤ
  negsuc : ℕ → ℤ

-- A value of `dict[str, Any]`, as JSON gives them. A float keeps the text that stood for it.
mutual
  pub data Json : Type 0 where
    null : Json
    boolean : Bool → Json
    integer : ℤ → Json
    number : Text → Json
    string : Text → Json
    array : Items → Json
    object : Fields → Json

  pub data Items : Type 0 where
    nil : Items
    item : Json → Items → Items

  pub data Fields : Type 0 where
    end : Fields
    field : Text → Json → Fields → Fields

-- A tool's `parameters`, as far as they are read: for each property the kinds of its `type` (none
-- if it has no type), whether `additionalProperties` is anything but False, and `required`.
pub record ToolSchema : Type 0 where
  pub properties : Dict (List Text)
  pub additional : Bool
  pub required : List Text

pub record ToolCall : Type 0 where
  pub id : Text
  pub name : Text
  pub arguments : Dict Json

pub record ToolResult (F : Type 0) : Type 0 where
  pub call_id : Text
  pub name : Text
  pub ok : Bool
  pub content : Text
  pub sources : List (Source F)
  pub error : Option Text
  pub latency_ms : F

pub data StepKind : Type 0 where
  plan act critique finalize fallback : StepKind

pub record AgentStep (F : Type 0) : Type 0 where
  pub index : ℕ
  pub kind : StepKind
  pub thought : Text
  pub tool_calls : List ToolCall
  pub tool_results : List (ToolResult F)
  pub draft : Option Text
  pub usage : Usage F
  pub latency_ms : F

pub record Verdict (F : Type 0) : Type 0 where
  pub sufficient : Bool
  pub grounded : Bool
  pub reasons : List Text
  pub missing : List Text
  pub confidence : F

pub record AgentTrace (F : Type 0) : Type 0 where
  pub steps : List (AgentStep F)
  pub stop_reason : StopReason
  pub sources : List (Source F)
  pub critique_rounds : ℕ
  pub total_tool_calls : ℕ
  pub self_corrections : ℕ
  pub fallback_used : Bool

-- `AgentAnswer` with the fields that it inherits from `Answer`
pub record AgentAnswer (F : Type 0) : Type 0 where
  pub text : Text
  pub citations : List (Citation F)
  pub refused : Bool
  pub refusal_reason : Option Text
  pub usage : Usage F
  pub trace_id : Text
  pub index_version : Text
  pub latency_ms : F
  pub cached : Bool
  pub stop_reason : StopReason
  pub steps_taken : ℕ
  pub tool_calls : ℕ
  pub tools_used : List Text
  pub self_corrections : ℕ
  pub fallback_used : Bool
  pub degraded_reason : Option Text
  pub critic_verdict : Option (Verdict F)
  pub trace : Option (AgentTrace F)
