-- ===== src/Agent/Tools/Registry.antt =====
-- `ToolRegistry` of src/rag/agent/tools/registry.py, over the world `W` in which tools run. Metrics and
-- logs are left out. The wording of the two error messages that quote an exception is an argument.
pub mod Gates
use ai_rag.Prelude.{
  ℕ, Text, List, [], ◌∷◌, ◌++◌, map, Bool, true, false, not, ◌&&◌, ◌||◌, Option, none, some,
  if◌then◌else◌, keep, codes, is_empty,
}
use ai_rag.Prelude.Number.{Float}
use ai_rag.Prelude.Dict.{Dict, lookup, insert, values, has}
use ai_rag.Prelude.Result.{Raised, value_error, Result, ok, raise, Call}
use ai_rag.Schemas.Principal.{Principal}
use ai_rag.Schemas.Agent.{Json, ToolSchema, ToolCall, ToolResult}
use ai_rag.Schemas.Chat.{ToolSpec}
use ai_rag.Agent.Budget.{BudgetTracker}
use ai_rag.Agent.Tools.Arguments.{ArgumentError, Validated, valid, invalid, validate_arguments}
use ai_rag.Agent.Tools.ResultCache
use ai_rag.Agent.Tools.ResultCache.{Codec, ToolResultCache}

-- src/rag/agent/tools/base.py: one capability the agent may invoke
pub record Tool (F W : Type 0) : Type 0 where
  pub name : Text
  pub description : Text
  pub parameters : ToolSchema
  pub requires_egress : Bool
  pub available : W → Bool
  pub run : Dict Json → Principal → BudgetTracker F → Call W (ToolResult F)

pub record ToolRegistry (F W : Type 0) : Type 0 where
  pub tools : Dict (Tool F W)
  pub result_cache : Option (ToolResultCache W)

-- `f"invalid_arguments:{exc}"` and `f"{type(exc).__name__}: {exc}"`
pub record Wording : Type 0 where
  pub of_argument_error : ArgumentError → Text
  pub of_exception : Raised → Text

module _ {F W : Type 0} where
  -- `ToolMixin.spec`
  unfoldable pub spec : Tool F W → ToolSpec
  spec tool = record {
    name = tool.name;
    description = tool.description;
    parameters = tool.parameters;
  }

  unfoldable pub register : Tool F W → ToolRegistry F W → Result (ToolRegistry F W)
  register tool self =
      if has tool.name self.tools
      then raise (value_error (codes "duplicate tool registration: " ++ tool.name))
      else ok (record self { tools = insert tool.name tool self.tools })

  -- The loop of the constructor.
  unfoldable pub register_all : List (Tool F W) → ToolRegistry F W → Result (ToolRegistry F W)
  register_all [] self = ok self
  register_all (tool ∷ tools) self = elim (register tool self) [
    | ok self' ↦ register_all tools self'
    | raise e ↦ raise e
  ]

  unfoldable pub get : Text → ToolRegistry F W → Option (Tool F W)
  get name self = lookup name self.tools

  unfoldable pub allowed_for : (allow_egress : Bool) → W → ToolRegistry F W → List (Tool F W)
  allowed_for allow_egress w self =
      keep (λ tool. tool.available w && (allow_egress || not tool.requires_egress))
        (values self.tools)

  unfoldable pub specs : (allow_egress : Bool) → W → ToolRegistry F W → List ToolSpec
  specs allow_egress w self = map spec (allowed_for allow_egress w self)

-- A `ToolResult` for a call that did not run, or whose tool raised.
abbrev pub failed : {F : Type 0} ⦃fl : Float F⦄ → ToolCall → Text → ToolResult F
failed ⦃fl⦄ call error = record {
  call_id = call.id;
  name = call.name;
  ok = false;
  content = [];
  sources = [];
  error = some error;
  latency_ms = fl.of_nat 0;
}

abbrev pub rebind : {F : Type 0} → ToolCall → ToolResult F → ToolResult F
rebind call result = record result { call_id = call.id; name = call.name }

module _ {F W : Type 0} ⦃fl : Float F⦄ (codec : Codec F) (wording : Wording) where
  -- `self._result_cache.get(…)`, and a miss where there is no cache
  unfoldable pub cached_result :
      ToolRegistry F W → Text → Dict Json → Principal → Text → W → Option (ToolResult F) × W
  cached_result self name arguments principal index_version w = elim self.result_cache [
    | none ↦ (none, w)
    | some cache ↦ ResultCache.get codec cache name arguments principal index_version w
  ]

  unfoldable pub cache_result :
      ToolRegistry F W → Text → Dict Json → Principal → ToolResult F → Text → W → W
  cache_result self name arguments principal result index_version w = elim self.result_cache [
    | none ↦ w
    | some cache ↦
        if result.ok
        then ResultCache.set codec cache name arguments principal result index_version w
        else w
  ]

  -- The end of `execute`: run the tool, and keep the result.
  unfoldable pub run_tool :
      ToolRegistry F W
      → Tool F W
      → ToolCall
      → Dict Json
      → Principal
      → BudgetTracker F
      → Text
      → W
      → ToolResult F × W
  run_tool self tool call arguments principal budget index_version w =
      let (outcome, w') = tool.run arguments principal budget w in
      elim outcome [
        | raise e ↦ (failed call (wording.of_exception e), w')
        | ok raw ↦
            let result = rebind call raw in
            (result, cache_result self call.name arguments principal result index_version w')
      ]

  -- The middle of `execute`, with valid arguments: the cache, or the tool.
  unfoldable pub run_or_recall :
      ToolRegistry F W
      → Tool F W
      → ToolCall
      → Dict Json
      → Principal
      → BudgetTracker F
      → Text
      → W
      → ToolResult F × W
  run_or_recall self tool call arguments principal budget index_version w =
      let (hit, w') = cached_result self call.name arguments principal index_version w in
      elim hit [
        | some cached ↦ (rebind call cached, w')
        | none ↦ run_tool self tool call arguments principal budget index_version w'
      ]

-- Whether a call is run: with which error it is turned away, or with which tool and arguments it runs.
pub data Admission (F W : Type 0) : Type 0 where
  refused : Text → Admission F W
  admitted : Tool F W → Dict Json → Admission F W

module _ {F W : Type 0} (wording : Wording) where
  -- The guards of `execute`, in order.
  unfoldable pub admit : ToolRegistry F W → ToolCall → (allow_egress : Bool) → W → Admission F W
  admit self call allow_egress w = elim (lookup call.name self.tools) [
    | none ↦ refused (codes "unknown_tool:" ++ call.name)
    | some tool ↦
        if tool.requires_egress && not allow_egress
        then refused (codes "egress_denied")
        else if not (tool.available w)
        then refused (codes "tool_unavailable:" ++ call.name)
        else elim (validate_arguments call.arguments tool.parameters) [
          | invalid e ↦ refused (codes "invalid_arguments:" ++ wording.of_argument_error e)
          | valid arguments ↦ admitted tool arguments
        ]
  ]

module _ {F W : Type 0} ⦃fl : Float F⦄ (codec : Codec F) (wording : Wording) where
  -- `ToolRegistry.execute`
  unfoldable pub execute :
      ToolRegistry F W
      → ToolCall
      → Principal
      → BudgetTracker F
      → (allow_egress : Bool) → (index_version : Text) → W
      → ToolResult F × W
  execute self call principal budget allow_egress index_version w =
      elim (admit wording self call allow_egress w) [
        | refused error ↦ (failed call error, w)
        | admitted tool arguments ↦
            run_or_recall codec wording self tool call arguments principal budget index_version w
      ]
