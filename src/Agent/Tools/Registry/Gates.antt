-- ===== src/Agent/Tools/Registry/Gates.antt =====
-- What reaches a tool in src/rag/agent/tools/registry.py, and what comes back.
use mathlib.Core.Path.{subst}
use ai_rag.Prelude.{
  Text, List, [], ◌∷◌, ◌≡◌, refl, sym, ◌∙◌, ◌⊎◌, Bool, true, false, not, ◌&&◌, ◌||◌, some, arith,
  All, In, In-keep, Option-cases, Bool-cases, inl, inr, text_eq, text_eq_iff,
}
use ai_rag.Prelude.Number.{Float}
use ai_rag.Prelude.Dict.{Dict, lookup, insert, values, Distinct, insert-Distinct, All-insert}
use ai_rag.Prelude.Result.{Result-cases, ok}
use ai_rag.Schemas.Principal.{Principal}
use ai_rag.Schemas.Agent.{Json, ToolCall}
use ai_rag.Agent.Budget.{BudgetTracker}
use ai_rag.Agent.Tools.Arguments.{
  ArgumentError, Validated, validate_arguments, valid, invalid, IsValid, validate_arguments-IsValid,
  validate_arguments_of_IsValid,
}
use ai_rag.Agent.Tools.ResultCache.{Codec}
use ai_rag.Agent.Tools.Registry.{
  Tool, ToolRegistry, Wording, register, register_all, allowed_for, admit, admitted, refused,
  execute, run_or_recall, run_tool, failed,
}

Validated-cases :
    (v : Validated)
    → ((e : ArgumentError) × (v ≡ invalid e)) ⊎ ((out : Dict Json) × (v ≡ valid out))
Validated-cases (invalid e) = inl (e, refl)
Validated-cases (valid out) = inr (out, refl)

-- A registry as its constructor builds it: each tool under its own name, and no name twice.
pub record IsNamed {F W : Type 0} (self : ToolRegistry F W) : Type 0 where
  pub own_name : All (λ e. e.1.name ≡ e.0) self.tools
  pub distinct : Distinct self.tools

module _ {F W : Type 0} where
  register-IsNamed :
      (tool : Tool F W) (self out : ToolRegistry F W)
      → IsNamed self
      → register tool self ≡ ok out
      → IsNamed out
  unfolding register
  register-IsNamed tool self out n h = elim (Option-cases (lookup tool.name self.tools)) [
    | inr (t, old) ↦ absurd (ground arith)
    | inl new ↦
        let grown : ToolRegistry F W = record self { tools = insert tool.name tool self.tools } in
        let same : grown ≡ out = ground arith in
        subst (λ r. IsNamed r) same
          (record {
            own_name =
                All-insert (λ k t. t.name ≡ k) tool.name tool self.tools (λ j e. sym e) n.own_name;
            distinct = insert-Distinct tool.name tool self.tools n.distinct;
          })
  ]

  -- The constructor ends with such a registry, or raises on a name given twice.
  pub register_all-IsNamed :
      (tools : List (Tool F W)) (self out : ToolRegistry F W)
      → IsNamed self
      → register_all tools self ≡ ok out
      → IsNamed out
  unfolding register_all
  register_all-IsNamed [] self out n h =
      let same : self ≡ out = ground arith in subst (λ r. IsNamed r) same n
  register_all-IsNamed (tool ∷ tools) self out n h = elim (Result-cases (register tool self)) [
    | inr (e, raised) ↦ absurd (ground arith)
    | inl (next, grown) ↦
        register_all-IsNamed tools next out (register-IsNamed tool self next n grown) (ground arith)
  ]

  lookup-values :
      (t : Tool F W) (d : Dict (Tool F W))
      → All (λ e. e.1.name ≡ e.0) d
      → Distinct d
      → In t (values d)
      → lookup t.name d ≡ some t
  unfolding lookup
  lookup-values t [] n k h = absurd h
  lookup-values t ((j, u) ∷ d) n k (inl same) = ground (arith, text_eq_iff j t.name, n.0)
  lookup-values t ((j, u) ∷ d) n k (inr later) =
      let found = lookup-values t d n.1 k.1 later in
      elim (Bool-cases (text_eq j t.name)) [
        | inl equal ↦ absurd (ground (arith, text_eq_iff j t.name, k.0))
        | inr other ↦ rw other found
      ]

module _ {F W : Type 0} (wording : Wording) where
  -- The four gates of `execute`.
  pub record Passes (self : ToolRegistry F W) (call : ToolCall) (allow_egress : Bool) (w : W)
      (tool : Tool F W) : Type 0 where
    pub registered : lookup call.name self.tools ≡ some tool
    pub cleared : (tool.requires_egress && not allow_egress) ≡ false
    pub up : tool.available w ≡ true
    pub meets : IsValid tool.parameters call.arguments

  -- A call is admitted only with the tool registered under its name, where egress is granted if the tool
  -- needs it, the tool is available and the arguments meet its schema; they are passed on as they are.
  pub admit-Passes :
      (self : ToolRegistry F W) (call : ToolCall) (allow_egress : Bool) (w : W) (tool : Tool F W)
      (arguments : Dict Json)
      → admit wording self call allow_egress w ≡ admitted tool arguments
      → Passes self call allow_egress w tool × (arguments ≡ call.arguments)
  unfolding admit
  admit-Passes self call allow_egress w tool arguments h =
      elim (Option-cases (lookup call.name self.tools)) [
        | inl unknown ↦ absurd (ground arith)
        | inr (t, found) ↦ elim (Validated-cases (validate_arguments call.arguments t.parameters)) [
          | inl (e, bad) ↦ absurd (ground arith)
          | inr (out, good) ↦
              let same : t ≡ tool = ground arith in
              let handed : out ≡ arguments = ground arith in
              let (kept, v) = validate_arguments-IsValid call.arguments t.parameters out good in
              (
                record {
                  registered = ground arith;
                  cleared = ground arith;
                  up = ground arith;
                  meets = subst (λ x. IsValid x.parameters call.arguments) same v;
                },
                sym handed ∙ kept,
              )
        ]
      ]

  -- A call that names a registered tool is admitted with its own arguments, if egress is granted or not
  -- needed, the tool is available and the arguments meet its schema.
  pub admit_of_Passes :
      (self : ToolRegistry F W) (call : ToolCall) (allow_egress : Bool) (w : W) (tool : Tool F W)
      → Passes self call allow_egress w tool
      → admit wording self call allow_egress w ≡ admitted tool call.arguments
  unfolding admit
  admit_of_Passes self call allow_egress w tool p =
      rw
        (
          p.registered,
          admit,
          p.cleared,
          p.up,
          validate_arguments_of_IsValid call.arguments tool.parameters p.meets,
        )
        refl

  -- What the planner was offered is admitted while it stays available: in a registry built by the
  -- constructor, a call by the name of an offered tool, with arguments that meet its schema, runs.
  pub allowed_for-admit :
      (self : ToolRegistry F W) (call : ToolCall) (allow_egress : Bool) (w : W) (tool : Tool F W)
      → IsNamed self
      → In tool (allowed_for allow_egress w self)
      → call.name ≡ tool.name
      → IsValid tool.parameters call.arguments
      → admit wording self call allow_egress w ≡ admitted tool call.arguments
  unfolding allowed_for
  allowed_for-admit self call allow_egress w tool n offered named meets =
      let (held, gates) =
        In-keep (λ (t : Tool F W). t.available w && (allow_egress || not t.requires_egress)) tool
          (values self.tools) offered in
      admit_of_Passes self call allow_egress w tool (record {
        registered = rw named (lookup-values tool self.tools n.own_name n.distinct held);
        cleared = ground arith;
        up = ground arith;
        meets = meets;
      })

module _ {F W : Type 0} ⦃fl : Float F⦄ (codec : Codec F) (wording : Wording)
    (self : ToolRegistry F W) (call : ToolCall) (principal : Principal) (budget : BudgetTracker F)
    (allow_egress : Bool) (index_version : Text) (w : W) where
  -- Every result carries the identity of the call, on every path: never that of the tool or of the
  -- call that filled the cache.
  pub execute-identity :
      ((execute codec wording self call principal budget allow_egress index_version w).0.call_id
        ≡ call.id)
      × ((execute codec wording self call principal budget allow_egress index_version w).0.name
          ≡ call.name)
  unfolding execute run_or_recall run_tool
  execute-identity = ground arith

  -- A call that is turned away runs nothing: the world is as before, and the result is a failure
  -- with no sources.
  pub execute_refused :
      (error : Text)
      → admit wording self call allow_egress w ≡ refused error
      → execute codec wording self call principal budget allow_egress index_version w
        ≡ (failed call error, w)
  unfolding execute
  execute_refused error h = rw (h, execute) refl
