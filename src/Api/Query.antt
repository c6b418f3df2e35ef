-- ===== src/Api/Query.antt =====
-- The agent's side of the query endpoint, src/rag/api/routes/query.py, and `agent_cache_params` of src/rag/cache/keys.py.
-- The semaphore of the tenant and logs are left out; the text of a float in JSON is an argument.
pub mod Stored
use ai_rag.Prelude.{
  ℕ, ◌&&◌, Text, List, [], ◌∷◌, ◌++◌, map, Bool, true, false, not, Option, none, some,
  if◌then◌else◌, codes, or_else,
}
use ai_rag.Prelude.Number.{Float}
use ai_rag.Prelude.Result.{Raised, Result, ok, raise, Call}
use ai_rag.Schemas.Principal.{Principal}
use ai_rag.Schemas.Answer.{Answer}
use ai_rag.Schemas.Agent.{
  Budget, clamp, is_answerable, AgentAnswer, Json, boolean, integer, number, string, array, object,
  Items, nil, item, Fields, end, field, pos,
}
use ai_rag.Security.Acl.{sorted}
use ai_rag.Cache.Keys.{cache_key}
use ai_rag.Agent.Tools.Registry.{Tool, allowed_for}
use ai_rag.Agent.Runtime.State.{AgentRuntime}
use ai_rag.Agent.Runtime.Loop.{run}
use ai_rag.Pipelines.Online.{OnlinePipeline, active_index_version}

-- The budget fields of `QueryRequest`, with the query.
pub record QueryRequest (F : Type 0) : Type 0 where
  pub query : Text
  pub max_steps : Option ℕ
  pub max_tool_calls : Option ℕ
  pub max_critique_rounds : Option ℕ
  pub max_tokens : Option ℕ
  pub max_cost_usd : Option F
  pub max_wall_clock_seconds : Option F

unfoldable pub budget_override : {F : Type 0} ⦃fl : Float F⦄ → QueryRequest F → Budget F → Budget F
budget_override self ceiling =
    clamp
      (record {
        max_steps = or_else self.max_steps ceiling.max_steps;
        max_tool_calls = or_else self.max_tool_calls ceiling.max_tool_calls;
        max_critique_rounds = or_else self.max_critique_rounds ceiling.max_critique_rounds;
        max_tokens = or_else self.max_tokens ceiling.max_tokens;
        max_cost_usd = or_else self.max_cost_usd ceiling.max_cost_usd;
        max_wall_clock_seconds = or_else self.max_wall_clock_seconds ceiling.max_wall_clock_seconds;
      })
      ceiling

items_of : List Text → Items
items_of [] = nil
items_of (t ∷ ts) = item (string t) (items_of ts)

module _ {F : Type 0} (show_float : F → Text) where
  unfoldable pub budget_fields : Budget F → Fields
  budget_fields budget = field (codes "max_steps") (integer (pos budget.max_steps)) (
      field (codes "max_tool_calls") (integer (pos budget.max_tool_calls)) (
        field (codes "max_critique_rounds") (integer (pos budget.max_critique_rounds)) (
          field (codes "max_tokens") (integer (pos budget.max_tokens)) (
            field (codes "max_cost_usd") (number (show_float budget.max_cost_usd)) (
              field (codes "max_wall_clock_seconds")
                (number (show_float budget.max_wall_clock_seconds)) end)))))

  unfoldable pub agent_cache_params :
      (mode : Text) → (allow_egress : Bool) → (tool_names : List Text) → Budget F → Fields
  unfolding items_of
  agent_cache_params mode allow_egress tool_names budget = field (codes "mode") (string mode) (
      field (codes "allow_egress") (boolean allow_egress) (
        field (codes "tools") (array (items_of (sorted tool_names)))
          (field (codes "budget") (object (budget_fields budget)) end)))

-- What the endpoint reads of `AppState`, with the agent it has.
pub record AppState (F W : Type 0) : Type 0 where
  pub agent : AgentRuntime F W
  pub pipeline : OnlinePipeline F W
  pub agent_budget : Budget F
  -- `retrieval_config().cache_params()` with the entry `agent` put in
  pub with_agent : Fields → List (Text × Json)
  pub show_float : F → Text
  -- `answer.model_dump_json()`; `AgentAnswer.model_validate_json(raw)`, none where it raises
  pub dump_agent : AgentAnswer F → Text
  pub load_agent : Text → Option (AgentAnswer F)

-- The answer of the endpoint: the agent's, or one that was stored as a plain answer.
pub data Served (F : Type 0) : Type 0 where
  by_agent : AgentAnswer F → Served F
  by_pipeline : Answer F → Served F

module _ {F W : Type 0} ⦃fl : Float F⦄ (state : AppState F W) where
  unfoldable pub agent_key : QueryRequest F → Principal → W → Text
  agent_key body principal w =
      let budget = budget_override body state.agent_budget in
      let tool_names =
        map (λ (t : Tool F W). t.name) (allowed_for state.agent.allow_egress w state.agent.tools) in
      cache_key state.pipeline.hashing body.query principal (active_index_version state.pipeline w)
        state.agent.prompt_version
        (some (
          state.with_agent (
            agent_cache_params state.show_float (codes "agent") state.agent.allow_egress tool_names
              budget)))

  -- A stored turn, if it can be read: first as the agent's answer, then as a plain one.
  unfoldable pub replay : Text → Option (Served F)
  replay raw = elim (state.load_agent raw) [
    | some a ↦ some (by_agent (record a { cached = true }))
    | none ↦ elim (state.pipeline.load_answer raw) [
      | ok b ↦ some (by_pipeline (record b { cached = true }))
      | raise e ↦ none
    ]
  ]

  unfoldable pub lookup_turn : (key : Text) → W → Option (Served F) × W
  lookup_turn key w =
      if not state.pipeline.cache_enabled
      then (none, w)
      else (let (raw, w') = state.pipeline.cache.get key w in
          (elim raw [ none ↦ none | some text ↦ replay text ], w'))

  -- The condition under which a turn is stored.
  unfoldable pub should_store : AgentAnswer F → Bool
  should_store answer =
      state.pipeline.cache_enabled
      && (not answer.refused && (not answer.fallback_used && is_answerable answer.stop_reason))

  unfoldable pub store_turn : (key : Text) → AgentAnswer F → W → W
  store_turn key answer w =
      if should_store answer
      then state.pipeline.cache.set key (state.dump_agent answer)
          (some state.pipeline.cache_ttl_seconds) w
      else w

  unfoldable pub fresh_turn :
      (key : Text)
      → QueryRequest F
      → Principal
      → (trace_id : Text) → W
      → Option (Result (Served F) × W)
  fresh_turn key body principal trace_id w =
      elim (run state.agent body.query principal (some (budget_override body state.agent_budget))
        trace_id w) [
          | none ↦ none
          | some (outcome, w') ↦ elim outcome [
            | raise e ↦ some (raise e, w')
            | ok answer ↦ some (ok (by_agent answer), store_turn key answer w')
          ]
        ]

  -- `_run_agent`
  unfoldable pub run_agent :
      QueryRequest F → Principal → (trace_id : Text) → W → Option (Result (Served F) × W)
  run_agent body principal trace_id w =
      let key = agent_key body principal w in
      let (found, w') = lookup_turn key w in
      elim found [
        | some served ↦ some (ok served, w')
        | none ↦ fresh_turn key body principal trace_id w'
      ]
