-- ===== src/Tests/Samples.antt =====
-- Sample callers, sources, tools and a sample runtime, over whole numbers as floats. The world is the clock.
use ai_rag.Prelude.{
  ℕ, ◌+◌, ◌==◌, Text, List, [], ◌∷◌, true, false, none, some, codes, if◌then◌else◌,
}
use ai_rag.Prelude.Number.{whole}
use ai_rag.Prelude.Result.{ok}
use ai_rag.Schemas.Principal.{Principal, AclTags}
use ai_rag.Schemas.Answer.{Source, SourceKind, Usage, Answer}
use ai_rag.Schemas.Agent.{Budget, boolean, Fields, field, end, object, string, ToolCall, ToolSchema}
use ai_rag.Schemas.Chat.{Role, ChatCompletion, FinishReason}
use ai_rag.Agent.Budget.{BudgetTracker}
use ai_rag.Agent.Evidence.{EvidenceLedger}
use ai_rag.Agent.Critic.{Critic}
use ai_rag.Agent.Tools.ResultCache.{Codec}
use ai_rag.Agent.Tools.Registry.{Tool, ToolRegistry, Wording}
use ai_rag.Agent.Runtime.State.{AgentRuntime, Turn, Request}

abbrev pub alice : Principal
alice = record { subject = codes "alice"; groups = codes "eng" ∷ []; tenant = codes "acme" }

abbrev pub shared : AclTags
shared = record {
  tenant = codes "acme";
  allow_groups = codes "eng" ∷ [];
  classification = codes "internal";
}

abbrev pub usage : Usage ℕ
usage = record {
  prompt_tokens = 3;
  completion_tokens = 2;
  total_tokens = 5;
  cost_usd = 1;
  model = codes "m";
  prompt_version = codes "v1";
}

abbrev pub source_of : Text → ℕ → Source ℕ
source_of ref score = record {
  kind = SourceKind.chunk;
  ref = ref;
  doc_id = codes "d1";
  title = codes "t";
  quote = codes "the quote";
  score = score;
  url = none;
  acl = some shared;
  metadata = [];
}

abbrev pub budget_of : ℕ → Budget ℕ
budget_of n = record {
  max_steps = n;
  max_tool_calls = 8;
  max_critique_rounds = 2;
  max_tokens = 1000;
  max_cost_usd = 100;
  max_wall_clock_seconds = 50;
}

abbrev pub find_call : ToolCall
find_call = record {
  id = codes "c1";
  name = codes "find";
  arguments = (codes "q", string (codes "x")) ∷ [];
}

abbrev pub find_schema : ToolSchema
find_schema = record {
  properties = (codes "q", codes "string" ∷ []) ∷ [];
  additional = false;
  required = codes "q" ∷ [];
}

abbrev pub find_tool : Tool ℕ ℕ
find_tool = record {
  name = codes "find";
  description = codes "finds";
  parameters = find_schema;
  requires_egress = false;
  available = λ w. true;
  run = λ arguments principal budget w. (
    ok (record {
      call_id = [];
      name = codes "other";
      ok = true;
      content = codes "found";
      sources = source_of (codes "r1") 7 ∷ [];
      error = none;
      latency_ms = 0;
    }),
    w + 1,
  );
}

abbrev pub registry : ToolRegistry ℕ ℕ
registry = record { tools = (codes "find", find_tool) ∷ []; result_cache = none }

abbrev pub wording : Wording
wording = record { of_argument_error = λ e. codes "bad"; of_exception = λ e. codes "raised" }

abbrev pub codec : Codec ℕ
codec = record {
  dumps = λ tool arguments acl version. tool;
  sha256 = λ x. x;
  dump_result = λ r. r.content;
  load_result = λ t. none;
}

abbrev pub completion_of : Text → List ToolCall → ChatCompletion ℕ
completion_of content calls = record {
  message = record {
    role = Role.assistant;
    content = content;
    name = none;
    tool_call_id = none;
    tool_calls = calls;
  };
  usage = usage;
  finish_reason = FinishReason.stop;
}

abbrev pub verdict_fields : Fields
verdict_fields =
    field (codes "sufficient") (boolean true) (field (codes "grounded") (boolean true) end)

abbrev pub critic : Critic ℕ ℕ
critic = record {
  chat = λ messages w. (ok (completion_of (codes "so: {ok}") []), w + 1);
  render = λ question draft sources. question;
  max_evidence_chars = 1000;
  show_score = λ n. [];
  loads = λ t. some (object verdict_fields);
  str_of = λ j. [];
  float_of = λ j. ok 1;
  is_nonzero = λ t. true;
}

abbrev pub fallback_answer : Answer ℕ
fallback_answer = record {
  text = codes "from the pipeline";
  citations = [];
  refused = true;
  refusal_reason = some (codes "no_retrieved_context");
  usage = usage;
  trace_id = codes "t2";
  index_version = codes "v7";
  latency_ms = 0;
  cached = false;
}

-- The planner calls the tool first, and then writes a draft that cites what the tool found.
abbrev pub runtime : AgentRuntime ℕ ℕ
runtime = record {
  model_name = codes "m";
  chat = λ messages tools w.
      (if w == 0
        then (ok (completion_of [] (find_call ∷ [])), w + 1)
        else (ok (completion_of (codes "It is so [r1].") []), w + 1));
  tools = registry;
  answer = λ question principal w. (ok fallback_answer, w + 1);
  active_index_version = λ w. codes "v7";
  pii_redaction_enabled = false;
  critic = critic;
  budget = budget_of 6;
  allow_egress = false;
  include_trace = true;
  prompt_version = codes "v1";
  max_evidence_chars = 1000;
  codec = codec;
  wording = wording;
  redact_pii = λ t. t;
  plan_prompt = λ question missing sources. question;
  perf_counter = λ w. w;
  interrupted = λ w. false;
}

abbrev pub ledger : EvidenceLedger ℕ
ledger = record {
  max_chars = 1000;
  max_quote_chars = 500;
  by_ref = (codes "r1", source_of (codes "r1") 7) ∷ [];
}

abbrev pub tracker : BudgetTracker ℕ
tracker = record {
  budget = budget_of 6;
  steps = 0;
  tool_calls = 0;
  critique_rounds = 0;
  tokens = 0;
  cost_usd = 0;
  started_at = 0;
  usage_total = usage;
}

abbrev pub turn : Turn ℕ
turn = record {
  tracker = tracker;
  ledger = ledger;
  steps = [];
  messages = [];
  self_corrections = 0;
  draft = some (codes "It is so [r1].");
  verdict = none;
  usage = usage;
}

abbrev pub asked : Request ℕ
asked = record {
  question = codes "why?";
  principal = alice;
  index_version = codes "v7";
  tool_specs = [];
  started = 0;
  trace_id = codes "t1";
}
