-- ===== src/Generation/Grounded.antt =====
-- src/rag/generation/refusal.py and grounded.py: when to refuse, and the single-pass answer. The LLM,
-- the prompt template, the format `.4f` and the redaction of personal data are arguments; metrics
-- and traces are left out.
pub mod Refusals
use ai_rag.Prelude.{
  ℕ, Text, List, [], ◌∷◌, ◌++◌, map, Bool, true, false, ◌&&◌, ◌||◌, Option, none, some,
  if◌then◌else◌, is_empty, codes, join, text_eq, or_else,
}
use ai_rag.Prelude.Number.{Float}
use ai_rag.Prelude.Result.{Result, ok, raise, Call}
use ai_rag.Schemas.Answer.{Citation, Usage, blank_usage, Answer}
use ai_rag.Schemas.Chunk.{ScoredChunk}
use ai_rag.Generation.Citations.{resolve_citations}

abbrev pub no_retrieved_context : Text
no_retrieved_context = codes "no_retrieved_context"

abbrev pub low_confidence_score : Text
low_confidence_score = codes "low_confidence_score"

abbrev pub zero_resolvable_citations : Text
zero_resolvable_citations = codes "zero_resolvable_citations"

abbrev pub refusal_text : Text
refusal_text = codes "I don't know based on the available documents."

module _ {F : Type 0} ⦃fl : Float F⦄ where
  unfoldable pub should_refuse :
      List (ScoredChunk F) → List (Citation F) → (score_threshold : F) → Bool × Option Text
  should_refuse [] citations score_threshold = (true, some no_retrieved_context)
  should_refuse (top ∷ rest) citations score_threshold =
      if fl.lt top.score score_threshold
      then (true, some low_confidence_score)
      else if is_empty citations
      then (true, some zero_resolvable_citations)
      else (false, none)

  unfoldable pub refused_answer : (reason : Text) → Usage F → (trace_id : Text) → Answer F
  refused_answer reason usage trace_id = record {
    text = refusal_text;
    citations = [];
    refused = true;
    refusal_reason = some reason;
    usage = usage;
    trace_id = trace_id;
    index_version = [];
    latency_ms = fl.of_nat 0;
    cached = false;
  }

-- The early refusal, before a token is spent, and its reason.
unfoldable pub refuse_early : Bool × Option Text → Option Text
refuse_early (refuse, reason) =
    let why = or_else reason [] in
    if refuse && (text_eq why no_retrieved_context || text_eq why low_confidence_score)
    then some why
    else none

-- What `generate_grounded` takes from its surroundings.
pub record Generator (F W : Type 0) : Type 0 where
  -- `llm.model_name` and `llm.complete`
  pub model_name : Text
  pub complete : Text → Call W (Text × Usage F)
  -- `get_prompt(…).render(question, context, prompt_version)`
  pub render : Text → Text → Text → Text
  pub show_score : F → Text
  pub redact_pii : Text → Text

unfoldable pub format_context : {F : Type 0} → (F → Text) → List (ScoredChunk F) → Text
format_context show_score scored = join (codes "\n\n") (
    map
      (λ s.
        codes "[chunk_id="
        ++ (s.chunk.chunk_id
            ++ (codes "] doc="
                ++ (s.chunk.doc_id
                    ++ (codes " score=" ++ (show_score s.score ++ (codes "\n" ++ s.chunk.text)))))))
      scored)

module _ {F W : Type 0} ⦃fl : Float F⦄ (g : Generator F W) where
  -- The part after the call of the LLM.
  unfoldable pub ground_reply :
      List (ScoredChunk F)
      → (score_threshold : F) → (prompt_version : Text) → (redact : Bool) → (trace_id : Text)
      → Text × Usage F
      → Answer F
  ground_reply scored score_threshold prompt_version redact trace_id (raw_text, raw_usage) =
      let usage = record raw_usage { prompt_version = prompt_version } in
      let text = if redact then g.redact_pii raw_text else raw_text in
      let citations = resolve_citations text scored in
      let (refuse, reason) = should_refuse scored citations score_threshold in
      if refuse then refused_answer (or_else reason (codes "unknown")) usage trace_id else record {
        text = text;
        citations = citations;
        refused = false;
        refusal_reason = none;
        usage = usage;
        trace_id = trace_id;
        index_version = [];
        latency_ms = fl.of_nat 0;
        cached = false;
      }

  unfoldable pub generate_grounded :
      (question : Text)
      → List (ScoredChunk F)
      → (score_threshold : F) → (prompt_version : Text) → (redact : Bool) → (trace_id : Text)
      → Call W (Answer F)
  generate_grounded question scored score_threshold prompt_version redact trace_id w =
      elim (refuse_early (should_refuse scored [] score_threshold)) [
        | some reason ↦
            (ok (refused_answer reason (blank_usage g.model_name prompt_version) trace_id), w)
        | none ↦
            let prompt = g.render question (format_context g.show_score scored) prompt_version in
            let (reply, w') = g.complete prompt w in
            elim reply [
              | ok r ↦
                  (ok (ground_reply scored score_threshold prompt_version redact trace_id r), w')
              | raise e ↦ (raise e, w')
            ]
      ]
