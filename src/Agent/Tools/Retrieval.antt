-- ===== src/Agent/Tools/Retrieval.antt =====
-- The tools of src/rag/agent/tools/retrieval.py and stubs.py. The format `.4f` and the time of the call are arguments.
use ai_rag.Prelude.{
  ℕ, ◌≡◌, ◌≤◌, refl, sym, zero, suc, Text, List, [], ◌∷◌, ◌++◌, map, Bool, true, false, Option,
  none, some, if◌then◌else◌, codes, is_empty, join, keep, take, min, max, length, arith, All,
  length-take-le, inl, inr, Bool-cases,
}
use ai_rag.Prelude.Number.{Float}
use ai_rag.Prelude.Dict.{Dict, lookup}
use ai_rag.Prelude.Result.{key_error, exception, Result, ◌>>=◌, bind_ok, ok, raise, Call}
use ai_rag.Schemas.Principal.{Principal}
use ai_rag.Schemas.Answer.{Source}
use ai_rag.Schemas.Chunk.{ScoredChunk}
use ai_rag.Schemas.Agent.{
  ℤ, pos, negsuc, Json, string, integer, null, boolean, number, array, object, ToolSchema,
  ToolResult,
}
use ai_rag.Security.Acl.{is_allowed}
use ai_rag.Generation.Citations.{source_from_scored}
use ai_rag.Pipelines.Online.{OnlinePipeline}
use ai_rag.Pipelines.Serving.{retrieve_only}
use ai_rag.Agent.Budget.{BudgetTracker}
use ai_rag.Agent.Tools.Registry.{Tool}

-- `max(1, min(top_k, 20))`, where `top_k` is `int(arguments.get("top_k") or default)`
unfoldable pub clamped : ℤ → ℕ
clamped (pos n) = max 1 (min n 20)
clamped (negsuc n) = 1

-- For nothing, zero and an integer, which are the values that pass the schema below; of any other value, which `admit`
-- refuses, `int` would make a number or an exception, and the default stands for it here.
unfoldable pub top_k_of : (default : ℕ) → Option Json → ℕ
unfolding clamped
top_k_of default (some (integer (pos zero))) = clamped (pos default)
top_k_of default (some (integer n)) = clamped n
top_k_of default _ = clamped (pos default)

-- `str(arguments["query"])`; `to_text` is `str` of a value that is no text.
unfoldable pub query_of : (to_text : Json → Text) → Option Json → Result Text
query_of to_text none = raise (key_error (codes "query"))
query_of to_text (some (string text)) = ok text
query_of to_text (some other) = ok (to_text other)

abbrev pub retrieval_schema : ToolSchema
retrieval_schema = record {
  properties = (codes "query", codes "string" ∷ []) ∷ (codes "top_k", codes "integer" ∷ []) ∷ [];
  additional = false;
  required = codes "query" ∷ [];
}

-- What the tool takes from its surroundings: `str`, the format of a score, and the milliseconds of a call.
pub record Surroundings (F W : Type 0) : Type 0 where
  pub to_text : Json → Text
  pub show_score : F → Text
  pub latency : W → F

module _ {F W : Type 0} ⦃fl : Float F⦄ (pipeline : OnlinePipeline F W)
    (outer : Surroundings F W) where
  unfoldable pub line_of : Source F → Text
  line_of src =
      codes "["
      ++ (src.ref
          ++ (codes "] score="
              ++ (outer.show_score src.score
                  ++ (codes " doc=" ++ (src.doc_id ++ (10 ∷ src.quote))))))

  -- The sources of the results, checked once more.
  unfoldable pub sources_of : Principal → (top_k : ℕ) → List (ScoredChunk F) → List (Source F)
  sources_of principal top_k results =
      map source_from_scored (keep (λ s. is_allowed principal s.chunk.acl) (take top_k results))

  unfoldable pub result_of : List (Source F) → W → ToolResult F
  result_of sources w = record {
    call_id = [];
    name = codes "retrieval_search";
    ok = true;
    content =
        if is_empty sources
        then codes "No authorised passages found."
        else join (10 ∷ 10 ∷ []) (map line_of sources);
    sources = sources;
    error = none;
    latency_ms = outer.latency w;
  }

  -- `RetrievalTool.run`
  unfoldable pub run : Dict Json → Principal → BudgetTracker F → Call W (ToolResult F)
  run arguments principal budget w =
      let top_k = top_k_of pipeline.config.top_k (lookup (codes "top_k") arguments) in
      (
        query_of outer.to_text (lookup (codes "query") arguments) >>= (λ query.
            retrieve_only pipeline query principal w
            >>= (λ results. ok (result_of (sources_of principal top_k results) w))),
        w,
      )

  unfoldable pub retrieval_tool : Tool F W
  retrieval_tool = record {
    name = codes "retrieval_search";
    description =
        codes "Search the indexed corpus with hybrid dense+lexical retrieval. "
        ++ (codes "Use for factual questions about internal documents. "
            ++ codes "Returns passages the caller is allowed to see.");
    parameters = retrieval_schema;
    requires_egress = false;
    available = λ w. true;
    run = run;
  }

  -- The source of a passage that the principal may see.
  abbrev pub IsPassage : Principal → Source F → Type 0
  IsPassage principal src =
      (s : ScoredChunk F) × (is_allowed principal s.chunk.acl ≡ true) × (src ≡ source_from_scored s)

  kept-IsPassage :
      (principal : Principal) (xs : List (ScoredChunk F))
      → All
          (IsPassage principal)
          (map source_from_scored (keep (λ s. is_allowed principal s.chunk.acl) xs))
  kept-IsPassage principal [] = tt
  kept-IsPassage principal (x ∷ xs) = elim (Bool-cases (is_allowed principal x.chunk.acl)) [
    | inl e ↦ rw e ((x, e, refl), kept-IsPassage principal xs)
    | inr e ↦ rw e (kept-IsPassage principal xs)
  ]

  length-kept-le :
      (principal : Principal) (xs : List (ScoredChunk F))
      → length (map source_from_scored (keep (λ s. is_allowed principal s.chunk.acl) xs))
        ≤ length xs
  length-kept-le principal [] = omega arith
  length-kept-le principal (x ∷ xs) = ground (arith, length-kept-le principal xs)

  clamped_le : (n : ℤ) → clamped n ≤ 20
  unfolding clamped
  clamped_le (pos n) = omega arith
  clamped_le (negsuc n) = omega arith

  top_k_of_le : (default : ℕ) (asked : Option Json) → top_k_of default asked ≤ 20
  unfolding top_k_of
  top_k_of_le default none = clamped_le (pos default)
  top_k_of_le default (some null) = clamped_le (pos default)
  top_k_of_le default (some (boolean b)) = clamped_le (pos default)
  top_k_of_le default (some (number t)) = clamped_le (pos default)
  top_k_of_le default (some (string t)) = clamped_le (pos default)
  top_k_of_le default (some (array i)) = clamped_le (pos default)
  top_k_of_le default (some (object f)) = clamped_le (pos default)
  top_k_of_le default (some (integer (pos zero))) = clamped_le (pos default)
  top_k_of_le default (some (integer (pos (suc n)))) = clamped_le (pos (suc n))
  top_k_of_le default (some (integer (negsuc n))) = clamped_le (negsuc n)

  -- Whatever the pipeline retrieves and whatever number is asked for, a result of the retrieval tool has at most 20 sources,
  -- and each is that of a passage the principal may see.
  pub run-IsPassage :
      (arguments : Dict Json) (principal : Principal) (budget : BudgetTracker F) (w : W)
      (result : ToolResult F)
      → (run arguments principal budget w).0 ≡ ok result
      → All (IsPassage principal) result.sources × (length result.sources ≤ 20)
  unfolding run sources_of result_of
  run-IsPassage arguments principal budget w result h =
      let top_k : ℕ = top_k_of pipeline.config.top_k (lookup (codes "top_k") arguments) in
      let (query, q, rest) =
        bind_ok (query_of outer.to_text (lookup (codes "query") arguments)) _ result h in
      let (results, r, made) = bind_ok (retrieve_only pipeline query principal w) _ result rest in
      let same : result_of (sources_of principal top_k results) w ≡ result = ground (arith, made) in
      rw (sym same) (
        kept-IsPassage principal (take top_k results),
        omega (
          arith,
          length-kept-le principal (take top_k results),
          length-take-le top_k results,
          top_k_of_le pipeline.config.top_k (lookup (codes "top_k") arguments),
        ),
      )

-- The tools of stubs.py: declared, never available, and raising if they are called all the same.
unfoldable pub missing_backend :
    {F W : Type 0} → (name description : Text) → (egress : Bool) → ToolSchema → Tool F W
missing_backend name description egress schema = record {
  name = name;
  description = description;
  parameters = schema;
  requires_egress = egress;
  available = λ w. false;
  run = λ arguments principal budget w. (raise (exception (codes "MissingBackendError")), w);
}

unfoldable pub web_search_tool : {F W : Type 0} → Tool F W
web_search_tool =
    missing_backend (codes "web_search")
      (codes "Search the public web for up-to-date information not in the corpus. "
        ++ codes "Requires egress permission.")
      true
      (record {
        properties =
            (codes "query", codes "string" ∷ []) ∷ (codes "max_results", codes "integer" ∷ []) ∷ [];
        additional = false;
        required = codes "query" ∷ [];
      })

unfoldable pub graph_query_tool : {F W : Type 0} → Tool F W
graph_query_tool =
    missing_backend (codes "graph_query")
      (codes "Query the knowledge graph for entities and relations.") false
      (record {
        properties = (codes "query", codes "string" ∷ []) ∷ [];
        additional = false;
        required = codes "query" ∷ [];
      })
