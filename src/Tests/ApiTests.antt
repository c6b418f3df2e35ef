-- ===== src/Tests/ApiTests.antt =====
-- The query endpoint and the authenticators at sample data.
use ai_rag.Prelude.{
  ℕ, ◌≡◌, refl, Text, List, [], ◌∷◌, Bool, true, false, none, some, codes, In, arith, text_eq,
  text_eq_iff, lstrip, is_space, strip, rstrip, lower,
}
use ai_rag.Prelude.Number.{whole}
use ai_rag.Prelude.Result.{Result, ok}
use ai_rag.Schemas.Principal.{Principal}
use ai_rag.Security.Auth.{
  Credentials, IsExact, authenticate, build_authenticator, bearer_token, cut_word, find_token,
  build_authenticator-In,
}
use ai_rag.Api.Query.{QueryRequest, AppState}
use ai_rag.Tests.Samples.{alice, budget_of, runtime}
use ai_rag.Tests.PipelineTests.{pipeline}

abbrev state : AppState ℕ ℕ
state = record {
  agent = runtime;
  pipeline = pipeline;
  agent_budget = budget_of 4;
  with_agent = λ fields. [];
  show_float = λ n. [];
  dump_agent = λ a. a.text;
  load_agent = λ t. none;
}

abbrev body : QueryRequest ℕ
body = record {
  query = codes "why?";
  max_steps = some 30;
  max_tool_calls = none;
  max_critique_rounds = none;
  max_tokens = none;
  max_cost_usd = none;
  max_wall_clock_seconds = none;
}

abbrev compare : Text → Text → Result Bool
compare x y = ok (text_eq x y)

compare-IsExact : IsExact compare
unfolding IsExact
compare-IsExact x y h = (text_eq_iff x y).0 (ground arith)

abbrev given : Credentials
given = record {
  authorization = some (codes "Bearer abc");
  tenant = some (codes "other");
  groups = some (codes "admin");
  subject = none;
}

abbrev tokens : List (Text × Principal)
tokens = (codes "xyz", record alice { subject = codes "x" }) ∷ (codes "abc", alice) ∷ []

let_in :
    authenticate compare (build_authenticator (some tokens) false true (codes "default")) given
    ≡ ok alice
unfolding authenticate build_authenticator bearer_token cut_word lstrip is_space strip rstrip lower
    text_eq find_token
let_in = refl

build_authenticator-In_example :
    (token : Text) × (bearer_token given.authorization ≡ some token) × In (token, alice) tokens
build_authenticator-In_example =
    build_authenticator-In compare compare-IsExact (some tokens) (codes "default") given alice
      let_in
