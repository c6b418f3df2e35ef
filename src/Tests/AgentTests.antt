-- ===== src/Tests/AgentTests.antt =====
-- The theorems on the agent's turns at a sample runtime.
use ai_rag.Prelude.{ℕ, ◌≡◌, refl, [], ◌&&◌, contains, true, none, some, codes, text_eq}
use ai_rag.Prelude.Number.{whole}
use ai_rag.Prelude.Result.{Result, ok}
use ai_rag.Schemas.Agent.{AgentAnswer, Verdict}
use ai_rag.Security.Acl.{is_allowed}
use ai_rag.Agent.Critic.{
  from_brace, to_brace, truthy, parse_verdict, verdict_of, search_json, get_field, list_of,
  confidence_of,
}
use ai_rag.Agent.Critic.Approval.{Approves, parse_verdict-Approves}
use ai_rag.Agent.Runtime.Loop.{Progress, run, round, request}
use ai_rag.Agent.Runtime.Answering.{may_see}
use ai_rag.Agent.Runtime.Access.{Private, HonestOutcome, EndsWith, round-Private, run-IsHonest}
use ai_rag.Tests.Samples.{alice, source_of, critic, runtime, turn, asked}

run-IsHonest_example :
    (r : Result (AgentAnswer ℕ)) × (w' : ℕ) × (p : Progress ℕ ℕ) × (run runtime
        (codes "why?")
        alice
        none
        (codes "t1")
        0
      ≡ some (r, w'))
    × EndsWith runtime (codes "why?") alice none (codes "t1") 0 p
    × HonestOutcome runtime (request runtime (codes "why?") alice (codes "t1") 0) p r
run-IsHonest_example = run-IsHonest runtime (codes "why?") alice none (codes "t1") 0

alice_sees : may_see alice (source_of (codes "r1") 7) ≡ true
unfolding may_see is_allowed text_eq contains
alice_sees = refl

round-Private_example : Private runtime asked (round runtime asked turn 1)
round-Private_example = round-Private runtime asked turn 1 (alice_sees, tt)

verdict : Verdict ℕ
verdict = record { sufficient = true; grounded = true; reasons = []; missing = []; confidence = 0 }

parsed : parse_verdict critic (codes "so: {ok}") ≡ ok verdict
unfolding parse_verdict search_json from_brace to_brace verdict_of get_field truthy list_of
    confidence_of text_eq verdict
parsed = refl

approved : verdict.sufficient && verdict.grounded ≡ true
unfolding verdict
approved = refl

parse_verdict-Approves_example : Approves critic (codes "so: {ok}")
parse_verdict-Approves_example =
    parse_verdict-Approves critic (codes "so: {ok}") verdict parsed approved
