-- ===== src/Query/Route.antt =====
-- src/rag/query/route.py: the route of a question.
use ai_rag.Prelude.{
  Text, List, [], ◌∷◌, Bool, true, false, not, ◌||◌, if◌then◌else◌, codes, any, contains,
  starts_with, is_within, lower, strip, is_empty,
}

pub data QueryRoute : Type 0 where
  factual procedural complex chitchat refuse : QueryRoute

pub data QueryMode : Type 0 where
  auto fast agent : QueryMode

abbrev pub complex_markers : List Text
complex_markers =
    codes "compare"
    ∷ codes "comparison"
    ∷ codes "versus"
    ∷ codes " vs "
    ∷ codes "vs."
    ∷ codes "difference between"
    ∷ codes "differences between"
    ∷ codes "both "
    ∷ codes "relate"
    ∷ codes "relationship between"
    ∷ codes "how does"
    ∷ codes "how do "
    ∷ codes "multi-hop"
    ∷ codes "and also"
    ∷ codes "on the other hand"
    ∷ codes "pros and cons"
    ∷ codes "trade-off"
    ∷ codes "tradeoff"
    ∷ []

abbrev pub procedural_markers : List Text
procedural_markers = codes "how do i" ∷ codes "how to" ∷ codes "steps to" ∷ codes "procedure" ∷ []

abbrev pub greetings : List Text
greetings = codes "hi" ∷ codes "hello" ∷ codes "hey" ∷ codes "thanks" ∷ codes "thank you" ∷ []

abbrev pub openings : List Text
openings = codes "hi " ∷ codes "hello " ∷ codes "hey " ∷ []

unfoldable pub route_query : Text → QueryRoute
route_query query =
    let q = strip (lower query) in
    if is_empty q
    then refuse
    else if contains q greetings || any (λ o. starts_with q o) openings
    then chitchat
    else if any (λ m. is_within m q) complex_markers
    then complex
    else if any (λ m. is_within m q) procedural_markers
    then procedural
    else factual

abbrev is_complex : QueryRoute → Bool
is_complex complex = true
is_complex _ = false

unfoldable pub should_use_agent : (query : Text) → QueryMode → (agent_enabled : Bool) → Bool
should_use_agent query mode agent_enabled =
    if not agent_enabled
    then false
    else elim mode [ fast ↦ false | agent ↦ true | auto ↦ is_complex (route_query query) ]
