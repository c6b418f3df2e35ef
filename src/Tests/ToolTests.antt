-- ===== src/Tests/ToolTests.antt =====
-- The theorems on access scopes and tools at the sample caller and registry.

use ai_rag.Prelude.{◌≡◌, refl, [], ◌∷◌, true, false, codes, text_eq, contains}
use ai_rag.Prelude.Number.{whole}
use ai_rag.Prelude.Dict.{lookup}
use ai_rag.Schemas.Principal.{Principal, AclTags}
use ai_rag.Schemas.Agent.{ToolCall}
use ai_rag.Security.Acl.{is_allowed, acl_fingerprint}
use ai_rag.Security.Reach.{IsSeparable, fingerprint-isolation, fingerprint_collision}
use ai_rag.Agent.Tools.Arguments.{IsValid, matches_type, expected_of}
use ai_rag.Agent.Tools.Registry.{admit, admitted, refused, execute}
use ai_rag.Agent.Tools.Registry.{admit, admitted}
use ai_rag.Agent.Tools.Registry.Gates.{
  admit_of_Passes, Passes, admit-Passes, admit_of_Passes, execute-identity,
}
use ai_rag.Tests.Samples.{
  alice, shared, registry, codec, wording, find_call, find_schema, find_tool, tracker,
}

alice-IsSeparable : IsSeparable alice
alice-IsSeparable = record {
  tenant = (refl, (refl, (refl, (refl, tt))));
  groups = ((refl, (refl, (refl, tt))), tt);
}

-- Another caller of the same tenant and group.
abbrev carol : Principal
carol = record alice { subject = codes "carol" }

carol-IsSeparable : IsSeparable carol
carol-IsSeparable = record {
  tenant = (refl, (refl, (refl, (refl, tt))));
  groups = ((refl, (refl, (refl, tt))), tt);
}

one_scope : acl_fingerprint alice ≡ acl_fingerprint carol
unfolding acl_fingerprint
one_scope = refl

fingerprint-isolation_example : is_allowed alice shared ≡ is_allowed carol shared
fingerprint-isolation_example =
    fingerprint-isolation alice carol alice-IsSeparable carol-IsSeparable one_scope shared

abbrev mixed : Principal
mixed = record {
  subject = codes "mixed";
  groups = codes "b" ∷ codes "a" ∷ [];
  tenant = codes "acme";
}

abbrev sorted_mixed : Principal
sorted_mixed = record {
  subject = codes "other";
  groups = codes "a" ∷ codes "b" ∷ [];
  tenant = codes "acme";
}

find-IsValid : IsValid find_schema find_call.arguments
unfolding lookup text_eq matches_type expected_of contains
find-IsValid = record { declared = λ closed. (refl, tt); complete = (refl, tt); typed = (refl, tt) }

find-Passes : Passes wording registry find_call false 0 find_tool
unfolding lookup text_eq
find-Passes = record { registered = refl; cleared = refl; up = refl; meets = find-IsValid }

find_admitted : admit wording registry find_call false 0 ≡ admitted find_tool find_call.arguments
find_admitted = admit_of_Passes wording registry find_call false 0 find_tool find-Passes

admit-Passes_example :
    Passes wording registry find_call false 0 find_tool
    × (find_call.arguments ≡ find_call.arguments)
admit-Passes_example =
    admit-Passes wording registry find_call false 0 find_tool find_call.arguments find_admitted

execute-identity_example :
    ((execute codec wording registry find_call alice tracker false (codes "v7") 0).0.call_id
      ≡ codes "c1")
    × ((execute codec wording registry find_call alice tracker false (codes "v7") 0).0.name
        ≡ codes "find")
execute-identity_example =
    execute-identity codec wording registry find_call alice tracker false (codes "v7") 0

abbrev unknown_call : ToolCall
unknown_call = record find_call { name = codes "drop" }

unknown_refused : admit wording registry unknown_call false 0 ≡ refused (codes "unknown_tool:drop")
unfolding admit lookup text_eq
unknown_refused = refl

-- The tenant `acme|x` without groups, and the tenant `acme` with the group `x|`.
abbrev outsider : Principal
outsider = record { subject = codes "o"; groups = []; tenant = codes "acme|x" }

abbrev insider : Principal
insider = record { subject = codes "i"; groups = codes "x|" ∷ []; tenant = codes "acme" }

fingerprint_collision_example :
    (acl_fingerprint outsider ≡ acl_fingerprint insider)
    × ((acl : AclTags) × (is_allowed outsider acl ≡ true) × (is_allowed insider acl ≡ false))
fingerprint_collision_example = fingerprint_collision outsider insider (codes "x") refl refl refl
