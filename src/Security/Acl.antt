-- ===== src/Security/Acl.antt =====
-- src/rag/security/acl.py: who may see a document, and the cache scope of a caller; and the filter
-- description of src/rag/retrieval/filters.py.
use ai_rag.Prelude.{
  Text, List, ◌++◌, Option, Bool, true, false, not, any, is_empty, text_eq, text_lt, contains, join,
  codes, if◌then◌else◌,
}
use ai_rag.Prelude.Sort.{sort_desc}
use ai_rag.Schemas.Principal.{Principal, AclTags}

unfoldable pub is_allowed : Principal → AclTags → Bool
is_allowed principal acl =
    if not (text_eq principal.tenant acl.tenant)
    then false
    else if is_empty acl.allow_groups
    then true
    else any (λ g. contains g acl.allow_groups) principal.groups

-- `sorted(texts)`
unfoldable pub sorted : List Text → List Text
unfolding sort_desc text_lt
sorted = sort_desc (λ x y. text_lt y x)

unfoldable pub acl_fingerprint : Principal → Text
unfolding sorted join
acl_fingerprint principal =
    principal.tenant ++ (codes "|" ++ join (codes ",") (sorted principal.groups))

-- `AclTags.fingerprint`
unfoldable pub fingerprint : AclTags → Text
unfolding sorted join
fingerprint self =
    self.tenant
    ++ (codes "|"
        ++ (join (codes ",") (sorted self.allow_groups) ++ (codes "|" ++ self.classification)))

pub record AclFilter : Type 0 where
  pub tenant : Text
  pub groups : List Text
  pub fingerprint : Text
  pub index_version : Option Text

unfoldable pub for_principal : Principal → Option Text → AclFilter
for_principal principal index_version = record {
  tenant = principal.tenant;
  groups = principal.groups;
  fingerprint = acl_fingerprint principal;
  index_version = index_version;
}
