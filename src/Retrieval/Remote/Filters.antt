-- ===== src/Retrieval/Remote/Filters.antt =====
-- The filters that src/rag/vectordb/qdrant.py and src/rag/lexical/opensearch.py send, and what they let through.
use ai_rag.Prelude.{
  ℕ, ◌+◌, ◌≡◌, refl, sym, ◌∙◌, inl, inr, Text, List, [], ◌∷◌, ◌++◌, Bool, true, false, ◌&&◌, ◌||◌,
  Option, none, some, if◌then◌else◌, is_empty, text_eq, text_eq_iff, contains, text_lt, any, all,
  or_else, arith, Bool-cases, Option-cases, &&-true, leb,
}
use ai_rag.Prelude.Sort.{any-sort_desc}
use ai_rag.Schemas.Principal.{Principal, AclTags}
use ai_rag.Schemas.Chunk.{Chunk}
use ai_rag.Security.Acl.{is_allowed, sorted, AclFilter, for_principal}
use ai_rag.Retrieval.Store.{is_eligible, fits_version}
use ai_rag.Retrieval.Remote.{
  Payload, from_payload, Condition, tenant_is, version_is, groups_any, groups_empty, Filter, Clause,
  one, choice,
}

-- `acl.index_version` where it is not empty
unfoldable pub version_conditions : Option Text → List Condition
version_conditions none = []
version_conditions (some v) = if is_empty v then [] else version_is v ∷ []

unfoldable pub group_conditions : List Text → List Condition
group_conditions groups =
    groups_empty ∷ (if is_empty groups then [] else groups_any (sorted groups) ∷ [])

-- `QdrantVectorStore._acl_filter`
unfoldable pub qdrant_filter : AclFilter → Filter
qdrant_filter acl = record {
  must = tenant_is acl.tenant ∷ version_conditions acl.index_version;
  min_should = group_conditions acl.groups;
  min_count = 1;
}

unfoldable pub ones : List Condition → List Clause
ones [] = []
ones (c ∷ cs) = one c ∷ ones cs

-- `OpenSearchLexicalIndex._acl_filter`
unfoldable pub opensearch_filter : AclFilter → List Clause
opensearch_filter acl =
    ones (tenant_is acl.tenant ∷ version_conditions acl.index_version)
    ++ (choice (group_conditions acl.groups) 1 ∷ [])

-- The documented meaning of a condition: a keyword field equals the value, a list of keywords meets the
-- values, a field is missing or an empty list.
unfoldable pub holds : Payload → Condition → Bool
holds p (tenant_is v) = elim p.tenant [ none ↦ false | some t ↦ text_eq t v ]
holds p (version_is v) = elim p.index_version [ none ↦ false | some t ↦ text_eq t v ]
holds p (groups_any vs) = elim p.allow_groups [
  | none ↦ false
  | some gs ↦ any (λ g. contains g vs) gs
]
holds p groups_empty = elim p.allow_groups [ none ↦ true | some gs ↦ is_empty gs ]

unfoldable pub how_many : Payload → List Condition → ℕ
how_many p [] = 0
how_many p (c ∷ cs) = (if holds p c then 1 else 0) + how_many p cs

unfoldable pub passes : Filter → Payload → Bool
passes f p = all (holds p) f.must && leb f.min_count (how_many p f.min_should)

unfoldable pub clause_holds : Payload → Clause → Bool
clause_holds p (one c) = holds p c
clause_holds p (choice cs n) = leb n (how_many p cs)

unfoldable pub passes_all : List Clause → Payload → Bool
passes_all cs p = all (clause_holds p) cs

any_or : (p q : Text → Bool) (ys : List Text) → any (λ y. p y || q y) ys ≡ (any p ys || any q ys)
any_or p q [] = refl
any_or p q (y ∷ ys) = ground (arith, any_or p q ys)

any-false : (ys : List Text) → any (λ y. false) ys ≡ false
any-false [] = refl
any-false (y ∷ ys) = any-false ys

any_cong : (p q : Text → Bool) (ys : List Text) → ((y : Text) → p y ≡ q y) → any p ys ≡ any q ys
any_cong p q [] h = refl
any_cong p q (y ∷ ys) h = rw (h y, any_cong p q ys h) refl

text_eq_sym : (a b : Text) → text_eq a b ≡ text_eq b a
text_eq_sym a b = ground (arith, text_eq_iff a b, text_eq_iff b a)

contains-any : (x : Text) (ys : List Text) → contains x ys ≡ any (λ y. text_eq y x) ys
unfolding contains
contains-any x [] = refl
contains-any x (y ∷ ys) = rw (text_eq_sym x y, contains-any x ys) refl

-- Two lists share an element, whichever is searched in the other.
shared-swap : (xs ys : List Text) → any (λ x. contains x ys) xs ≡ any (λ y. contains y xs) ys
unfolding contains
shared-swap [] ys = sym (any-false ys)
shared-swap (x ∷ xs) ys =
    rw (contains-any x ys, shared-swap xs ys)
      (sym (any_or (λ y. text_eq y x) (λ y. contains y xs) ys))

any-sorted : (p : Text → Bool) (xs : List Text) → any p (sorted xs) ≡ any p xs
unfolding sorted
any-sorted p xs = any-sort_desc (λ x y. text_lt y x) p xs

contains-sorted : (x : Text) (xs : List Text) → contains x (sorted xs) ≡ contains x xs
contains-sorted x xs =
    contains-any x (sorted xs) ∙ (any-sorted (λ y. text_eq y x) xs ∙ sym (contains-any x xs))

-- The groups of the caller, sorted as the filter holds them, against the groups of a record.
meets-sorted :
    (gs groups : List Text)
    → any (λ g. contains g (sorted groups)) gs ≡ any (λ g. contains g gs) groups
meets-sorted gs groups =
    any_cong (λ g. contains g (sorted groups)) (λ g. contains g groups) gs
      (λ g. contains-sorted g groups)
    ∙ shared-swap gs groups

any_none : (xs : List Text) (p : Text → Bool) → is_empty xs ≡ true → any p xs ≡ false
any_none [] p h = refl
any_none (x ∷ xs) p h = absurd (ground (arith, h))

-- The choice of the filter is the rule of `is_allowed` on the groups that a record read back has.
group_conditions-groups :
    (p : Payload) (groups gs : List Text)
    → or_else p.allow_groups [] ≡ gs
    → leb 1 (how_many p (group_conditions groups))
      ≡ (is_empty gs || any (λ g. contains g gs) groups)
unfolding how_many group_conditions holds
group_conditions-groups p groups gs h = elim (Option-cases p.allow_groups) [
  | inl e ↦
      let same : [] ≡ gs = (rw e at h) in
      rw (sym same) (elim (Bool-cases (is_empty groups)) [
        | inl n ↦ rw (how_many, group_conditions, holds, e, n) (ground arith)
        | inr n ↦ rw (how_many, group_conditions, holds, e, n) (ground arith)
      ])
  | inr (stored, e) ↦
      let same : stored ≡ gs = (rw e at h) in
      rw (sym same) (elim (Bool-cases (is_empty groups)) [
        | inl n ↦
            rw (how_many, group_conditions, holds, e, n)
              (ground (arith, any_none groups (λ g. contains g stored) n))
        | inr n ↦
            rw (how_many, group_conditions, holds, e, n)
              (ground (arith, meets-sorted stored groups))
      ])
]

version_conditions-fits :
    (p : Payload) (v : Option Text) (iv : Text) (c : Chunk)
    → p.index_version ≡ some iv
    → c.index_version ≡ iv
    → all (holds p) (version_conditions v) ≡ fits_version v c
unfolding version_conditions holds fits_version
version_conditions-fits p none iv c h k = refl
version_conditions-fits p (some v) iv c h k = elim (Bool-cases (is_empty v)) [
  | inl e ↦ rw e refl
  | inr e ↦ rw (e, h, k) (ground arith)
]

-- The rule of `is_allowed` on a tenant and groups, in one line.
is_allowed-and :
    (principal : Principal) (acl : AclTags)
    → is_allowed principal acl ≡ (
        text_eq principal.tenant acl.tenant
        && (is_empty acl.allow_groups || any (λ g. contains g acl.allow_groups) principal.groups))
unfolding is_allowed
is_allowed-and principal acl = ground arith

-- What the filter of Qdrant asks of a record is what the search in memory asks of the chunk read back from it:
-- on a record that has a tenant and a version, the filter for a caller and a version passes exactly the chunks of the
-- version that `is_allowed` lets the caller see.
pub qdrant_filter-is_eligible :
    (principal : Principal) (version : Option Text) (id tenant iv : Text) (p : Payload)
    → p.tenant ≡ some tenant
    → p.index_version ≡ some iv
    → passes (qdrant_filter (for_principal principal version)) p
      ≡ is_eligible principal version (from_payload id p)
unfolding passes qdrant_filter for_principal is_eligible from_payload holds
qdrant_filter-is_eligible principal version id tenant iv p h k =
    let fits =
      version_conditions-fits p version iv (from_payload id p) k
        (let e : or_else p.index_version [] ≡ iv = rw k refl in e) in
    let groups = group_conditions-groups p principal.groups (or_else p.allow_groups []) refl in
    let asked : holds p (tenant_is principal.tenant) ≡ text_eq tenant principal.tenant =
      rw (holds, h) refl in
    let read : or_else p.tenant [] ≡ tenant = rw h refl in
    let allowed = is_allowed-and principal (from_payload id p).acl in
    rw
      (
        passes,
        qdrant_filter,
        for_principal,
        asked,
        fits,
        groups,
        is_eligible,
        allowed,
        from_payload,
        read,
        text_eq_sym principal.tenant tenant,
      )
      (ground arith)

version_conditions_pass :
    (p : Payload) (v : Option Text) (id : Text)
    → all (holds p) (version_conditions v) ≡ true
    → fits_version v (from_payload id p) ≡ true
unfolding version_conditions holds fits_version from_payload
version_conditions_pass p none id h = refl
version_conditions_pass p (some v) id h = elim (Bool-cases (is_empty v)) [
  | inl e ↦ rw e refl
  | inr e ↦ elim (Option-cases p.index_version) [
    | inl n ↦ absurd (ground (arith, (rw (e, holds, n) at h)))
    | inr (iv, n) ↦ rw (e, n) (ground (arith, (rw (e, holds, n) at h)))
  ]
]

-- Whatever a record holds or lacks, if the filter for a caller and a version passes it, the chunk read back from it is
-- of the version and `is_allowed` lets the caller see it.
pub qdrant_filter-safe :
    (principal : Principal) (version : Option Text) (id : Text) (p : Payload)
    → passes (qdrant_filter (for_principal principal version)) p ≡ true
    → is_eligible principal version (from_payload id p) ≡ true
unfolding passes qdrant_filter for_principal is_eligible from_payload holds
qdrant_filter-safe principal version id p h = elim (Option-cases p.tenant) [
  | inl n ↦ absurd (ground (arith, (rw (passes, qdrant_filter, for_principal, holds, n) at h)))
  | inr (tenant, n) ↦
      let asked : holds p (tenant_is principal.tenant) ≡ text_eq tenant principal.tenant =
        rw (holds, n) refl in
      let groups = group_conditions-groups p principal.groups (or_else p.allow_groups []) refl in
      let read : or_else p.tenant [] ≡ tenant = rw n refl in
      let parts = (rw (passes, qdrant_filter, for_principal, asked, groups) at h) in
      let (matched, visible) =
        &&-true _
          (is_empty (or_else p.allow_groups [])
            || any (λ g. contains g (or_else p.allow_groups [])) principal.groups)
          parts in
      let (mine, fits) = &&-true (text_eq tenant principal.tenant) _ matched in
      let fit = version_conditions_pass p version id fits in
      rw (is_eligible, fit, is_allowed-and, from_payload, read, text_eq_sym principal.tenant tenant)
        (ground (arith, mine, visible))
]

all-ones :
    (p : Payload) (cs : List Condition) (last : Clause)
    → all (clause_holds p) (ones cs ++ (last ∷ [])) ≡ (all (holds p) cs && clause_holds p last)
unfolding ones clause_holds
all-ones p [] last = ground arith
all-ones p (c ∷ cs) last = ground (arith, all-ones p cs last)

-- The two query languages are sent the same filter.
pub opensearch_filter-qdrant_filter :
    (acl : AclFilter) (p : Payload)
    → passes_all (opensearch_filter acl) p ≡ passes (qdrant_filter acl) p
unfolding passes_all opensearch_filter passes qdrant_filter clause_holds
opensearch_filter-qdrant_filter acl p = all-ones p _ _
