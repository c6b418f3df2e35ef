-- ===== src/Security/Auth.antt =====
-- src/rag/security/auth.py: from the credentials of a request to a principal. `hmac.compare_digest` is an argument:
-- it may raise. Reading the file of tokens, and logs, are left out.
use ai_rag.Prelude.{
  Text, List, [], ◌∷◌, ◌++◌, ◌≡◌, Bool, true, false, Option, none, some, arith, if◌then◌else◌,
  codes, is_empty, is_space, strip, lstrip, lower, text_eq, contains, not, or_else, Option-cases,
  ◌==◌, In, inl, inr, Bool-cases,
}
use ai_rag.Prelude.Result.{Raised, exception, Result, ok, raise, Result-cases}
use ai_rag.Schemas.Principal.{Principal}

pub record Credentials : Type 0 where
  pub authorization : Option Text
  pub tenant : Option Text
  pub groups : Option Text
  pub subject : Option Text

-- `text.split(",")`
unfoldable pub split_commas : Text → Text → List Text
split_commas word [] = word ∷ []
split_commas word (c ∷ text) =
    let same = split_commas (word ++ (c ∷ [])) text in
    let next = split_commas [] text in if c == b',' then word ∷ next else same

-- The parts that are not blank, stripped, each once.
unfoldable pub groups_of : List Text → List Text
groups_of [] = []
groups_of (part ∷ parts) =
    let rest = groups_of parts in
    if is_empty (strip part)
    then rest
    else if contains (strip part) rest
    then rest
    else strip part ∷ rest

unfoldable pub parse_groups : Option Text → (default : List Text) → List Text
parse_groups none default = default
parse_groups (some raw) default = if is_empty raw then default else groups_of (split_commas [] raw)

-- The first word, and what follows it.
unfoldable pub cut_word : Text → Text × Text
cut_word [] = ([], [])
cut_word (c ∷ text) =
    let rest = cut_word text in if is_space c then ([], c ∷ text) else (c ∷ rest.0, rest.1)

-- `_bearer_token`, with `authorization.split(None, 1)` written out
unfoldable pub bearer_token : Option Text → Option Text
bearer_token none = none
bearer_token (some authorization) =
    let (word, rest) = cut_word (lstrip authorization) in
    if is_empty (lstrip rest)
    then none
    else if text_eq (lower word) (codes "bearer")
    then some (strip rest)
    else none

-- `AuthError(reason)`
abbrev pub auth_error : Text → Raised
auth_error = exception

pub data Authenticator : Type 0 where
  trusted_header : (default_tenant : Text) → Authenticator
  static_token : (principals : List (Text × Principal)) → Authenticator
  deny_all : Authenticator
  anonymous : (tenant : Text) → Authenticator

-- `a or b`
unfoldable pub or_else_text : Option Text → Text → Text
or_else_text none other = other
or_else_text (some t) other = if is_empty t then other else t

module _ (compare_digest : Text → Text → Result Bool) where
  -- The loop over the known tokens.
  unfoldable pub find_token : Text → List (Text × Principal) → Result Principal
  find_token token [] = raise (auth_error (codes "invalid_token"))
  find_token token ((known, principal) ∷ rest) = elim (compare_digest token known) [
    | raise e ↦ raise e
    | ok same ↦ if same then ok principal else find_token token rest
  ]

  unfoldable pub authenticate : Authenticator → Credentials → Result Principal
  authenticate (trusted_header default_tenant) c = ok (record {
    subject =
        or_else_text c.subject (or_else_text (bearer_token c.authorization) (codes "anonymous"));
    groups = parse_groups c.groups (codes "public" ∷ []);
    tenant = or_else_text c.tenant default_tenant;
  })
  authenticate (static_token principals) c = elim (bearer_token c.authorization) [
    | none ↦ raise (auth_error (codes "missing_bearer_token"))
    | some token ↦
        if is_empty token
        then raise (auth_error (codes "missing_bearer_token"))
        else find_token token principals
  ]
  authenticate deny_all c = raise (auth_error (codes "no_authenticator_configured"))
  authenticate (anonymous tenant) c =
      ok (record { subject = codes "anonymous"; groups = codes "public" ∷ []; tenant = tenant })

-- `build_authenticator`, with the tokens of the file where there is one
unfoldable pub build_authenticator :
    (tokens : Option (List (Text × Principal)))
    → (auth_trust_headers auth_required : Bool) → (default_tenant : Text) → Authenticator
build_authenticator (some tokens) auth_trust_headers auth_required default_tenant =
    static_token tokens
build_authenticator none auth_trust_headers auth_required default_tenant =
    if auth_trust_headers
    then trusted_header default_tenant
    else if not auth_required
    then anonymous default_tenant
    else deny_all

-- What is assumed of `hmac.compare_digest`: it tells the two texts equal only where they are.
unfoldable pub IsExact : (Text → Text → Result Bool) → Type 0
IsExact compare = (x y : Text) → compare x y ≡ ok true → x ≡ y

module _ (compare_digest : Text → Text → Result Bool) (exact : IsExact compare_digest) where
  find_token-In :
      (token : Text) (tokens : List (Text × Principal)) (p : Principal)
      → find_token compare_digest token tokens ≡ ok p
      → In (token, p) tokens
  unfolding find_token IsExact
  find_token-In token [] p h = absurd (ground arith)
  find_token-In token ((known, q) ∷ rest) p h = elim (Result-cases (compare_digest token known)) [
    | inr (e, x) ↦ absurd (ground arith)
    | inl (true, x) ↦
        let same : token ≡ known = exact token known x in let found : q ≡ p = ground arith in inl cc
    | inl (false, x) ↦ inr (find_token-In token rest p (rw (x, find_token) at h))
  ]

  -- Where authentication is required and headers are not trusted, a request is let in only with a
  -- bearer token of the file, as the principal the file gives to that token: the tenant, the groups and the
  -- subject that the request names count for nothing.
  pub build_authenticator-In :
      (tokens : Option (List (Text × Principal))) (tenant : Text) (c : Credentials) (p : Principal)
      → authenticate compare_digest (build_authenticator tokens false true tenant) c ≡ ok p
      → (token : Text) × (bearer_token c.authorization ≡ some token)
        × In (token, p) (or_else tokens [])
  unfolding build_authenticator authenticate
  build_authenticator-In none tenant c p h = absurd (ground arith)
  build_authenticator-In (some tokens) tenant c p h =
      elim (Option-cases (bearer_token c.authorization)) [
        | inl e ↦ absurd (ground arith)
        | inr (token, e) ↦ elim (Bool-cases (is_empty token)) [
          | inl blank ↦ absurd (ground arith)
          | inr full ↦ (token, e, find_token-In token tokens p (ground arith))
        ]
      ]
