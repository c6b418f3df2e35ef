-- ===== src/Cache/Keys.antt =====
-- src/rag/cache/keys.py: the keys of the answer cache. `json.dumps` and SHA-256 are arguments.
use ai_rag.Prelude.{
  ◌==◌, Text, List, [], ◌∷◌, ◌++◌, ◌≡◌, Bool, true, false, Option, arith, if◌then◌else◌, codes,
  strip, lower, is_space, or_else, All,
}
use ai_rag.Schemas.Principal.{Principal, AclTags}
use ai_rag.Schemas.Agent.{Json}
use ai_rag.Security.Acl.{acl_fingerprint, is_allowed}
use ai_rag.Security.Reach.{IsSeparable, fingerprint-isolation}

-- `re.sub(r"\s+", " ", text)`; `gap` tells whether the last character was a space.
collapse : Bool → Text → Text
collapse gap [] = []
collapse gap (c ∷ text) =
    let plain = collapse false text in
    let blank = collapse true text in
    if is_space c then if gap then blank else b' ' ∷ blank else c ∷ plain

unfoldable pub normalize_query : Text → Text
unfolding collapse
normalize_query query = collapse false (lower (strip query))

pub record Hashing : Type 0 where
  -- `json.dumps({"acl", "index_version", "prompt_version", "params"}, sort_keys=True, …)`
  pub dumps : Text → Text → Text → List (Text × Json) → Text
  -- `hashlib.sha256(raw.encode()).hexdigest()`
  pub sha256 : Text → Text

module _ (h : Hashing) where
  unfoldable pub cache_scope :
      Principal → (index_version prompt_version : Text) → Option (List (Text × Json)) → Text
  cache_scope principal index_version prompt_version retrieval_params = h.sha256 (
      h.dumps (acl_fingerprint principal) index_version prompt_version
        (or_else retrieval_params []))

  unfoldable pub cache_key :
      (query : Text)
      → Principal
      → (index_version prompt_version : Text) → Option (List (Text × Json))
      → Text
  cache_key query principal index_version prompt_version retrieval_params = h.sha256 (
      cache_scope principal index_version prompt_version retrieval_params
      ++ (codes "|" ++ normalize_query query))

-- What is assumed of `json.dumps` and SHA-256 where keys are told apart: different payloads are written
-- differently, no two of the texts in use collide, and a digest is hexadecimal.
pub record IsFaithful (h : Hashing) : Type 0 where
  pub dumps_injective :
      (f g i j u v : Text) (a b : List (Text × Json))
      → h.dumps f i u a ≡ h.dumps g j v b
      → (f ≡ g) × (i ≡ j) × (u ≡ v) × (a ≡ b)
  pub sha256_injective : (x y : Text) → h.sha256 x ≡ h.sha256 y → x ≡ y
  pub sha256_no_bar : (x : Text) → All (λ c. c == b'|' ≡ false) (h.sha256 x)

-- Texts that hold no bar are told apart from what follows the first bar.
split_at_bar :
    (x y s t : Text)
    → All (λ c. c == b'|' ≡ false) x
    → All (λ c. c == b'|' ≡ false) y
    → (x ++ (codes "|" ++ s)) ≡ (y ++ (codes "|" ++ t))
    → (x ≡ y) × (s ≡ t)
split_at_bar [] [] s t hx hy e = ground arith
split_at_bar [] (c ∷ y) s t hx hy e = absurd (ground arith)
split_at_bar (c ∷ x) [] s t hx hy e = absurd (ground arith)
split_at_bar (c ∷ x) (d ∷ y) s t hx hy e =
    let heads : c ≡ d = ground arith in
    let tails : (x ++ (codes "|" ++ s)) ≡ (y ++ (codes "|" ++ t)) = ground arith in
    let (p, q) = split_at_bar x y s t hx.1 hy.1 tails in (cc, q)

module _ (h : Hashing) (faithful : IsFaithful h) (p q : Principal) (sp : IsSeparable p)
    (sq : IsSeparable q) where
  -- Two requests that share a scope have the same index version, prompt version and parameters, and their
  -- callers may see exactly the same documents.
  pub cache_scope-isolation :
      (i j u v : Text) (a b : Option (List (Text × Json)))
      → cache_scope h p i u a ≡ cache_scope h q j v b
      → (i ≡ j)
        × (u ≡ v)
        × (or_else a [] ≡ or_else b [])
        × ((acl : AclTags) → is_allowed p acl ≡ is_allowed q acl)
  unfolding cache_scope
  cache_scope-isolation i j u v a b e =
      let (prints, versions, prompts, params) =
        faithful.dumps_injective (acl_fingerprint p) (acl_fingerprint q) i j u v (or_else a [])
          (or_else b []) (faithful.sha256_injective _ _ e) in
      (versions, prompts, params, fingerprint-isolation p q sp sq prints)

  -- Two requests that share a key ask the same question up to case and white space, of the same index version with
  -- the same prompt version and parameters, and their callers may see exactly the same documents.
  pub cache_key-isolation :
      (s t i j u v : Text) (a b : Option (List (Text × Json)))
      → cache_key h s p i u a ≡ cache_key h t q j v b
      → (normalize_query s ≡ normalize_query t)
        × (i ≡ j)
        × (u ≡ v)
        × (or_else a [] ≡ or_else b [])
        × ((acl : AclTags) → is_allowed p acl ≡ is_allowed q acl)
  unfolding cache_key cache_scope
  cache_key-isolation s t i j u v a b e =
      let (scopes, queries) =
        split_at_bar (cache_scope h p i u a) (cache_scope h q j v b) (normalize_query s)
          (normalize_query t) (faithful.sha256_no_bar _) (faithful.sha256_no_bar _)
          (faithful.sha256_injective _ _ e) in
      let (versions, prompts, params, reach) = cache_scope-isolation i j u v a b scopes in
      (queries, versions, prompts, params, reach)
