-- ===== src/Agent/Tools/ResultCache.antt =====
-- src/rag/agent/tools/cache.py: tool results by tool, arguments, access scope and index version.
-- `json.dumps` and SHA-256 are arguments, and so is the JSON form of a result.
use ai_rag.Prelude.{
  ℕ, Text, ◌++◌, [], ◌≡◌, Bool, not, ◌||◌, Option, none, some, if◌then◌else◌, codes,
}
use ai_rag.Prelude.Dict.{Dict}
use ai_rag.Schemas.Principal.{Principal, AclTags}
use ai_rag.Schemas.Agent.{Json, ToolResult}
use ai_rag.Security.Acl.{acl_fingerprint, is_allowed}
use ai_rag.Security.Reach.{IsSeparable, fingerprint-isolation}
use ai_rag.Cache.Protocol.{Cache}

pub record Codec (F : Type 0) : Type 0 where
  -- `json.dumps({"tool", "args", "acl", "index_version"}, sort_keys=True, …)`
  pub dumps : Text → Dict Json → Text → Text → Text
  -- `hashlib.sha256(raw.encode()).hexdigest()`
  pub sha256 : Text → Text
  -- `result.model_dump_json()` and `ToolResult.model_validate_json(raw)`
  pub dump_result : ToolResult F → Text
  pub load_result : Text → Option (ToolResult F)

pub record ToolResultCache (W : Type 0) : Type 0 where
  pub cache : Cache W
  pub ttl : ℕ
  pub enabled : Bool

module _ {F : Type 0} (c : Codec F) where
  unfoldable pub tool_result_cache_key :
      Text → Dict Json → Principal → (index_version : Text) → Text
  tool_result_cache_key tool arguments principal index_version =
      codes "tool:" ++ c.sha256 (c.dumps tool arguments (acl_fingerprint principal) index_version)

module _ {F W : Type 0} (c : Codec F) where
  unfoldable pub get :
      ToolResultCache W → Text → Dict Json → Principal → Text → W → Option (ToolResult F) × W
  get self tool arguments principal index_version w =
      if not self.enabled
      then (none, w)
      else (let (raw, w') =
            self.cache.get (tool_result_cache_key c tool arguments principal index_version) w in
          (elim raw [ none ↦ none | some text ↦ c.load_result text ], w'))

  unfoldable pub set :
      ToolResultCache W → Text → Dict Json → Principal → ToolResult F → Text → W → W
  set self tool arguments principal result index_version w =
      if not self.enabled || not result.ok
      then w
      else self.cache.set (tool_result_cache_key c tool arguments principal index_version)
          (c.dump_result (record result { call_id = [] })) (some self.ttl) w

-- What is assumed of `json.dumps` and SHA-256 where keys are told apart: different payloads are
-- written differently, and no two of the texts in use collide.
pub record IsInjective {F : Type 0} (c : Codec F) : Type 0 where
  pub dumps_injective :
      (t u : Text) (a b : Dict Json) (f g i j : Text)
      → c.dumps t a f i ≡ c.dumps u b g j
      → (t ≡ u) × (a ≡ b) × (f ≡ g) × (i ≡ j)
  pub sha256_injective : (x y : Text) → c.sha256 x ≡ c.sha256 y → x ≡ y

untag : (x y : Text) → (codes "tool:" ++ x) ≡ (codes "tool:" ++ y) → x ≡ y
untag x y e = cc

-- Two calls that share a key are of one tool, with the same arguments and index version, and of
-- callers who may see exactly the same documents.
pub tool_result_cache_key-isolation :
    {F : Type 0} (c : Codec F)
    → IsInjective c
    → (t u : Text) (a b : Dict Json) (p q : Principal) (i j : Text) → IsSeparable p
    → IsSeparable q
    → tool_result_cache_key c t a p i ≡ tool_result_cache_key c u b q j
    → (t ≡ u) × (a ≡ b) × (i ≡ j) × ((acl : AclTags) → is_allowed p acl ≡ is_allowed q acl)
unfolding tool_result_cache_key
tool_result_cache_key-isolation c inj t u a b p q i j sp sq e =
    let (tools, args, prints, versions) =
      inj.dumps_injective t u a b (acl_fingerprint p) (acl_fingerprint q) i j
        (inj.sha256_injective _ _ (untag _ _ e)) in
    (tools, args, versions, fingerprint-isolation p q sp sq prints)
