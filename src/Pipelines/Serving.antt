-- ===== src/Pipelines/Serving.antt =====
-- The rest of `OnlinePipeline` of src/rag/pipelines/online.py, retrieval without an answer and readiness, and the
-- operations of src/rag/api/routes/health.py.
use ai_rag.Prelude.{
  ℕ, ◌≡◌, refl, Text, List, [], ◌∷◌, Bool, true, false, not, Option, none, some, if◌then◌else◌,
  codes, is_empty, all, ltb, arith, inl, inr, Bool-cases, &&-true,
}
use ai_rag.Prelude.Number.{Float}
use ai_rag.Prelude.Dict.{Dict, values}
use ai_rag.Prelude.Result.{Result, ok, raise}
use ai_rag.Schemas.Principal.{Principal}
use ai_rag.Schemas.Chunk.{ScoredChunk}
use ai_rag.Pipelines.Online.{OnlinePipeline, active_index_version, retrieve}

-- `retrieve_only`: the results of `_retrieve` on the live version.
unfoldable pub retrieve_only :
    {F W : Type 0} ⦃fl : Float F⦄
    → OnlinePipeline F W
    → Text
    → Principal
    → W
    → Result (List (ScoredChunk F))
retrieve_only self query principal w = retrieve self query principal (active_index_version self w)

-- What `readiness` asks its backends; the cache may have no `ping`.
pub record Probes (W : Type 0) : Type 0 where
  pub resolve_alias : W → Result (Option Text)
  pub count : Option Text → W → Result ℕ
  pub ping : Option (W → Bool)

-- The version of the alias, none where the store raised.
unfoldable pub alias_version : Result (Option Text) → Option Text
alias_version (ok version) = version
alias_version (raise e) = none

-- `bool(alias_version)`
unfoldable pub is_named : Option Text → Bool
is_named none = false
is_named (some name) = not (is_empty name)

unfoldable pub is_populated : Result ℕ → Bool
is_populated (ok count) = ltb 0 count
is_populated (raise e) = false

module _ {W : Type 0} (self : Probes W) (w : W) where
  unfoldable pub cache_check : Dict Bool
  cache_check = elim self.ping [ none ↦ [] | some ping ↦ (codes "cache", ping w) ∷ [] ]

  -- The checks of `readiness`.
  unfoldable pub checks : Dict Bool
  unfolding alias_version is_named is_populated
  checks =
      let version = alias_version (self.resolve_alias w) in
      (codes "index_alias", is_named version)
      ∷ (codes "index_populated", is_populated (self.count version w))
      ∷ cache_check

  -- `all(checks.values())`
  unfoldable pub is_ready : Bool
  is_ready = all (λ b. b) (values checks)

  -- The status code of the route `ready`, and the status it reports.
  unfoldable pub ready_route : ℕ × Text
  ready_route = if is_ready then (200, codes "ready") else (503, codes "not_ready")

  -- A replica that can answer: the alias names a version, that version has chunks, and the cache, where it
  -- can be asked, answers.
  pub record IsServing : Type 0 where
    pub version : Text
    pub size : ℕ
    pub published : self.resolve_alias w ≡ ok (some version)
    pub named : is_empty version ≡ false
    pub counted : self.count (some version) w ≡ ok size
    pub filled : ltb 0 size ≡ true
    pub reachable : (ping : W → Bool) → self.ping ≡ some ping → ping w ≡ true

  ready_alias :
      (r : Result (Option Text))
      → is_named (alias_version r) ≡ true
      → (version : Text) × (r ≡ ok (some version)) × (is_empty version ≡ false)
  unfolding is_named alias_version
  ready_alias (raise e) h = absurd (ground (arith, h))
  ready_alias (ok none) h = absurd (ground (arith, h))
  ready_alias (ok (some v)) h = (v, refl, ground (arith, h))

  ready_count : (r : Result ℕ) → is_populated r ≡ true → (n : ℕ) × (r ≡ ok n) × (ltb 0 n ≡ true)
  unfolding is_populated
  ready_count (raise e) h = absurd (ground (arith, h))
  ready_count (ok n) h = (n, refl, h)

  -- The route answers 200 only from a replica that can answer: its alias names a version, the store counts at
  -- least one chunk of that version, and the cache, where it can be asked, is reachable. An exception of the store
  -- is no.
  pub ready_route-IsServing : ready_route.0 ≡ 200 → IsServing
  unfolding ready_route is_ready checks cache_check alias_version
  ready_route-IsServing h = elim (Bool-cases is_ready) [
    | inr e ↦ absurd (ground (arith, (rw (ready_route, e) at h)))
    | inl e ↦
        let (named, rest) = &&-true (is_named (alias_version (self.resolve_alias w))) _ e in
        let (filled, pinged) =
          &&-true (is_populated (self.count (alias_version (self.resolve_alias w)) w)) _ rest in
        let (version, published, whole_name) = ready_alias (self.resolve_alias w) named in
        let (size, counted, some_chunks) =
          ready_count (self.count (some version) w) (rw (published, alias_version) at filled) in
        record {
          version = version;
          size = size;
          published = published;
          named = whole_name;
          counted = counted;
          filled = some_chunks;
          reachable = λ ping has. ground (arith, (rw (has, cache_check) at pinged));
        }
  ]
