-- ===== src/Index/Offline/Stamped.antt =====
-- What src/rag/pipelines/offline.py returns.
use ai_rag.Prelude.{
  ◌≡◌, refl, sym, inl, inr, Text, List, [], ◌∷◌, map, Bool, not, ◌&&◌, Option, none, some, is_empty,
  or_else, arith, Bool-cases, All, All-map,
}
use ai_rag.Prelude.Result.{Result, ok, and_then, then_of, and_then_cases, Result-cases}
use ai_rag.Schemas.Principal.{AclTags}
use ai_rag.Schemas.Chunk.{Chunk}
use ai_rag.Chunking.Registry.{default_registry}
use ai_rag.Chunking.Registry.Tagging.{
  default_registry-AllTag, enable_semantic_chunking-AllTag, AllTag,
}
use ai_rag.Index.Parsing.Kept.{default_parsers-AllKeep}
use ai_rag.Index.Ingestion.{default_acl, FileSystem}
use ai_rag.Prelude.Number.{Float}
use ai_rag.Chunking.Semantic.{Floats, Embed}
use ai_rag.Index.Offline.{
  chunkers_with, on_directory, OfflinePipeline, Store, on_world, finish, index_chunks,
  embed_and_index, prepare, version_of, run, stamp,
}
use ai_rag.Index.Offline.Tagged.{IsOf, IsSound, fetch-acl, prepare-IsOf}

module _ {F W : Type 0} (self : OfflinePipeline F W) where
  module _ (sound : IsSound self) (acl : Option AclTags) where
    finish_keeps :
        (version : Text) (activated : Bool) (cs got : List Chunk) (s : Store W)
        → (finish self version activated cs s).0 ≡ ok got
        → cs ≡ got
    unfolding finish and_then then_of
    finish_keeps version activated cs got s h = elim (Bool-cases (activated && not (is_empty cs))) [
      | inr e ↦ ground (arith, (rw (finish, e) at h))
      | inl e ↦
          let Gives : Result (List Chunk) × Store W → Type 0 = λ out. out.0 ≡ ok got → cs ≡ got in
          and_then_cases Gives _ (λ done s1. (ok cs, s1)) (λ x r k. absurd (ground (arith, k)))
            (λ u r k. ground (arith, k)) (rw (finish, e) at h)
    ]

    -- A chunk that was indexed: of the version, with the access tags of the run, and stamped with the model.
    abbrev pub IsStamped : (version : Text) → Chunk → Type 0
    IsStamped version c = IsOf acl version c × (c.embedding_model ≡ some self.model_name)

    stamp-IsStamped :
        (version : Text) (cs : List Chunk)
        → All (IsOf acl version) cs
        → All (IsStamped version) (map (stamp self) cs)
    unfolding stamp
    stamp-IsStamped version [] all = tt
    stamp-IsStamped version (c ∷ cs) all = ((all.0, refl), stamp-IsStamped version cs all.1)

    embed_and_index-stamps :
        (cs stamped : List Chunk) (w : W)
        → (embed_and_index self cs w).0 ≡ ok stamped
        → map (stamp self) cs ≡ stamped
    unfolding embed_and_index
    embed_and_index-stamps cs stamped w h =
        let Gives : Result (List Chunk) × W → Type 0 =
          λ out. out.0 ≡ ok stamped → map (stamp self) cs ≡ stamped in
        and_then_cases Gives _ _ (λ e r k. absurd (ground (arith, k)))
          (λ vectors r.
            and_then_cases Gives _ _ (λ e r1 k. absurd (ground (arith, k)))
              (λ u stored.
                and_then_cases Gives _ _ (λ e r2 k. absurd (ground (arith, k)))
                  (λ u' listed k. ground (arith, k))))
          h

    index_chunks-All :
        (version : Text) (activated : Bool) (cs got : List Chunk) (s : Store W)
        → All (IsOf acl version) cs
        → (index_chunks self version activated cs s).0 ≡ ok got
        → All (IsStamped version) got
    unfolding index_chunks on_world
    index_chunks-All version activated [] got s all h =
        let same : [] ≡ got = finish_keeps version activated [] got s h in rw (sym same) tt
    index_chunks-All version activated (c ∷ cs) got s all h =
        let Gives : Result (List Chunk) × Store W → Type 0 =
          λ out. out.0 ≡ ok got → All (IsStamped version) got in
        and_then_cases Gives _ _ (λ e r k. absurd (ground (arith, k)))
          (λ stamped r k.
            let same : stamped ≡ got = finish_keeps version activated stamped got _ k in
            let made : map (stamp self) (c ∷ cs) ≡ stamped =
              embed_and_index-stamps (c ∷ cs) stamped s.world r in
            rw (sym same, sym made) (stamp-IsStamped version (c ∷ cs) all))
          h

    run_sound-All :
        (index_version : Option Text) (activated : Bool) (got : List Chunk) (s : Store W)
        → (run self index_version acl activated s).0 ≡ ok got
        → All (IsStamped (version_of self index_version)) got
    unfolding run
    run_sound-All index_version activated got s h =
        let version : Text = version_of self index_version in
        elim (Result-cases (prepare self version acl)) [
          | inr (e, r) ↦ absurd (ground (arith, (rw (run, r) at h)))
          | inl (cs, r) ↦
              index_chunks-All version activated cs got _ (prepare-IsOf self sound acl version cs r)
                (rw (run, r) at h)
        ]

chunkers_with-AllTag :
    {F : Type 0} ⦃fl : Float F⦄ (sha256 : Text → Text) (floats : Floats F)
    (embedder : Option (Embed F))
    → AllTag (chunkers_with sha256 floats embedder)
unfolding chunkers_with
chunkers_with-AllTag sha256 floats none = default_registry-AllTag sha256 floats
chunkers_with-AllTag sha256 floats (some embedder) =
    enable_semantic_chunking-AllTag sha256 floats embedder (default_registry sha256 floats)
      (default_registry-AllTag sha256 floats)

-- A chunk that a build has made, of the version and the model, with the access tags given or the default ones.
pub record IsBuilt (version model : Text) (acl : Option AclTags) (c : Chunk) : Type 0 where
  pub tagged : c.acl ≡ or_else acl default_acl
  pub versioned : c.index_version ≡ version
  pub embedded_by : c.embedding_model ≡ some model

module _ {F W : Type 0} ⦃fl : Float F⦄ (sha256 without_markup : Text → Text)
    (read_pages : Text → Result (List Text)) (floats : Floats F) (fs : FileSystem) (source : Text)
    (embedder : Option (Embed F)) (self : OfflinePipeline F W) where
  on_directory-IsSound :
      IsSound (on_directory sha256 without_markup read_pages floats fs source embedder self)
  unfolding on_directory
  on_directory-IsSound = record {
    fetch_tags = fetch-acl fs;
    parsers_keep = default_parsers-AllKeep without_markup read_pages;
    chunkers_tag = chunkers_with-AllTag sha256 floats embedder;
  }

  -- Every chunk that a build on a directory returns is of its version, carries the access tags the build was given (or
  -- the default ones) and names the model that embedded it, with the connector, the parsers and the chunkers of
  -- the package, the semantic one with an embedder or without.
  pub run-All :
      (acl : Option AclTags) (index_version : Option Text) (activated : Bool) (got : List Chunk)
      (s : Store W)
      → (run
          (on_directory sha256 without_markup read_pages floats fs source embedder self)
          index_version
          acl
          activated
          s).0
        ≡ ok got
      → All (IsBuilt (version_of self index_version) self.model_name acl) got
  unfolding on_directory version_of
  run-All acl index_version activated got s h =
      All-map _ (IsBuilt (version_of self index_version) self.model_name acl) got
        (λ c ((tags, version), model). record {
          tagged = tags;
          versioned = version;
          embedded_by = model;
        })
        (run_sound-All
          (on_directory sha256 without_markup read_pages floats fs source embedder self)
          on_directory-IsSound acl index_version activated got s h)
