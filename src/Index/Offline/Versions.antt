-- ===== src/Index/Offline/Versions.antt =====
-- What src/rag/pipelines/offline.py writes to the registry of versions, and the documents it passes over.
use ai_rag.Prelude.{
  ℕ, ◌≡◌, ◌≢◌, refl, inl, inr, Text, List, [], ◌∷◌, Bool, true, not, ◌&&◌, Option, none, codes,
  is_empty, arith, Bool-cases, All,
}
use ai_rag.Prelude.Result.{Raised, ok, raise, and_then_keeps, Result-cases}
use ai_rag.Schemas.Principal.{AclTags}
use ai_rag.Schemas.Chunk.{Chunk, Document}
use ai_rag.Index.Parsing.{parse_document}
use ai_rag.Index.Registry
use ai_rag.Index.Registry.{IndexVersion, IndexRegistry, record_version}
use ai_rag.Index.Registry.Active.{IsConsistent, activate-IsConsistent, record_version-IsConsistent}
use ai_rag.Index.Offline.{
  OfflinePipeline, Store, is_malformed, redacted, parse, note, activate_in, on_world, activate,
  finish, index_chunks, prepare, version_of, run,
}

module _ {F W : Type 0} (self : OfflinePipeline F W) where
  abbrev Sound : Store W → Type 0
  Sound s = IsConsistent s.registry

  note-Sound :
      (version status : Text) (n : ℕ) (chunker : Option Text) (s : Store W)
      → status ≢ codes "active"
      → Sound s
      → Sound (note self version status n chunker s)
  unfolding note
  note-Sound version status n chunker s inactive h =
      record_version-IsConsistent self.is_writable _ s.registry inactive h

  activate_in-IsConsistent :
      (version : Text) (r : IndexRegistry)
      → IsConsistent r
      → IsConsistent (activate_in self version r)
  unfolding activate_in
  activate_in-IsConsistent version r h =
      elim (Result-cases (Registry.activate self.is_writable version r)) [
        | inl (after, e) ↦
            rw (activate_in, e) (activate-IsConsistent self.is_writable version r after h e)
        | inr (x, e) ↦ rw (activate_in, e) h
      ]

  activate-Sound : (version : Text) (s : Store W) → Sound s → Sound (activate self version s).1
  unfolding activate on_world
  activate-Sound version s h =
      and_then_keeps Sound _ _ h (λ u s1 h1. activate_in-IsConsistent version s1.registry h1)

  finish-Sound :
      (version : Text) (activated : Bool) (cs : List Chunk) (s : Store W)
      → Sound s
      → Sound (finish self version activated cs s).1
  unfolding finish
  finish-Sound version activated cs s h =
      let noted = note-Sound version (codes "built") _ _ s (λ e. ground (arith, e)) h in
      elim (Bool-cases (activated && not (is_empty cs))) [
        | inl e ↦
            rw (finish, e)
              (and_then_keeps Sound _ _ (activate-Sound version _ noted) (λ u s1 h1. h1))
        | inr e ↦ rw (finish, e) noted
      ]

  index_chunks-Sound :
      (version : Text) (activated : Bool) (cs : List Chunk) (s : Store W)
      → Sound s
      → Sound (index_chunks self version activated cs s).1
  unfolding index_chunks on_world
  index_chunks-Sound version activated cs s h = elim (Bool-cases (is_empty cs)) [
    | inl e ↦ rw (index_chunks, e) (finish-Sound version activated cs s h)
    | inr e ↦
        rw (index_chunks, e)
          (and_then_keeps Sound _ _ h
            (λ stamped s1 h1. finish-Sound version activated stamped s1 h1))
  ]

  -- However a build ends, every version that the registry marks active is still the one that it names.
  pub run-Sound :
      (index_version : Option Text) (acl : Option AclTags) (activated : Bool) (s : Store W)
      → IsConsistent s.registry
      → IsConsistent (run self index_version acl activated s).1.registry
  unfolding run
  run-Sound index_version acl activated s h =
      let started =
        note-Sound (version_of self index_version) (codes "building") 0 none s
          (λ e. ground (arith, e)) h in
      elim (Result-cases (prepare self (version_of self index_version) acl)) [
        | inr (x, e) ↦ rw (run, e) started
        | inl (cs, e) ↦
            rw (run, e) (index_chunks-Sound (version_of self index_version) activated cs _ started)
      ]

  -- The documents that can be parsed, as they are indexed.
  pub readable : List Document → List Document
  readable [] = []
  readable (doc ∷ docs) = elim (parse_document self.parsers doc) [
    | ok parsed ↦ redacted self parsed ∷ readable docs
    | raise e ↦ readable docs
  ]

  -- One malformed document does not abort a build: where parsing fails only with a missing parser or a bad value, the
  -- documents that can be parsed go on, in their order, and the others are passed over.
  pub parse-readable :
      (docs : List Document)
      → All
          (λ doc.
            (e : Raised) → parse_document self.parsers doc ≡ raise e → is_malformed self e ≡ true)
          docs
      → parse self docs ≡ ok (readable docs)
  unfolding parse readable
  parse-readable [] all = refl
  parse-readable (doc ∷ docs) all =
      let rest = parse-readable docs all.1 in
      elim (Result-cases (parse_document self.parsers doc)) [
        | inl (d, r) ↦ rw (parse, readable, r, rest) refl
        | inr (e, r) ↦ let m = all.0 e r in rw (parse, readable, r, m) rest
      ]
