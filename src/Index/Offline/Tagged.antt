-- ===== src/Index/Offline/Tagged.antt =====
-- The access tags and the version of what src/rag/pipelines/offline.py reads, parses and cuts.
use ai_rag.Prelude.{
  ◌≡◌, refl, sym, ◌∙◌, inl, inr, Text, List, [], ◌∷◌, ◌++◌, not, ◌&&◌, Option, is_empty, or_else,
  arith, Bool-cases, Option-cases, All, All-append,
}
use ai_rag.Prelude.Result.{ok, Result-cases}
use ai_rag.Schemas.Principal.{AclTags}
use ai_rag.Schemas.Chunk.{Chunk, Document}
use ai_rag.Chunking.Registry.{chunk_document}
use ai_rag.Chunking.Registry.Tagging.{IsTagged, AllTag, chunk_document-IsTagged}
use ai_rag.Index.Parsing.{parse_document}
use ai_rag.Index.Parsing.Kept.{AllKeep, parse_document-IsParsed}
use ai_rag.Index.Ingestion.{default_acl, FileSystem, fetch, document_of}
use ai_rag.Index.Offline.{
  OfflinePipeline, ingest, is_malformed, redacted, parse, chunk_all, prepare,
}

-- A chunk of the version, with the access tags of the run.
abbrev pub IsOf : Option AclTags → (version : Text) → Chunk → Type 0
IsOf acl version c = (c.acl ≡ or_else acl default_acl) × (c.index_version ≡ version)

-- The connector of the file system gives every document the access tags asked for, or the default ones.
pub fetch-acl :
    (fs : FileSystem) (uri : Text) (acl : Option AclTags) (doc : Document)
    → fetch fs uri acl ≡ ok doc
    → doc.acl ≡ or_else acl default_acl
unfolding fetch document_of
fetch-acl fs uri acl doc h = elim (Result-cases (fs.read (fs.of_uri uri))) [
  | inr (e, r) ↦ absurd (ground (arith, (rw (fetch, r) at h)))
  | inl (read, r) ↦
      let same : document_of fs uri (fs.of_uri uri) acl read ≡ doc =
        ground (arith, (rw (fetch, r) at h)) in
      rw (sym same) refl
]

module _ {F W : Type 0} (self : OfflinePipeline F W) where
  -- What the connector and the registries see to.
  pub record IsSound : Type 0 where
    pub fetch_tags :
        (uri : Text) (acl : Option AclTags) (doc : Document)
        → self.fetch uri acl ≡ ok doc
        → doc.acl ≡ or_else acl default_acl
    pub parsers_keep : AllKeep self.parsers
    pub chunkers_tag : AllTag self.chunkers

  module _ (sound : IsSound) (acl : Option AclTags) where
    abbrev HasAcl : Document → Type 0
    HasAcl doc = doc.acl ≡ or_else acl default_acl

    ingest-HasAcl :
        (uris : List Text) (docs : List Document) → ingest self uris acl ≡ ok docs → All HasAcl docs
    unfolding ingest
    ingest-HasAcl [] docs h = let none_left : [] ≡ docs = ground (arith, h) in rw (sym none_left) tt
    ingest-HasAcl (uri ∷ uris) docs h = elim (Result-cases (self.fetch uri acl)) [
      | inr (e, r) ↦ absurd (ground (arith, (rw (ingest, r) at h)))
      | inl (doc, r) ↦ elim (Result-cases (ingest self uris acl)) [
        | inr (e, q) ↦ absurd (ground (arith, (rw (ingest, r, q) at h)))
        | inl (rest, q) ↦
            let same : (doc ∷ rest) ≡ docs = ground (arith, (rw (ingest, r, q) at h)) in
            rw (sym same) (sound.fetch_tags uri acl doc r, ingest-HasAcl uris rest q)
      ]
    ]

    redacted-acl : (doc : Document) → (redacted self doc).acl ≡ doc.acl
    unfolding redacted
    redacted-acl doc = elim (Option-cases doc.text) [
      | inl e ↦ rw (redacted, e) refl
      | inr (text, e) ↦
          elim (Bool-cases (not (is_empty text) && self.settings.pii_redaction_enabled)) [
            | inl r ↦ rw (redacted, e, r) refl
            | inr r ↦ rw (redacted, e, r) refl
          ]
    ]

    parse-HasAcl :
        (docs parsed : List Document)
        → All HasAcl docs
        → parse self docs ≡ ok parsed
        → All HasAcl parsed
    unfolding parse
    parse-HasAcl [] parsed all h =
        let none_left : [] ≡ parsed = ground (arith, h) in rw (sym none_left) tt
    parse-HasAcl (doc ∷ docs) parsed all h = elim (Result-cases (parse_document self.parsers doc)) [
      | inr (e, r) ↦ elim (Bool-cases (is_malformed self e)) [
        | inl m ↦ parse-HasAcl docs parsed all.1 (rw (parse, r, m) at h)
        | inr m ↦ absurd (ground (arith, (rw (parse, r, m) at h)))
      ]
      | inl (d, r) ↦ elim (Result-cases (parse self docs)) [
        | inr (e, q) ↦ absurd (ground (arith, (rw (parse, r, q) at h)))
        | inl (rest, q) ↦
            let same : (redacted self d ∷ rest) ≡ parsed =
              ground (arith, (rw (parse, r, q) at h)) in
            let kept = parse_document-IsParsed self.parsers doc d sound.parsers_keep r in
            rw (sym same) (redacted-acl d ∙ (kept.same_acl ∙ all.0), parse-HasAcl docs rest all.1 q)
      ]
    ]

    tagged-IsOf :
        (version : Text) (doc : Document) (cs : List Chunk)
        → HasAcl doc
        → All (IsTagged doc version) cs
        → All (IsOf acl version) cs
    tagged-IsOf version doc [] h all = tt
    tagged-IsOf version doc (c ∷ cs) h all =
        ((all.0.0 ∙ h, all.0.1), tagged-IsOf version doc cs h all.1)

    chunk_all-IsOf :
        (version : Text) (docs : List Document) (cs : List Chunk)
        → All HasAcl docs
        → chunk_all self version docs ≡ ok cs
        → All (IsOf acl version) cs
    unfolding chunk_all
    chunk_all-IsOf version [] cs all h =
        let none_left : [] ≡ cs = ground (arith, h) in rw (sym none_left) tt
    chunk_all-IsOf version (doc ∷ docs) cs all h =
        elim (Result-cases
          (chunk_document self.chunkers version self.settings.chunking_config doc)) [
            | inr (e, r) ↦ absurd (ground (arith, (rw (chunk_all, r) at h)))
            | inl (first, r) ↦ elim (Result-cases (chunk_all self version docs)) [
              | inr (e, q) ↦ absurd (ground (arith, (rw (chunk_all, r, q) at h)))
              | inl (rest, q) ↦
                  let same : (first ++ rest) ≡ cs = ground (arith, (rw (chunk_all, r, q) at h)) in
                  rw (sym same) (
                    All-append (IsOf acl version) first rest
                      (tagged-IsOf version doc first all.0 (
                        chunk_document-IsTagged self.chunkers version self.settings.chunking_config
                          doc first sound.chunkers_tag r))
                      (chunk_all-IsOf version docs rest all.1 q))
            ]
          ]

    pub prepare-IsOf :
        (version : Text) (cs : List Chunk)
        → prepare self version acl ≡ ok cs
        → All (IsOf acl version) cs
    unfolding prepare
    prepare-IsOf version cs h = elim (Result-cases (ingest self self.list_uris acl)) [
      | inr (e, r) ↦ absurd (ground (arith, (rw (prepare, r) at h)))
      | inl (docs, r) ↦ elim (Result-cases (parse self docs)) [
        | inr (e, q) ↦ absurd (ground (arith, (rw (prepare, r, q) at h)))
        | inl (parsed, q) ↦
            chunk_all-IsOf version parsed cs
              (parse-HasAcl docs parsed (ingest-HasAcl self.list_uris docs r) q)
              (rw (prepare, r, q) at h)
      ]
    ]
