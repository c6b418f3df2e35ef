-- ===== src/Index/Offline.antt =====
-- `OfflinePipeline` of src/rag/pipelines/offline.py: documents read, parsed, chunked, embedded and indexed as one
-- version, which is then published under the alias; and src/rag/jobs/reindex.py. The backends change a
-- world that they share and may raise; metrics, logs and traces are left out.
pub mod Cutover
pub mod Tagged
pub mod Stamped
pub mod Versions
pub mod Memory
use ai_rag.Prelude.{
  ℕ, Text, List, [], ◌∷◌, ◌++◌, map, Bool, true, false, not, ◌&&◌, Option, none, some,
  if◌then◌else◌, codes, is_empty, length, or_else, text_eq, show_nat,
}
use ai_rag.Prelude.Dict.{Dict}
use ai_rag.Prelude.Result.{
  Raised, llm_error, timeout_error, value_error, key_error, exception, Result, ok, raise, Call,
  and_then,
}
use ai_rag.Schemas.Principal.{AclTags}
use ai_rag.Schemas.Chunk.{Chunk, Document}
use ai_rag.Prelude.Number.{Float}
use ai_rag.Chunking.Semantic.{Floats, Embed}
use ai_rag.Chunking.Registry.{
  Chunker, ChunkingConfig, chunk_document, default_registry, enable_semantic_chunking,
}
use ai_rag.Index.Ingestion.{FileSystem, fetch, list_uris}
use ai_rag.Index.Parsing.{Parser, default_parsers, parse_document}
use ai_rag.Index.Registry
use ai_rag.Index.Registry.{
  IndexVersion, IndexRegistry, record_version, active_version, list_versions,
}

-- What `Settings` gives the pipeline.
pub record OfflineSettings : Type 0 where
  pub index_version : Text
  pub collection_prefix : Text
  pub collection_alias : Text
  pub pii_redaction_enabled : Bool
  pub chunking_config : ChunkingConfig
  -- `str(chunking_cfg.get("chunker_version", "1.0"))`
  pub chunker_version : Text

-- `Settings.collection_for`
unfoldable pub collection_for : OfflineSettings → (index_version : Text) → Text
collection_for settings index_version =
    settings.collection_prefix
    ++ (codes "__" ++ (if is_empty index_version then settings.index_version else index_version))

-- The connector, the registries and the backends.
pub record OfflinePipeline (F W : Type 0) : Type 0 where
  pub settings : OfflineSettings
  pub list_uris : List Text
  pub fetch : Text → Option AclTags → Result Document
  pub parsers : Dict Parser
  pub chunkers : Dict Chunker
  pub redact_pii : Text → Text
  pub model_name : Text
  pub embed : List Text → Call W (List (List F))
  pub vector_upsert : List Chunk → List (List F) → Call W Unit
  pub lexical_upsert : List Chunk → Call W Unit
  pub set_alias : (alias index_version : Text) → Call W Unit
  -- whether the file of the index registry can be written
  pub is_writable : Bool
  -- `datetime.now(UTC).isoformat()`
  pub now : W → Text

-- The world and the file of the index registry.
pub record Store (W : Type 0) : Type 0 where
  pub world : W
  pub registry : IndexRegistry

module _ {F : Type 0} ⦃fl : Float F⦄ (sha256 : Text → Text) (floats : Floats F) where
  -- The registry of chunkers as it starts, or after `enable_semantic_chunking`.
  unfoldable pub chunkers_with : Option (Embed F) → Dict Chunker
  chunkers_with none = default_registry sha256 floats
  chunkers_with (some embedder) =
      enable_semantic_chunking sha256 floats embedder (default_registry sha256 floats)

module _ {F W : Type 0} ⦃fl : Float F⦄ (sha256 without_markup : Text → Text)
    (read_pages : Text → Result (List Text)) (floats : Floats F) where
  -- The pipeline as `run` puts it together for a directory: `LocalFSConnector(source)`, and the parsers and
  -- chunkers of the package.
  unfoldable pub on_directory :
      FileSystem → (source : Text) → Option (Embed F) → OfflinePipeline F W → OfflinePipeline F W
  on_directory fs source embedder self = record self {
    list_uris = list_uris fs source (codes "**/*");
    fetch = fetch fs;
    parsers = default_parsers without_markup read_pages;
    chunkers = chunkers_with sha256 floats embedder;
  }

module _ {F W : Type 0} (self : OfflinePipeline F W) where
  -- `_ingest`
  unfoldable pub ingest : List Text → Option AclTags → Result (List Document)
  ingest [] acl = ok []
  ingest (uri ∷ uris) acl = elim (self.fetch uri acl) [
    | raise e ↦ raise e
    | ok doc ↦ elim (ingest uris acl) [ raise e ↦ raise e | ok docs ↦ ok (doc ∷ docs) ]
  ]

  -- `except (KeyError, ValueError)`
  unfoldable pub is_malformed : Raised → Bool
  is_malformed (key_error m) = true
  is_malformed (value_error m) = true
  is_malformed (llm_error m) = false
  is_malformed timeout_error = false
  is_malformed (exception m) = false

  -- What is embedded and stored of a document.
  unfoldable pub redacted : Document → Document
  redacted doc = elim doc.text [
    | none ↦ doc
    | some text ↦
        if not (is_empty text) && self.settings.pii_redaction_enabled
        then record doc { text = some (self.redact_pii text) }
        else doc
  ]

  -- `_parse`
  unfoldable pub parse : List Document → Result (List Document)
  parse [] = ok []
  parse (doc ∷ docs) = elim (parse_document self.parsers doc) [
    | ok parsed ↦ elim (parse docs) [ raise e ↦ raise e | ok rest ↦ ok (redacted parsed ∷ rest) ]
    | raise e ↦ if is_malformed e then parse docs else raise e
  ]

  unfoldable pub chunk_all : (version : Text) → List Document → Result (List Chunk)
  chunk_all version [] = ok []
  chunk_all version (doc ∷ docs) =
      elim (chunk_document self.chunkers version self.settings.chunking_config doc) [
        | raise e ↦ raise e
        | ok cs ↦ elim (chunk_all version docs) [ raise e ↦ raise e | ok rest ↦ ok (cs ++ rest) ]
      ]

  -- What `run` reads before anything is indexed.
  unfoldable pub prepare : (version : Text) → Option AclTags → Result (List Chunk)
  prepare version acl = elim (ingest self.list_uris acl) [
    | raise e ↦ raise e
    | ok docs ↦ elim (parse docs) [ raise e ↦ raise e | ok parsed ↦ chunk_all version parsed ]
  ]

  unfoldable pub stamp : Chunk → Chunk
  stamp c = record c { embedding_model = some self.model_name }

  -- `_embed_and_index`
  unfoldable pub embed_and_index : List Chunk → Call W (List Chunk)
  embed_and_index chunks w =
      let stamped = map stamp chunks in
      and_then (self.embed (map (λ c. c.text) stamped) w) (λ vectors w1.
        and_then (self.vector_upsert stamped vectors w1)
          (λ stored w2. and_then (self.lexical_upsert stamped w2) (λ stored w3. (ok stamped, w3))))

  -- The registry's `record` of a version.
  unfoldable pub note :
      (version status : Text) → (chunk_count : ℕ) → Option Text → Store W → Store W
  note version status chunk_count chunker_version s = record s {
    registry =
        record_version self.is_writable
          (record {
            version = version;
            collection = collection_for self.settings version;
            alias = self.settings.collection_alias;
            status = status;
            created_at = self.now s.world;
            chunk_count = chunk_count;
            embedding_model = some self.model_name;
            chunker_version = chunker_version;
          })
          s.registry;
  }

  -- `registry.activate(version)`, whose KeyError is logged
  unfoldable pub activate_in : (version : Text) → IndexRegistry → IndexRegistry
  activate_in version registry = elim (Registry.activate self.is_writable version registry) [
    | ok after ↦ after
    | raise e ↦ registry
  ]

  -- A call of the backends, on the world of a store.
  unfoldable pub on_world : {A : Type 0} → Call W A → Call (Store W) A
  on_world call s = let (out, w) = call s.world in (out, record s { world = w })

  -- `OfflinePipeline.activate`
  unfoldable pub activate : (version : Text) → Call (Store W) Unit
  activate version s =
      and_then (on_world (self.set_alias self.settings.collection_alias version) s)
        (λ done s1. (ok tt, record s1 { registry = activate_in version s1.registry }))

  -- From the record `built` on.
  unfoldable pub finish :
      (version : Text) → (activated : Bool) → List Chunk → Call (Store W) (List Chunk)
  finish version activated chunks s =
      let noted =
        note version (codes "built") (length chunks) (some self.settings.chunker_version) s in
      if activated && not (is_empty chunks)
      then and_then (activate version noted) (λ done s1. (ok chunks, s1))
      else (ok chunks, noted)

  -- The chunks indexed, where there are any.
  unfoldable pub index_chunks :
      (version : Text) → (activated : Bool) → List Chunk → Call (Store W) (List Chunk)
  index_chunks version activated chunks s =
      if is_empty chunks
      then finish version activated chunks s
      else and_then (on_world (embed_and_index chunks) s)
          (λ stamped s1. finish version activated stamped s1)

  -- `index_version or self.settings.index_version`
  unfoldable pub version_of : Option Text → Text
  version_of none = self.settings.index_version
  version_of (some v) = if is_empty v then self.settings.index_version else v

  -- `OfflinePipeline.run`
  unfoldable pub run :
      Option Text → Option AclTags → (activated : Bool) → Call (Store W) (List Chunk)
  run index_version acl activated s =
      let version = version_of index_version in
      let started = note version (codes "building") 0 none s in
      elim (prepare version acl) [
        | raise e ↦ (raise e, started)
        | ok chunks ↦ index_chunks version activated chunks started
      ]

  -- `reindex`
  unfoldable pub reindex :
      (index_version : Text) → (activated : Bool) → Option AclTags → Call (Store W) ℕ
  reindex index_version activated acl s =
      and_then (run (some index_version) acl activated s) (λ chunks s1. (ok (length chunks), s1))

  -- `activate_version`
  unfoldable pub activate_version : (version : Text) → Call (Store W) Unit
  activate_version version = activate version

unfoldable pub is_version : (active : Option Text) → IndexVersion → Bool
is_version none v = false
is_version (some name) v = text_eq v.version name

-- A line of `list_versions`; a tabulator is character 9.
unfoldable pub version_line : (active : Option Text) → IndexVersion → Text
version_line active v =
    let marker = if is_version active v then codes " (active)" else [] in
    v.version
    ++ ((9 ∷ v.status)
        ++ ((9 ∷ codes "chunks=")
            ++ (show_nat v.chunk_count
                ++ ((9 ∷ codes "embedding=")
                    ++ (or_else v.embedding_model (codes "None") ++ marker)))))

-- `list_versions` of the job
unfoldable pub version_lines : IndexRegistry → List Text
version_lines registry = map (version_line (active_version registry)) (list_versions registry)
