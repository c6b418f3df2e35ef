-- ===== src/Tests/IndexTests.antt =====
-- The theorems on the offline pipeline and the registry of versions at a sample directory: a text, and a file that has
-- no parser.
use ai_rag.Prelude.{
  starts_with, ℕ, ◌≡◌, refl, Text, List, [], ◌∷◌, map, length, true, none, some, codes, text_eq,
  arith, All, if◌then◌else◌, strip, lstrip, rstrip, is_space, lower, to_lower, text_lt, inl, inr,
  Bool-cases, text_eq_iff,
}
use ai_rag.Prelude.Number.{whole}
use ai_rag.Prelude.Dict.{lookup, insert}
use ai_rag.Prelude.Result.{Raised, Result, ok, raise, and_then, then_of, exception}
use ai_rag.Schemas.Chunk.{Chunk, Document}
use ai_rag.Prelude.Sort.{sort_desc, place}
use ai_rag.Chunking.Fixed.{chunk, windows, chunk_of}
use ai_rag.Index.Offline.{activate, on_directory, chunkers_with}
use ai_rag.Chunking.Semantic.{Floats, parts_from, split_sentences, gap_at, goes_on}
use ai_rag.Chunking.Registry.{
  chunk_document, strategy_of, get_chunker, fixed_result, ChunkingConfig, default_registry,
}
use ai_rag.Retrieval.Store.{MemoryVectorStore}
use ai_rag.Index.Parsing.{
  default_parsers, parse_document, get_parser, parse_plain, parse_text, parsed_as,
}
use ai_rag.Index.Ingestion.{FileSystem, fetch, list_uris, guess_mime, is_listed, document_of}
use ai_rag.Index.Registry
use ai_rag.Index.Registry.{IndexVersion, IndexRegistry, no_registry, with_status, save}
use ai_rag.Index.Registry.Active.{IsCutover, activate-IsCutover, IsConsistent}
use ai_rag.Index.Offline.{
  OfflinePipeline, Store, run, prepare, ingest, parse, is_malformed, redacted, chunk_all,
  index_chunks, on_world, embed_and_index, stamp, finish, note, version_of,
}
use ai_rag.Index.Offline.Cutover.{Outcome, run-Outcome}
use ai_rag.Index.Offline.Memory.{Backends, in_memory}
use ai_rag.Index.Offline.Stamped.{IsBuilt, run-All}
use ai_rag.Index.Offline.Versions.{run-Sound, readable, parse-readable}
use ai_rag.Tests.Samples.{shared}
use ai_rag.Tests.LexicalTests.{start}

abbrev files : FileSystem
files = record {
  exists = λ root. true;
  glob = λ root pattern. codes "a.txt" ∷ codes "b.bin" ∷ [];
  is_file = λ path. true;
  name = λ path. path;
  stem = λ path. path;
  suffix = λ path. if text_eq path (codes "a.txt") then codes ".txt" else codes ".bin";
  as_uri = λ path. path;
  of_uri = λ uri. uri;
  read = λ path. ok ([], some (codes " one two "));
}

abbrev plain : Text → Text
plain t = t

abbrev sizes : ChunkingConfig
sizes = record { strategies = []; default_strategy = none }

abbrev floats : Floats ℕ
floats = record { sqrt = λ n. n; share = λ n. n }

abbrev no_pages : Text → Result (List Text)
no_pages path = raise (exception [])

abbrev template : OfflinePipeline ℕ (Backends ℕ)
template = record {
  settings = record {
    index_version = codes "v7";
    collection_prefix = codes "docs";
    collection_alias = codes "live";
    pii_redaction_enabled = true;
    chunking_config = sizes;
    chunker_version = codes "1.0";
  };
  list_uris = list_uris files (codes "raw") (codes "**/*");
  fetch = fetch files;
  parsers = default_parsers plain no_pages;
  chunkers = default_registry plain floats;
  redact_pii = plain;
  model_name = codes "hash-1";
  embed = λ texts w. (ok [], w);
  vector_upsert = λ cs vs w. (ok tt, w);
  lexical_upsert = λ cs w. (ok tt, w);
  set_alias = λ a v w. (ok tt, w);
  is_writable = true;
  now = λ w. codes "now";
}

abbrev lengths : List Text → List (List ℕ)
lengths = map (λ t. length t ∷ [])

abbrev offline : OfflinePipeline ℕ (Backends ℕ)
offline = in_memory lengths template

abbrev empty_store : MemoryVectorStore ℕ
empty_store = record { items = []; aliases = [] }

abbrev before : Store (Backends ℕ)
before = record { world = (empty_store, start); registry = no_registry }

run-Outcome_example :
    Outcome offline
      (version_of offline none)
      before.world
      true
      (run offline none (some shared) true before)
run-Outcome_example = run-Outcome offline none (some shared) true before

-- The same on the directory, with the package's own parsers and chunkers.
abbrev on_raw : OfflinePipeline ℕ (Backends ℕ)
on_raw = on_directory plain plain no_pages floats files (codes "raw") none template

-- What the run makes of the text.
abbrev read : Document
read = record {
  doc_id = codes "a.txt";
  source_uri = codes "a.txt";
  mime_type = codes "text/plain";
  checksum = [];
  text = some (codes "one two");
  acl = shared;
  metadata = [];
}

abbrev built : List Chunk
built =
    record (chunk_of plain read (codes "v7") (codes "one two") 0 0 7) {
      embedding_model = some (codes "hash-1");
    }
    ∷ []

abbrev body : Text → Text → IndexVersion
body version status = record {
  version = version;
  collection = codes "docs";
  alias = codes "live";
  status = status;
  created_at = codes "now";
  chunk_count = 1;
  embedding_model = none;
  chunker_version = none;
}

abbrev calm : Store (Backends ℕ)
calm = record {
  world = (empty_store, start);
  registry = record {
    active = some (codes "v6");
    versions =
        (codes "v6", body (codes "v6") (codes "active"))
        ∷ (codes "v7", body (codes "v7") (codes "built"))
        ∷ [];
  };
}

ran : (run on_raw none (some shared) true before).0 ≡ ok built
unfolding on_directory chunkers_with run prepare ingest fetch document_of guess_mime list_uris
    is_listed sort_desc place text_lt text_eq lower to_lower lookup parse parse_document get_parser
    default_parsers parse_plain parse_text parsed_as insert strip lstrip rstrip is_space
    is_malformed redacted chunk_all chunk_document strategy_of get_chunker default_registry
    fixed_result chunk windows chunk_of index_chunks on_world embed_and_index stamp and_then then_of
    finish note activate version_of
ran = refl

run-All_example : All (IsBuilt (codes "v7") (codes "hash-1") (some shared)) built
unfolding version_of
run-All_example =
    run-All plain plain no_pages floats files (codes "raw") none template (some shared) none true
      built before ran

calm-IsConsistent : IsConsistent calm.registry
unfolding lookup
calm-IsConsistent name found_body found is_active = elim (Bool-cases (text_eq (codes "v6") name)) [
  | inl e ↦ let same = (text_eq_iff (codes "v6") name).0 e in ground (arith, same)
  | inr e ↦ elim (Bool-cases (text_eq (codes "v7") name)) [
    | inl n ↦ absurd (ground (arith, (rw (e, n, lookup) at found), is_active))
    | inr n ↦ absurd (ground (arith, (rw (e, n, lookup) at found)))
  ]
]

run-Sound_example : IsConsistent (run template (some (codes "v8")) none true calm).1.registry
run-Sound_example = run-Sound template (some (codes "v8")) none true calm calm-IsConsistent

abbrev after_activation : IndexRegistry
after_activation = record {
  active = some (codes "v7");
  versions =
      (codes "v6", body (codes "v6") (codes "retired"))
      ∷ (codes "v7", body (codes "v7") (codes "active"))
      ∷ [];
}

activated : Registry.activate true (codes "v7") calm.registry ≡ ok after_activation
unfolding Registry.activate with_status save lookup text_eq
activated = refl

activate-IsCutover_example : IsCutover (codes "v7") calm.registry after_activation
activate-IsCutover_example =
    activate-IsCutover (codes "v7") calm.registry after_activation refl activated

-- The second one has no parser, the third no text.
abbrev mixed : List Document
mixed =
    read
    ∷ record read { mime_type = codes "application/octet-stream" }
    ∷ record read { text = none }
    ∷ []

mixed_malformed :
    All
      (λ doc.
        (e : Raised)
        → parse_document template.parsers doc ≡ raise e
        → is_malformed template e ≡ true)
      mixed
unfolding parse_document get_parser lookup default_parsers text_eq parse_plain parse_text parsed_as
    is_malformed
mixed_malformed = (
  (λ e h. absurd (ground (arith, h))),
  ((λ e h. ground (arith, h)), ((λ e h. ground (arith, h)), tt)),
)

parse-readable_example : parse template mixed ≡ ok (readable template mixed)
parse-readable_example = parse-readable template mixed mixed_malformed

-- Sentences end at a mark before a space, or at a blank line.
sentences : split_sentences (codes "A b. C?d! ") ≡ (codes "A b." ∷ codes "C?d!" ∷ [])
unfolding split_sentences parts_from goes_on gap_at is_space starts_with strip lstrip rstrip
sentences = refl
