-- ===== src/Schemas/Chunk.antt =====
-- src/rag/schemas/chunk.py, document.py and query.py. `metadata` holds the string values; the hash of
-- `derive_chunk_id` is that of `rag.utils.hashing`.
use ai_rag.Prelude.{Text, List, Option, Bool, ℕ}
use ai_rag.Schemas.Principal.{AclTags}

pub record Chunk : Type 0 where
  pub chunk_id : Text
  pub doc_id : Text
  pub ordinal : ℕ
  pub text : Text
  pub span : ℕ × ℕ
  pub acl : AclTags
  pub index_version : Text
  pub embedding_model : Option Text
  pub metadata : List (Text × Text)

pub data RetrieverName : Type 0 where
  dense lexical fused rerank : RetrieverName

pub record ScoredChunk (F : Type 0) : Type 0 where
  pub chunk : Chunk
  pub score : F
  pub rank : ℕ
  pub retriever : RetrieverName

pub record Document : Type 0 where
  pub doc_id : Text
  pub source_uri : Text
  pub mime_type : Text
  pub checksum : Text
  pub text : Option Text
  pub acl : AclTags
  pub metadata : List (Text × Text)

pub record QueryResult (F : Type 0) : Type 0 where
  pub query : Text
  pub rewritten : List Text
  pub results : List (ScoredChunk F)
  pub index_version : Text
  pub trace_id : Text
  pub latency_ms : F
  pub cache_hit : Bool
