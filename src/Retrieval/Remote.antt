-- ===== src/Retrieval/Remote.antt =====
-- What src/rag/vectordb/qdrant.py and src/rag/lexical/opensearch.py share: the fields stored of a chunk, the
-- conditions of a filter, and the names of the collections.
pub mod Filters
pub mod Qdrant
pub mod OpenSearch
pub mod Names
use ai_rag.Prelude.{
  ℕ, zero, suc, ◌+◌, ◌==◌, Text, List, [], ◌∷◌, ◌++◌, Bool, true, false, not, ◌&&◌, ◌||◌, Option,
  none, some, if◌then◌else◌, codes, is_empty, is_within, starts_with, text_eq, contains, any, all,
  drop, or_else,
}
use ai_rag.Schemas.Principal.{AclTags}
use ai_rag.Schemas.Chunk.{Chunk}
use ai_rag.Security.Acl.{sorted}

-- A stored record, by its fields; a field may be missing.
pub record Payload : Type 0 where
  pub chunk_id : Option Text
  pub doc_id : Option Text
  pub ordinal : Option ℕ
  pub text : Option Text
  pub span_start : Option ℕ
  pub span_end : Option ℕ
  pub tenant : Option Text
  pub allow_groups : Option (List Text)
  pub classification : Option Text
  pub index_version : Option Text
  pub embedding_model : Option Text
  pub metadata : Option (List (Text × Text))

-- `_to_payload`
unfoldable pub to_payload : Chunk → Payload
to_payload chunk = record {
  chunk_id = some chunk.chunk_id;
  doc_id = some chunk.doc_id;
  ordinal = some chunk.ordinal;
  text = some chunk.text;
  span_start = some chunk.span.0;
  span_end = some chunk.span.1;
  tenant = some chunk.acl.tenant;
  allow_groups = some (sorted chunk.acl.allow_groups);
  classification = some chunk.acl.classification;
  index_version = some chunk.index_version;
  embedding_model = chunk.embedding_model;
  metadata = some chunk.metadata;
}

-- `_to_source`: without the field for a chunk of the whole tenant
unfoldable pub to_source : Chunk → Payload
to_source chunk = record (to_payload chunk) {
  allow_groups =
      if is_empty chunk.acl.allow_groups then none else some (sorted chunk.acl.allow_groups);
}

-- `_from_payload` and `_from_source`
unfoldable pub from_payload : (point_id : Text) → Payload → Chunk
from_payload point_id payload = record {
  chunk_id = or_else payload.chunk_id point_id;
  doc_id = or_else payload.doc_id [];
  ordinal = or_else payload.ordinal 0;
  text = or_else payload.text [];
  span = (or_else payload.span_start 0, or_else payload.span_end 0);
  acl = record {
    tenant = or_else payload.tenant [];
    allow_groups = or_else payload.allow_groups [];
    classification = or_else payload.classification (codes "internal");
  };
  index_version = or_else payload.index_version [];
  embedding_model = payload.embedding_model;
  metadata = or_else payload.metadata [];
}

-- The conditions of the two query languages: a field has the value, has one of the values, or is missing or empty.
pub data Condition : Type 0 where
  tenant_is : Text → Condition
  version_is : Text → Condition
  groups_any : List Text → Condition
  groups_empty : Condition

-- `models.Filter`: all of the first, and at least `min_count` of the others.
pub record Filter : Type 0 where
  pub must : List Condition
  pub min_should : List Condition
  pub min_count : ℕ

-- An entry of a `filter` list: a condition, or a choice with its `minimum_should_match`.
pub data Clause : Type 0 where
  one : Condition → Clause
  choice : List Condition → ℕ → Clause

-- The last `__` of a name: what is before it, and what is behind.
unfoldable pub rsplit : Text → Option (Text × Text)
rsplit [] = none
rsplit (c ∷ text) = elim (rsplit text) [
  | some (before, after) ↦ some (c ∷ before, after)
  | none ↦ if starts_with (c ∷ text) (codes "__") then some ([], drop 1 text) else none
]

-- `name.rsplit("__", 1)[0]`, which is the name itself where it holds no `__`
unfoldable pub prefix_of : Text → Text
prefix_of name = elim (rsplit name) [ none ↦ name | some (before, after) ↦ before ]

-- `name.rsplit("__", 1)[-1]`
unfoldable pub version_in : Text → Text
version_in name = elim (rsplit name) [ none ↦ name | some (before, after) ↦ after ]

-- `collection_for` and `index_for`
unfoldable pub collection_for : (collection : Text) → Option Text → Text
collection_for collection none = collection
collection_for collection (some v) =
    if is_empty v then collection else prefix_of collection ++ (codes "__" ++ v)
