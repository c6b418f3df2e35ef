-- ===== src/Retrieval/Remote/Names.antt =====
-- The names and the records of src/rag/vectordb/qdrant.py, written and read back.
use ai_rag.Prelude.{
  ℕ, ◌≡◌, refl, Text, List, [], ◌∷◌, ◌++◌, true, false, none, some, if◌then◌else◌, codes, is_empty,
  starts_with, drop, or_else,
}
use ai_rag.Prelude.Sort.{sort_desc}
use ai_rag.Schemas.Chunk.{Chunk}
use ai_rag.Security.Acl.{sorted}
use ai_rag.Retrieval.Remote.{
  rsplit, prefix_of, version_in, collection_for, to_payload, to_source, from_payload,
}

rsplit_here :
    (c : ℕ) (text : Text)
    → rsplit text ≡ none
    → starts_with (c ∷ text) (codes "__") ≡ true
    → rsplit (c ∷ text) ≡ some ([], drop 1 text)
unfolding rsplit
rsplit_here c text h k = rw (rsplit, h, k) refl

-- The last `__` of a name that ends in `__` and a text without one, not even across the seam, is that one.
rsplit-append :
    (before after : Text)
    → rsplit (codes "_" ++ after) ≡ none
    → rsplit (before ++ (codes "__" ++ after)) ≡ some (before, after)
unfolding rsplit starts_with
rsplit-append [] after h = rsplit_here b'_' (codes "_" ++ after) h refl
rsplit-append (c ∷ before) after h = rw (rsplit, rsplit-append before after h) refl

-- A version that is published under an alias is read back from the name of its collection, whatever the collection
-- of the process, where its name is not empty and holds no `__`, also not with a `_` before it.
pub version_in-collection_for :
    (collection version : Text)
    → is_empty version ≡ false
    → rsplit (codes "_" ++ version) ≡ none
    → version_in (collection_for collection (some version)) ≡ version
unfolding version_in collection_for
version_in-collection_for collection version named h =
    rw (version_in, collection_for, named, rsplit-append (prefix_of collection) version h) refl

-- A chunk with its groups sorted.
abbrev pub regrouped : Chunk → Chunk
regrouped c = record c { acl = record (c.acl) { allow_groups = sorted c.acl.allow_groups } }

-- What is stored of a chunk in Qdrant gives the chunk back, its groups sorted.
pub from_payload-to_payload : (id : Text) (c : Chunk) → from_payload id (to_payload c) ≡ regrouped c
unfolding from_payload to_payload
from_payload-to_payload id c = refl

groups_back :
    (gs : List Text) → or_else (if is_empty gs then none else some (sorted gs)) [] ≡ sorted gs
unfolding sorted sort_desc
groups_back [] = refl
groups_back (g ∷ gs) = refl

-- And so does what is stored in OpenSearch, where a chunk of the whole tenant has no field for its groups.
pub from_payload-to_source : (id : Text) (c : Chunk) → from_payload id (to_source c) ≡ regrouped c
unfolding from_payload to_source to_payload
from_payload-to_source id c = rw (from_payload, to_source, groups_back c.acl.allow_groups) refl
