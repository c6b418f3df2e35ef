-- ===== src/Tests/RemoteTests.antt =====
-- The theorems on the remote backends at a sample client of Qdrant, which holds one record.
use ai_rag.Prelude.{
  ℕ, ◌≡◌, ◌≤◌, refl, List, [], ◌∷◌, true, some, codes, text_eq, arith, All, or_else, if◌then◌else◌,
  length, zero, suc, starts_with, Bool-cases, inl, inr, sym, contains, text_lt,
}
use ai_rag.Prelude.Number.{whole}
use ai_rag.Prelude.Sort.{IsDescending, sort_desc, place}
use ai_rag.Prelude.Result.{ok, and_then, then_of}
use ai_rag.Security.Acl.{for_principal, sorted}
use ai_rag.Retrieval.Store.{is_eligible}
use ai_rag.Retrieval.Remote.{
  Payload, to_payload, from_payload, Filter, collection_for, version_in, rsplit,
}
use ai_rag.Retrieval.Remote.Filters.{
  holds, how_many, version_conditions, group_conditions, qdrant_filter, passes,
  qdrant_filter-is_eligible,
}
use ai_rag.Retrieval.Remote.Names.{version_in-collection_for}
use ai_rag.Retrieval.Remote.Qdrant.{
  Point, QdrantClient, QdrantVectorStore, no_payload, search, hits, Honours, IsRemoteHits,
  search-IsRemoteHits,
}
use ai_rag.Tests.Samples.{alice}
use ai_rag.Tests.RetrievalTests.{chunk_of}

abbrev stored : Payload
stored = to_payload (chunk_of (codes "a") (codes "acme"))

qdrant_filter-is_eligible_example :
    passes (qdrant_filter (for_principal alice (some (codes "v7")))) stored
    ≡ is_eligible alice (some (codes "v7")) (from_payload (codes "p") stored)
unfolding to_payload
qdrant_filter-is_eligible_example =
    qdrant_filter-is_eligible alice (some (codes "v7")) (codes "p") (codes "acme") (codes "v7")
      stored refl refl

version_in-collection_for_example :
    version_in (collection_for (codes "docs__v1") (some (codes "v2"))) ≡ codes "v2"
unfolding rsplit starts_with
version_in-collection_for_example =
    version_in-collection_for (codes "docs__v1") (codes "v2") refl refl

abbrev point : Point ℕ
point = record { id = codes "p"; score = 3; payload = some stored }

-- The record, where the filter passes it and the limit is not zero.
found : (limit : ℕ) → Filter → List (Point ℕ)
found zero f = []
found (suc n) f = if passes f stored then point ∷ [] else []

abbrev client : QdrantClient ℕ ℕ
client = record {
  get_collections = λ w. (ok [], w);
  create_collection = λ name n w. (ok tt, w);
  create_payload_index = λ name field w. (ok tt, w);
  upsert = λ name points w. (ok tt, w);
  delete = λ name ids w. (ok tt, w);
  query_points = λ name v limit f w. (ok (found limit f), w);
  get_aliases = λ w. (ok [], w);
  move_alias = λ a c w. (ok tt, w);
  count = λ name w. (ok 1, w);
  point_id = λ id. id;
}

abbrev remote : QdrantVectorStore ℕ ℕ
remote = record { client = client; collection = codes "docs__v7"; dimensions = 1 }

found-All :
    (limit : ℕ) (f : Filter)
    → All (λ p. passes f (or_else p.payload no_payload) ≡ true) (found limit f)
unfolding found
found-All zero f = tt
found-All (suc n) f = elim (Bool-cases (passes f stored)) [ inl e ↦ rw e (e, tt) | inr e ↦ rw e tt ]

length-found-le : (limit : ℕ) (f : Filter) → length (found limit f) ≤ limit
unfolding found
length-found-le zero f = omega arith
length-found-le (suc n) f = ground arith

found-IsDescending :
    (limit : ℕ) (f : Filter) → IsDescending (λ a b. whole.lt a.score b.score) (found limit f)
unfolding found
found-IsDescending zero f = tt
found-IsDescending (suc n) f = elim (Bool-cases (passes f stored)) [
  | inl e ↦ rw e (tt, tt)
  | inr e ↦ rw e tt
]

client-Honours : Honours remote
client-Honours = record {
  filtered = λ name v limit f w points h.
      let same : found limit f ≡ points = ground (arith, h) in rw (sym same) (found-All limit f);
  limited = λ name v limit f w points h.
      let same : found limit f ≡ points = ground (arith, h) in
      rw (sym same) (length-found-le limit f);
  best_first = λ name v limit f w points h.
      let same : found limit f ≡ points = ground (arith, h) in
      rw (sym same) (found-IsDescending limit f);
}

searched : (search remote [] 2 alice (some (codes "v7")) 0).0 ≡ ok (hits remote 1 (point ∷ []))
unfolding search and_then then_of found qdrant_filter for_principal passes holds how_many
    version_conditions group_conditions to_payload text_eq contains sorted sort_desc place text_lt
    hits from_payload
searched = refl

search-IsRemoteHits_example :
    IsRemoteHits remote alice (some (codes "v7")) 2 (hits remote 1 (point ∷ []))
search-IsRemoteHits_example =
    search-IsRemoteHits remote [] 2 alice (some (codes "v7")) 0 (hits remote 1 (point ∷ []))
      client-Honours searched
