-- ===== src/Retrieval/Remote/Qdrant.antt =====
-- `QdrantVectorStore` of src/rag/vectordb/qdrant.py. The client of Qdrant is a record of its calls, which change a
-- world and may raise.
use ai_rag.Prelude.{
  ℕ, ◌+◌, ◌==◌, ◌≡◌, ◌≤◌, refl, sym, Text, List, [], ◌∷◌, map, true, false, not, Option, none, some,
  if◌then◌else◌, codes, is_empty, text_eq, contains, length, All, arith, or_else,
}
use ai_rag.Prelude.Number.{Float}
use ai_rag.Prelude.Dict.{Dict, lookup, insert}
use ai_rag.Prelude.Sort.{IsDescending}
use ai_rag.Prelude.Result.{ok, raise, Call, value_error, and_then, and_then_cases}
use ai_rag.Schemas.Principal.{Principal}
use ai_rag.Schemas.Chunk.{Chunk, ScoredChunk, dense}
use ai_rag.Security.Acl.{for_principal}
use ai_rag.Retrieval.Ranking.{IsRanked, by_score}
use ai_rag.Retrieval.Store.{is_eligible}
use ai_rag.Retrieval.Remote.{Payload, to_payload, from_payload, Filter, collection_for, version_in}
use ai_rag.Retrieval.Remote.Filters.{qdrant_filter, passes, qdrant_filter-safe}

pub record Point (F : Type 0) : Type 0 where
  pub id : Text
  pub score : F
  pub payload : Option Payload

abbrev pub no_payload : Payload
no_payload = record {
  chunk_id = none;
  doc_id = none;
  ordinal = none;
  text = none;
  span_start = none;
  span_end = none;
  tenant = none;
  allow_groups = none;
  classification = none;
  index_version = none;
  embedding_model = none;
  metadata = none;
}

-- The calls of the client, and `uuid5` as `_point_id` makes it.
pub record QdrantClient (F W : Type 0) : Type 0 where
  pub get_collections : Call W (List Text)
  pub create_collection : (name : Text) → (dimensions : ℕ) → Call W Unit
  pub create_payload_index : (name field : Text) → Call W Unit
  pub upsert : (name : Text) → List (Text × List F × Payload) → Call W Unit
  pub delete : (name : Text) → List Text → Call W Unit
  pub query_points : (name : Text) → List F → (limit : ℕ) → Filter → Call W (List (Point F))
  pub get_aliases : Call W (List (Text × Text))
  -- the alias deleted, and created for the collection
  pub move_alias : (alias collection : Text) → Call W Unit
  pub count : (name : Text) → Call W ℕ
  pub point_id : Text → Text

pub record QdrantVectorStore (F W : Type 0) : Type 0 where
  pub client : QdrantClient F W
  pub collection : Text
  pub dimensions : ℕ

-- `_aliases` and the world of the client.
pub record Qdrant (W : Type 0) : Type 0 where
  pub world : W
  pub aliases : Dict Text

module _ {F W : Type 0} (self : QdrantVectorStore F W) where
  -- The payload indexes of a new collection.
  unfoldable pub index_fields : (name : Text) → List Text → Call W Unit
  index_fields name [] w = (ok tt, w)
  index_fields name (field ∷ fields) w =
      and_then (self.client.create_payload_index name field w) (λ u. index_fields name fields)

  unfoldable pub create : (name : Text) → Call W Unit
  create name w =
      and_then (self.client.create_collection name self.dimensions w) (λ u.
        index_fields name (codes "tenant" ∷ codes "allow_groups" ∷ codes "index_version" ∷ []))

  unfoldable pub ensure_collection : (name : Text) → Call W Unit
  ensure_collection name w =
      and_then (self.client.get_collections w)
        (λ existing w1. if contains name existing then (ok tt, w1) else create name w1)

  -- The points of the chunks, which are as many as the vectors.
  unfoldable pub points_of : List Chunk → List (List F) → List (Text × List F × Payload)
  points_of [] vectors = []
  points_of (c ∷ cs) [] = []
  points_of (c ∷ cs) (v ∷ vs) = (self.client.point_id c.chunk_id, v, to_payload c) ∷ points_of cs vs

  unfoldable pub upsert : List Chunk → List (List F) → Call W Unit
  upsert chunks vectors w =
      if not (length chunks == length vectors)
      then (raise (value_error (codes "chunks and vectors length mismatch")), w)
      else if is_empty chunks
      then (ok tt, w)
      else and_then (ensure_collection self.collection w)
          (λ u. self.client.upsert self.collection (points_of chunks vectors))

  unfoldable pub delete : List Text → Call W Unit
  delete chunk_ids w =
      if is_empty chunk_ids
      then (ok tt, w)
      else self.client.delete self.collection (map self.client.point_id chunk_ids) w

  -- The loop over the points, with the rank of the next.
  unfoldable pub hits : (rank : ℕ) → List (Point F) → List (ScoredChunk F)
  hits rank [] = []
  hits rank (point ∷ points) =
      record {
        chunk = from_payload point.id (or_else point.payload no_payload);
        score = point.score;
        rank = rank;
        retriever = dense;
      }
      ∷ hits (rank + 1) points

  unfoldable pub search :
      List F → (top_k : ℕ) → Principal → Option Text → Call W (List (ScoredChunk F))
  search vector top_k principal index_version w =
      and_then
        (self.client.query_points (collection_for self.collection index_version) vector top_k
          (qdrant_filter (for_principal principal index_version)) w)
        (λ points w1. (ok (hits 1 points), w1))

  -- The first record of the alias, else what this process published.
  unfoldable pub find_alias :
      (alias : Text) → (local : Option Text) → List (Text × Text) → Option Text
  find_alias alias local [] = local
  find_alias alias local ((name, collection) ∷ records) =
      if text_eq name alias then some (version_in collection) else find_alias alias local records

  unfoldable pub resolve_alias : (alias : Text) → Qdrant W → Option Text × Qdrant W
  resolve_alias alias s =
      let (out, w) = self.client.get_aliases s.world in
      let s1 = record s { world = w } in
      elim out [
        | raise e ↦ (lookup alias s.aliases, s1)
        | ok records ↦ (find_alias alias (lookup alias s.aliases) records, s1)
      ]

  unfoldable pub set_alias : (alias index_version : Text) → Call (Qdrant W) Unit
  set_alias alias index_version s =
      let (out, w) =
        self.client.move_alias alias (collection_for self.collection (some index_version))
          s.world in
      (out, record { world = w; aliases = insert alias index_version s.aliases })

  unfoldable pub count : Option Text → Call W ℕ
  count index_version = self.client.count (collection_for self.collection index_version)

  -- What is documented of `query_points`: it returns records that pass the filter, at most `limit` of them, the
  -- best first.
  pub record Honours ⦃fl : Float F⦄ : Type 0 where
    pub filtered :
        (name : Text) (v : List F) (limit : ℕ) (f : Filter) (w : W) (points : List (Point F))
        → (self.client.query_points name v limit f w).0 ≡ ok points
        → All (λ p. passes f (or_else p.payload no_payload) ≡ true) points
    pub limited :
        (name : Text) (v : List F) (limit : ℕ) (f : Filter) (w : W) (points : List (Point F))
        → (self.client.query_points name v limit f w).0 ≡ ok points
        → length points ≤ limit
    pub best_first :
        (name : Text) (v : List F) (limit : ℕ) (f : Filter) (w : W) (points : List (Point F))
        → (self.client.query_points name v limit f w).0 ≡ ok points
        → IsDescending (λ a b. fl.lt a.score b.score) points

  -- The hits of a search, as those of the store in memory.
  pub record IsRemoteHits ⦃fl : Float F⦄ (principal : Principal) (version : Option Text) (top_k : ℕ)
      (found : List (ScoredChunk F)) : Type 0 where
    pub eligible : All (λ s. is_eligible principal version s.chunk ≡ true) found
    pub bounded : length found ≤ top_k
    pub ranks : IsRanked 1 found
    pub descending : IsDescending by_score found

  hits-eligible :
      (principal : Principal) (version : Option Text) (rank : ℕ) (points : List (Point F))
      → All
          (λ p.
            passes (qdrant_filter (for_principal principal version)) (or_else p.payload no_payload)
            ≡ true)
          points
      → All (λ s. is_eligible principal version s.chunk ≡ true) (hits rank points)
  unfolding hits
  hits-eligible principal version rank [] h = tt
  hits-eligible principal version rank (p ∷ ps) h = (
    qdrant_filter-safe principal version p.id (or_else p.payload no_payload) h.0,
    hits-eligible principal version (rank + 1) ps h.1,
  )

  length-hits : (rank : ℕ) (points : List (Point F)) → length (hits rank points) ≡ length points
  unfolding hits
  length-hits rank [] = refl
  length-hits rank (p ∷ ps) = omega (arith, length-hits (rank + 1) ps)

  hits-IsRanked : (rank : ℕ) (points : List (Point F)) → IsRanked rank (hits rank points)
  unfolding hits
  hits-IsRanked rank [] = tt
  hits-IsRanked rank (p ∷ ps) = (refl, hits-IsRanked (rank + 1) ps)

  hits_bound :
      ⦃fl : Float F⦄ (rank : ℕ) (x : F) (points : List (Point F))
      → All (λ b. fl.lt x b.score ≡ false) points
      → All (λ b. fl.lt x b.score ≡ false) (hits rank points)
  unfolding hits
  hits_bound rank x [] h = tt
  hits_bound rank x (p ∷ ps) h = (h.0, hits_bound (rank + 1) x ps h.1)

  hits-IsDescending :
      ⦃fl : Float F⦄ (rank : ℕ) (points : List (Point F))
      → IsDescending (λ a b. fl.lt a.score b.score) points
      → IsDescending by_score (hits rank points)
  unfolding hits
  hits-IsDescending rank [] h = tt
  hits-IsDescending rank (p ∷ ps) h =
      (hits_bound (rank + 1) p.score ps h.0, hits-IsDescending (rank + 1) ps h.1)

  -- A search of Qdrant promises what a search in memory does: every hit is a chunk that the principal may see, of the
  -- version asked for where one is, there are at most `top_k`, their ranks count up from 1 and no score is below a later
  -- one, where the server honours the filter, the limit and the order.
  pub search-IsRemoteHits :
      ⦃fl : Float F⦄ (vector : List F) (top_k : ℕ) (principal : Principal) (version : Option Text)
      (w : W) (found : List (ScoredChunk F))
      → Honours
      → (search vector top_k principal version w).0 ≡ ok found
      → IsRemoteHits principal version top_k found
  unfolding search
  search-IsRemoteHits vector top_k principal version w found laws h =
      let name : Text = collection_for self.collection version in
      let f : Filter = qdrant_filter (for_principal principal version) in
      and_then_cases (λ out. out.0 ≡ ok found → IsRemoteHits principal version top_k found)
        (self.client.query_points name vector top_k f w) (λ points w1. (ok (hits 1 points), w1))
        (λ e r k. absurd (ground (arith, k)))
        (λ points r k.
          let same : hits 1 points ≡ found = ground (arith, k) in
          rw (sym same) (record {
            eligible =
                hits-eligible principal version 1 points
                  (laws.filtered name vector top_k f w points r);
            bounded =
                omega (arith, length-hits 1 points, laws.limited name vector top_k f w points r);
            ranks = hits-IsRanked 1 points;
            descending =
                hits-IsDescending 1 points (laws.best_first name vector top_k f w points r);
          }))
        h
