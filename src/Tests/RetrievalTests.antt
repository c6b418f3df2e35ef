-- ===== src/Tests/RetrievalTests.antt =====
-- The theorems on retrieval at sample chunks.
use ai_rag.Prelude.{
  ℕ, ◌≡◌, refl, Text, List, [], ◌∷◌, ◌⊎◌, true, false, none, some, codes, text_eq, contains, All,
  Some, inl,
}
use ai_rag.Prelude.Number.{whole}
use ai_rag.Prelude.Dict.{lookup, insert}
use ai_rag.Prelude.Sort.{sort_desc, place}
use ai_rag.Prelude.Result.{ok}
use ai_rag.Schemas.Chunk.{Chunk, ScoredChunk, dense, fused}
use ai_rag.Security.Acl.{is_allowed}
use ai_rag.Retrieval.Ranking.{ranked, relabelled}
use ai_rag.Retrieval.Store.{MemoryVectorStore, search, cosine, is_eligible, fits_version}
use ai_rag.Retrieval.Store.Search.{IsHits, search-IsHits, search_best}
use ai_rag.Retrieval.Fusion.{
  fusion, fuse_lists, fuse_list, fuse_item, is_better, with_best, reciprocal_rank_fusion,
}
use ai_rag.Retrieval.Fusion.Fair.{rrf_score, fuse_lists-rrf_score}
use ai_rag.Retrieval.Hybrid.{
  HybridRetriever, retrieve_multi, fan_out, texts_of, search_each, post_filter,
}
use ai_rag.Retrieval.Hybrid.Access.{IsRetrieved, retrieve_multi-IsRetrieved}
use ai_rag.Tests.Samples.{alice, shared}

abbrev pub chunk_of : Text → Text → Chunk
chunk_of id tenant = record {
  chunk_id = id;
  doc_id = codes "d1";
  ordinal = 0;
  text = codes "body";
  span = (0, 4);
  acl = record shared { tenant = tenant };
  index_version = codes "v7";
  embedding_model = none;
  metadata = [];
}

abbrev hit : Text → Text → ℕ → ScoredChunk ℕ
hit id tenant rank = record {
  chunk = chunk_of id tenant;
  score = 9;
  rank = rank;
  retriever = dense;
}

abbrev same : ℕ → ℕ
same n = n

abbrev store : MemoryVectorStore ℕ
store = record {
  items =
      (codes "a", (chunk_of (codes "a") (codes "acme"), 2 ∷ []))
      ∷ (codes "b", (chunk_of (codes "b") (codes "other"), 3 ∷ []))
      ∷ [];
  aliases = [];
}

search-IsHits_example :
    IsHits same
      (2 ∷ [])
      alice
      (some (codes "v7"))
      5
      (search same (2 ∷ []) 5 alice (some (codes "v7")) store)
search-IsHits_example = search-IsHits same (2 ∷ []) alice (some (codes "v7")) 5 store

eligible : is_eligible alice (some (codes "v7")) (chunk_of (codes "a") (codes "acme")) ≡ true
unfolding is_eligible fits_version is_allowed text_eq contains
eligible = refl

search_best_example :
    Some
      (λ (s : ScoredChunk ℕ).
        (s.chunk ≡ chunk_of (codes "a") (codes "acme")) × (s.score ≡ cosine same (2 ∷ []) (2 ∷ [])))
      (search same (2 ∷ []) 5 alice (some (codes "v7")) store)
    ⊎ All
        (λ (s : ScoredChunk ℕ). whole.lt s.score (cosine same (2 ∷ []) (2 ∷ [])) ≡ false)
        (search same (2 ∷ []) 5 alice (some (codes "v7")) store)
search_best_example =
    search_best same (2 ∷ []) alice (some (codes "v7")) 5 store
      (chunk_of (codes "a") (codes "acme")) (2 ∷ []) (inl refl) eligible

abbrev lists : List (List (ScoredChunk ℕ))
lists =
    (hit (codes "a") (codes "acme") 1 ∷ hit (codes "b") (codes "other") 2 ∷ [])
    ∷ (hit (codes "b") (codes "other") 1 ∷ [])
    ∷ []

fuse_lists-rrf_score_example :
    lookup (codes "b") (fuse_lists 60 (1 ∷ 1 ∷ []) lists (record { scores = []; best = [] })).scores
    ≡ rrf_score 60 (codes "b") (1 ∷ 1 ∷ []) lists none
fuse_lists-rrf_score_example = fuse_lists-rrf_score 60 (codes "b") (1 ∷ 1 ∷ []) lists

-- A vector store that forgets to filter.
abbrev pub leaky : HybridRetriever ℕ
leaky = record {
  vector_search = λ v k p version.
      ok (hit (codes "b") (codes "other") 1 ∷ hit (codes "a") (codes "acme") 2 ∷ []);
  lexical_search = λ q k p version. ok [];
  embed = λ texts. ok ((1 ∷ []) ∷ []);
  rrf_k = 60;
  dense_weight = 100;
  lexical_weight = 1;
}

abbrev kept : ScoredChunk ℕ
kept = record {
  chunk = chunk_of (codes "a") (codes "acme");
  score = 0;
  rank = 1;
  retriever = fused;
}

leaky_hits : retrieve_multi leaky (codes "q" ∷ []) alice 5 none none ≡ ok (kept ∷ [])
unfolding retrieve_multi texts_of fan_out search_each reciprocal_rank_fusion fusion fuse_lists
    fuse_list fuse_item is_better with_best post_filter relabelled ranked sort_desc place lookup
    insert is_allowed text_eq contains
leaky_hits = refl

retrieve_multi-IsRetrieved_example : IsRetrieved alice 5 (kept ∷ [])
retrieve_multi-IsRetrieved_example =
    retrieve_multi-IsRetrieved leaky alice 5 (codes "q" ∷ []) none none (kept ∷ []) leaky_hits
