-- ===== src/Retrieval/Ranking.antt =====
-- How the backends rank: the loops over `enumerate(scored[:top_k], start=1)` of
-- src/rag/vectordb/memory.py, src/rag/lexical/bm25_memory.py and src/rag/rerank/identity.py.
use ai_rag.Prelude.{ℕ, ◌+◌, ◌≡◌, refl, List, [], ◌∷◌, Bool, false, arith, length, take, All}
use ai_rag.Prelude.Number.{Float}
use ai_rag.Prelude.Sort.{IsDescending}
use ai_rag.Schemas.Chunk.{Chunk, ScoredChunk, RetrieverName, rerank}

module _ {F : Type 0} where
  -- The scored chunks with the ranks `n`, `n + 1`, …
  unfoldable pub ranked : RetrieverName → (n : ℕ) → List (F × Chunk) → List (ScoredChunk F)
  ranked retriever n [] = []
  ranked retriever n ((score, chunk) ∷ rest) =
      record { chunk = chunk; score = score; rank = n; retriever = retriever }
      ∷ ranked retriever (n + 1) rest

  -- `IdentityReranker.rerank`, which does not read the query, from the rank `n` on.
  unfoldable pub relabelled : RetrieverName → (n : ℕ) → List (ScoredChunk F) → List (ScoredChunk F)
  relabelled retriever n [] = []
  relabelled retriever n (item ∷ rest) =
      record { chunk = item.chunk; score = item.score; rank = n; retriever = retriever }
      ∷ relabelled retriever (n + 1) rest

  unfoldable pub identity_rerank : List (ScoredChunk F) → (top_k : ℕ) → List (ScoredChunk F)
  identity_rerank candidates top_k = relabelled rerank 1 (take top_k candidates)

  -- The ranks count up from `n`.
  abbrev pub IsRanked : ℕ → List (ScoredChunk F) → Type 0
  IsRanked n [] = Unit
  IsRanked n (s ∷ ss) = (s.rank ≡ n) × IsRanked (n + 1) ss

  pub ranked-IsRanked :
      (r : RetrieverName) (n : ℕ) (xs : List (F × Chunk)) → IsRanked n (ranked r n xs)
  unfolding ranked
  ranked-IsRanked r n [] = tt
  ranked-IsRanked r n (x ∷ xs) = (refl, ranked-IsRanked r (n + 1) xs)

  pub relabelled-IsRanked :
      (r : RetrieverName) (n : ℕ) (xs : List (ScoredChunk F)) → IsRanked n (relabelled r n xs)
  unfolding relabelled
  relabelled-IsRanked r n [] = tt
  relabelled-IsRanked r n (x ∷ xs) = (refl, relabelled-IsRanked r (n + 1) xs)

  pub length-ranked :
      (r : RetrieverName) (n : ℕ) (xs : List (F × Chunk)) → length (ranked r n xs) ≡ length xs
  unfolding ranked
  length-ranked r n [] = refl
  length-ranked r n (x ∷ xs) = omega (arith, length-ranked r (n + 1) xs)

  pub length-relabelled :
      (r : RetrieverName) (n : ℕ) (xs : List (ScoredChunk F))
      → length (relabelled r n xs) ≡ length xs
  unfolding relabelled
  length-relabelled r n [] = refl
  length-relabelled r n (x ∷ xs) = omega (arith, length-relabelled r (n + 1) xs)

  module _ (P : Chunk → Type 0) where
    pub All-ranked :
        (r : RetrieverName) (n : ℕ) (xs : List (F × Chunk))
        → All (λ e. P e.1) xs
        → All (λ s. P s.chunk) (ranked r n xs)
    unfolding ranked
    All-ranked r n [] h = tt
    All-ranked r n (x ∷ xs) h = (h.0, All-ranked r (n + 1) xs h.1)

    pub All-relabelled :
        (r : RetrieverName) (n : ℕ) (xs : List (ScoredChunk F))
        → All (λ s. P s.chunk) xs
        → All (λ s. P s.chunk) (relabelled r n xs)
    unfolding relabelled
    All-relabelled r n [] h = tt
    All-relabelled r n (x ∷ xs) h = (h.0, All-relabelled r (n + 1) xs h.1)

module _ {F : Type 0} ⦃fl : Float F⦄ where
  abbrev pub by_score : ScoredChunk F → ScoredChunk F → Bool
  by_score a b = fl.lt a.score b.score

  abbrev pub by_first : F × Chunk → F × Chunk → Bool
  by_first a b = fl.lt a.0 b.0

  ranked_bound :
      (r : RetrieverName) (n : ℕ) (x : F) (xs : List (F × Chunk))
      → All (λ y. fl.lt x y.0 ≡ false) xs
      → All (λ s. fl.lt x s.score ≡ false) (ranked r n xs)
  unfolding ranked
  ranked_bound r n x [] h = tt
  ranked_bound r n x (y ∷ ys) h = (h.0, ranked_bound r (n + 1) x ys h.1)

  pub ranked-IsDescending :
      (r : RetrieverName) (n : ℕ) (xs : List (F × Chunk))
      → IsDescending by_first xs
      → IsDescending by_score (ranked r n xs)
  unfolding ranked
  ranked-IsDescending r n [] h = tt
  ranked-IsDescending r n (x ∷ xs) h =
      (ranked_bound r (n + 1) x.0 xs h.0, ranked-IsDescending r (n + 1) xs h.1)

  relabelled_bound :
      (r : RetrieverName) (n : ℕ) (x : F) (xs : List (ScoredChunk F))
      → All (λ s. fl.lt x s.score ≡ false) xs
      → All (λ s. fl.lt x s.score ≡ false) (relabelled r n xs)
  unfolding relabelled
  relabelled_bound r n x [] h = tt
  relabelled_bound r n x (y ∷ ys) h = (h.0, relabelled_bound r (n + 1) x ys h.1)

  pub relabelled-IsDescending :
      (r : RetrieverName) (n : ℕ) (xs : List (ScoredChunk F))
      → IsDescending by_score xs
      → IsDescending by_score (relabelled r n xs)
  unfolding relabelled
  relabelled-IsDescending r n [] h = tt
  relabelled-IsDescending r n (x ∷ xs) h =
      (relabelled_bound r (n + 1) x.score xs h.0, relabelled-IsDescending r (n + 1) xs h.1)
