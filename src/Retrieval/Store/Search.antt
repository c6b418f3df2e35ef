-- ===== src/Retrieval/Store/Search.antt =====
-- What the search of src/rag/vectordb/memory.py finds.
use mathlib.Core.Path.{ap}
use ai_rag.Prelude.{
  ℕ, zero, suc, ◌+◌, ◌≤◌, ◌≡◌, Text, List, [], ◌∷◌, Bool, true, false, Option, arith, length, take,
  length-take-le, All, All-take, In, Some, inl, inr, ◌⊎◌, Bool-cases, All-In,
}
use ai_rag.Prelude.Number.{Float}
use ai_rag.Prelude.Dict.{values}
use ai_rag.Prelude.Sort.{
  sort_desc, place, IsDescending, take-IsDescending, sort_desc-IsDescending, All-sort_desc,
}
use ai_rag.Schemas.Principal.{Principal}
use ai_rag.Schemas.Chunk.{Chunk, ScoredChunk, dense}
use ai_rag.Retrieval.Ranking.{
  ranked, by_first, by_score, IsRanked, ranked-IsRanked, length-ranked, All-ranked,
  ranked-IsDescending,
}
use ai_rag.Retrieval.Store.{MemoryVectorStore, is_eligible, cosine, scored_items, search}

module _ {A : Type 0} (lt : A → A → Bool) where
  In-place : (x y : A) (ys : List A) → (x ≡ y) ⊎ In y ys → In y (place lt x ys)
  unfolding place
  In-place x y [] (inl e) = inl e
  In-place x y [] (inr k) = absurd k
  In-place x y (z ∷ zs) h = elim (Bool-cases (lt x z)) [
    | inl e ↦ rw e (elim h [
      | inl same ↦ inr (In-place x y zs (inl same))
      | inr k ↦ elim k [ inl here ↦ inl here | inr later ↦ inr (In-place x y zs (inr later)) ]
    ])
    | inr e ↦ rw e h
  ]

  In-sort_desc : (y : A) (xs : List A) → In y xs → In y (sort_desc lt xs)
  unfolding sort_desc
  In-sort_desc y (x ∷ xs) (inl e) = In-place x y (sort_desc lt xs) (inl e)
  In-sort_desc y (x ∷ xs) (inr k) = In-place x y (sort_desc lt xs) (inr (In-sort_desc y xs k))
  In-sort_desc y [] h = absurd h

  -- What a cut of a descending list leaves out is not larger than anything kept.
  take-best :
      (n : ℕ) (xs : List A) (y : A)
      → IsDescending lt xs
      → In y xs
      → In y (take n xs) ⊎ All (λ x. lt x y ≡ false) (take n xs)
  take-best zero xs y d h = inr tt
  take-best (suc n) [] y d h = absurd h
  take-best (suc n) (x ∷ xs) y d (inl e) = inl (inl e)
  take-best (suc n) (x ∷ xs) y d (inr k) = elim (take-best n xs y d.1 k) [
    | inl found ↦ inl (inr found)
    | inr above ↦ inr (All-In (λ z. lt x z ≡ false) y xs d.0 k, above)
  ]

module _ {F : Type 0} ⦃fl : Float F⦄ (sqrt : F → F) (vector : List F) (principal : Principal)
    (version : Option Text) where
  scored_items-All :
      (items : List (Chunk × List F))
      → All
          (λ e. is_eligible principal version e.1 ≡ true)
          (scored_items sqrt vector principal version items)
  unfolding scored_items
  scored_items-All [] = tt
  scored_items-All ((c, v) ∷ rest) = elim (Bool-cases (is_eligible principal version c)) [
    | inl e ↦ rw (e, scored_items) (e, scored_items-All rest)
    | inr e ↦ rw (e, scored_items) (scored_items-All rest)
  ]

  scored_items-In :
      (items : List (Chunk × List F)) (c : Chunk) (v : List F)
      → In (c, v) items
      → is_eligible principal version c ≡ true
      → In (cosine sqrt vector v, c) (scored_items sqrt vector principal version items)
  unfolding scored_items
  scored_items-In [] c v h ok = absurd h
  scored_items-In ((d, u) ∷ rest) c v (inl e) ok =
      let same : d ≡ c = ap (λ p. p.0) e in
      let alike : u ≡ v = ap (λ p. p.1) e in
      let fits : is_eligible principal version d ≡ true = cc in rw (fits, scored_items) (inl cc)
  scored_items-In ((d, u) ∷ rest) c v (inr k) ok =
      elim (Bool-cases (is_eligible principal version d)) [
        | inl e ↦ rw (e, scored_items) (inr (scored_items-In rest c v k ok))
        | inr e ↦ rw (e, scored_items) (scored_items-In rest c v k ok)
      ]

  sorted_items-IsDescending :
      (self : MemoryVectorStore F)
      → IsDescending by_first
          (sort_desc by_first (scored_items sqrt vector principal version (values self.items)))
  sorted_items-IsDescending self =
      sort_desc-IsDescending by_first (λ a b. fl.lt_asymm a.0 b.0)
        (λ a b c. fl.ge_trans a.0 b.0 c.0) _

  -- The hits of a search.
  pub record IsHits (top_k : ℕ) (hits : List (ScoredChunk F)) : Type 0 where
    pub eligible : All (λ s. is_eligible principal version s.chunk ≡ true) hits
    pub bounded : length hits ≤ top_k
    pub ranks : IsRanked 1 hits
    pub descending : IsDescending by_score hits

  -- Every hit is a chunk that the principal may see, of the version asked for where one is, there are at most
  -- `top_k`, their ranks count up from 1 and no score is below a later one.
  pub search-IsHits :
      (top_k : ℕ) (self : MemoryVectorStore F)
      → IsHits top_k (search sqrt vector top_k principal version self)
  unfolding search
  search-IsHits top_k self =
      let sorted =
        sort_desc by_first (scored_items sqrt vector principal version (values self.items)) in
      record {
        eligible =
            All-ranked (λ c. is_eligible principal version c ≡ true) dense 1 (take top_k sorted)
              (All-take _ top_k sorted
                (All-sort_desc by_first _ _ (scored_items-All (values self.items))));
        bounded =
            omega (arith, length-ranked dense 1 (take top_k sorted), length-take-le top_k sorted);
        ranks = ranked-IsRanked dense 1 (take top_k sorted);
        descending =
            ranked-IsDescending dense 1 (take top_k sorted)
              (take-IsDescending by_first top_k sorted (sorted_items-IsDescending self));
      }

  ranked-Some :
      (n : ℕ) (xs : List (F × Chunk)) (c : Chunk) (score : F)
      → In (score, c) xs
      → Some (λ (s : ScoredChunk F). (s.chunk ≡ c) × (s.score ≡ score)) (ranked dense n xs)
  unfolding ranked
  ranked-Some n [] c score h = absurd h
  ranked-Some n (x ∷ xs) c score (inl e) = inl (ap (λ p. p.1) e, ap (λ p. p.0) e)
  ranked-Some n (x ∷ xs) c score (inr k) = inr (ranked-Some (n + 1) xs c score k)

  ranked-above :
      (n : ℕ) (xs : List (F × Chunk)) (score : F)
      → All (λ x. fl.lt x.0 score ≡ false) xs
      → All (λ (s : ScoredChunk F). fl.lt s.score score ≡ false) (ranked dense n xs)
  unfolding ranked
  ranked-above n [] score h = tt
  ranked-above n (x ∷ xs) score h = (h.0, ranked-above (n + 1) xs score h.1)

  -- Nothing better is left out: a stored chunk of the version that the principal may see is a hit with
  -- its cosine similarity as score, or no hit has a smaller score than it.
  pub search_best :
      (top_k : ℕ) (self : MemoryVectorStore F) (c : Chunk) (v : List F)
      → In (c, v) (values self.items)
      → is_eligible principal version c ≡ true
      → Some
          (λ (s : ScoredChunk F). (s.chunk ≡ c) × (s.score ≡ cosine sqrt vector v))
          (search sqrt vector top_k principal version self)
        ⊎ All
            (λ (s : ScoredChunk F). fl.lt s.score (cosine sqrt vector v) ≡ false)
            (search sqrt vector top_k principal version self)
  unfolding search
  search_best top_k self c v stored ok =
      let sorted =
        sort_desc by_first (scored_items sqrt vector principal version (values self.items)) in
      let found =
        In-sort_desc by_first (cosine sqrt vector v, c) _
          (scored_items-In (values self.items) c v stored ok) in
      elim (take-best by_first top_k sorted (cosine sqrt vector v, c)
        (sorted_items-IsDescending self) found) [
          | inl hit ↦ inl (ranked-Some 1 (take top_k sorted) c (cosine sqrt vector v) hit)
          | inr above ↦ inr (ranked-above 1 (take top_k sorted) (cosine sqrt vector v) above)
        ]
