-- ===== src/Retrieval/Lexical/Hits.antt =====
-- What the search of src/rag/lexical/bm25_memory.py finds.
use ai_rag.Prelude.{
  ℕ, ◌≤◌, ◌≡◌, refl, inl, inr, Text, List, [], ◌∷◌, true, false, ◌&&◌, ◌||◌, Option, some, any,
  length, take, length-take-le, All, All-take, arith, Bool-cases, Option-cases, &&-true, is_empty,
}
use ai_rag.Prelude.Number.{Float}
use ai_rag.Prelude.Dict.{Dict, lookup, has, found_of_Distinct}
use ai_rag.Prelude.Sort.{
  sort_desc, take-IsDescending, sort_desc-IsDescending, IsDescending, All-sort_desc,
}
use ai_rag.Schemas.Principal.{Principal}
use ai_rag.Schemas.Chunk.{Chunk, ScoredChunk, lexical}
use ai_rag.Retrieval.Store.{is_eligible}
use ai_rag.Retrieval.Ranking.{
  by_first, by_score, IsRanked, ranked-IsRanked, length-ranked, All-ranked, ranked-IsDescending,
}
use ai_rag.Retrieval.Lexical.{
  tokenize, count_of, Bm25MemoryIndex, score_terms, bm25, scored_chunks, search,
}
use ai_rag.Retrieval.Lexical.Counted.{IsCounted, terms_of, counts-terms}

module _ {F : Type 0} ⦃fl : Float F⦄ (log : F → F) where
  -- A chunk without a term of the query scores what the sum starts from.
  score_terms_none :
      (n dl : ℕ) (tf : Dict ℕ) (ts : List Text) (score : F) (self : Bm25MemoryIndex F)
      → any (λ t. has t tf) ts ≡ false
      → score_terms log n dl tf ts score self ≡ score
  unfolding score_terms
  score_terms_none n dl tf [] score self h = refl
  score_terms_none n dl tf (t ∷ ts) score self h = elim (Option-cases (lookup t tf)) [
    | inl e ↦ rw (score_terms, e) (score_terms_none n dl tf ts score self (rw (has, e) at h))
    | inr (f, e) ↦ absurd (ground (arith, (rw (has, e) at h)))
  ]

  module _ (q_tokens : List Text) (principal : Principal) (version : Option Text)
      (self : Bm25MemoryIndex F) where
    -- A chunk that a hit may be.
    abbrev pub IsMatch : Chunk → Type 0
    IsMatch chunk =
        (is_eligible principal version chunk ≡ true)
        × (any (λ t. has t (terms_of chunk)) q_tokens ≡ true)

    bm25-matches :
        (n : ℕ) (cid : Text) (chunk : Chunk)
        → IsCounted self
        → lookup cid self.chunks ≡ some chunk
        → fl.lt (fl.of_nat 0) (bm25 log q_tokens cid n self) ≡ true
        → any (λ t. has t (terms_of chunk)) q_tokens ≡ true
    unfolding bm25
    bm25-matches n cid chunk h found positive =
        elim (Bool-cases (any (λ t. has t (terms_of chunk)) q_tokens)) [
          | inl e ↦ e
          | inr e ↦
              let zero_score =
                score_terms_none n (count_of cid self.doc_len) (terms_of chunk) q_tokens
                  (fl.of_nat 0) self e in
              absurd (
                ground (
                  arith,
                  (rw (bm25, counts-terms self cid chunk h found, zero_score) at positive),
                  fl.lt_asymm (fl.of_nat 0) (fl.of_nat 0),
                ))
        ]

    scored_chunks-All :
        (n : ℕ) (items : List (Text × Chunk))
        → IsCounted self
        → All (λ e. lookup e.0 self.chunks ≡ some e.1) items
        → All (λ e. IsMatch e.1) (scored_chunks log q_tokens principal version n items self)
    unfolding scored_chunks
    scored_chunks-All n [] h found = tt
    scored_chunks-All n ((cid, chunk) ∷ rest) h found =
        let score = bm25 log q_tokens cid n self in
        elim (Bool-cases (is_eligible principal version chunk && fl.lt (fl.of_nat 0) score)) [
          | inl e ↦
              let (may, positive) = &&-true (is_eligible principal version chunk) _ e in
              rw (e, scored_chunks)
                (
                  (may, bm25-matches n cid chunk h found.0 positive),
                  scored_chunks-All n rest h found.1,
                )
          | inr e ↦ rw (e, scored_chunks) (scored_chunks-All n rest h found.1)
        ]

  -- The hits of a lexical search.
  pub record IsLexicalHits (query : Text) (principal : Principal) (version : Option Text)
      (self : Bm25MemoryIndex F) (top_k : ℕ) (hits : List (ScoredChunk F)) : Type 0 where
    pub matching : All (λ s. IsMatch (tokenize query) principal version self s.chunk) hits
    pub bounded : length hits ≤ top_k
    pub ranks : IsRanked 1 hits
    pub descending : IsDescending by_score hits

  -- On an index whose statistics are up to date, every hit is a chunk that the principal may see, of the
  -- version asked for where one is, and has a term of the query; there are at most `top_k`, their ranks count up from
  -- 1 and no score is below a later one.
  pub search-IsLexicalHits :
      (query : Text) (top_k : ℕ) (principal : Principal) (version : Option Text)
      (self : Bm25MemoryIndex F)
      → IsCounted self
      → IsLexicalHits query principal version self top_k
          (search log query top_k principal version self)
  unfolding search
  search-IsLexicalHits query top_k principal version self h =
      elim (Bool-cases (is_empty (tokenize query) || is_empty self.chunks)) [
        | inl e ↦
            rw (search, e)
              (record { matching = tt; bounded = omega arith; ranks = tt; descending = tt })
        | inr e ↦
            let scored =
              scored_chunks log (tokenize query) principal version (length self.chunks) self.chunks
                self in
            let sorted = sort_desc by_first scored in
            rw (search, e)
              (record {
                matching =
                    All-ranked (IsMatch (tokenize query) principal version self) lexical 1
                      (take top_k sorted)
                      (All-take _ top_k sorted (
                        All-sort_desc by_first _ _ (
                          scored_chunks-All (tokenize query) principal version self
                            (length self.chunks) self.chunks h
                            (found_of_Distinct self.chunks h.distinct))));
                bounded = omega (
                  arith,
                  length-ranked lexical 1 (take top_k sorted),
                  length-take-le top_k sorted,
                );
                ranks = ranked-IsRanked lexical 1 (take top_k sorted);
                descending = ranked-IsDescending lexical 1 (take top_k sorted) (
                    take-IsDescending by_first top_k sorted (
                      sort_desc-IsDescending by_first (λ a b. fl.lt_asymm a.0 b.0)
                        (λ a b c. fl.ge_trans a.0 b.0 c.0) scored));
              })
      ]
