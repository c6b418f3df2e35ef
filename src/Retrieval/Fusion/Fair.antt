-- ===== src/Retrieval/Fusion/Fair.antt =====
-- What the fusion of src/rag/retrieval/hybrid.py does with its inputs.
use mathlib.Core.Path.{ap, ◌∙◌}
use ai_rag.Prelude.{
  ℕ, ◌+◌, Text, List, [], ◌∷◌, Option, none, some, if◌then◌else◌, or_else, text_eq_iff, ◌≡◌, refl,
  All, inl, inr, Bool-cases, Option-cases, text_eq,
}
use ai_rag.Prelude.Number.{Float}
use ai_rag.Prelude.Dict.{Dict, lookup, All-insert, All-lookup, lookup-insert}
use ai_rag.Prelude.Sort.{IsDescending, sort_desc-IsDescending, All-sort_desc}
use ai_rag.Schemas.Chunk.{Chunk, ScoredChunk, fused}
use ai_rag.Retrieval.Ranking.{
  by_score, by_first, IsRanked, ranked-IsRanked, All-ranked, ranked-IsDescending,
}
use ai_rag.Retrieval.Fusion.{Fusing, is_better, fuse_item, fuse_list, fuse_lists, with_best, fusion}

module _ {F : Type 0} ⦃fl : Float F⦄ (k : ℕ) where
  module _ (P : Chunk → Type 0) where
    abbrev pub Good : Fusing F → Type 0
    Good s = All (λ e. P e.1.chunk) s.best

    fuse_item-Good :
        (w : F) (item : ScoredChunk F) (s : Fusing F)
        → P item.chunk
        → Good s
        → Good (fuse_item k w item s)
    unfolding fuse_item
    fuse_item-Good w item s p good =
        elim (Bool-cases (is_better k item (lookup item.chunk.chunk_id s.best))) [
          | inl e ↦
              rw (e, fuse_item)
                (All-insert (λ _ i. P i.chunk) item.chunk.chunk_id item s.best (λ _ _. p) good)
          | inr e ↦ rw (e, fuse_item) good
        ]

    fuse_list-Good :
        (w : F) (items : List (ScoredChunk F)) (s : Fusing F)
        → All (λ i. P i.chunk) items
        → Good s
        → Good (fuse_list k w items s)
    unfolding fuse_list
    fuse_list-Good w [] s ps good = good
    fuse_list-Good w (item ∷ items) s ps good =
        fuse_list-Good w items (fuse_item k w item s) ps.1 (fuse_item-Good w item s ps.0 good)

    fuse_lists-Good :
        (ws : List F) (ls : List (List (ScoredChunk F))) (s : Fusing F)
        → All (λ l. All (λ i. P i.chunk) l) ls
        → Good s
        → Good (fuse_lists k ws ls s)
    unfolding fuse_lists
    fuse_lists-Good [] ls s ps good = good
    fuse_lists-Good (w ∷ ws) [] s ps good = good
    fuse_lists-Good (w ∷ ws) (l ∷ ls) s ps good =
        fuse_lists-Good ws ls (fuse_list k w l s) ps.1 (fuse_list-Good w l s ps.0 good)

    with_best-All :
        (best : Dict (ScoredChunk F)) (scores : Dict F)
        → All (λ e. P e.1.chunk) best
        → All (λ e. P e.1) (with_best k best scores)
    unfolding with_best
    with_best-All best [] good = tt
    with_best-All best ((cid, score) ∷ rest) good = elim (Option-cases (lookup cid best)) [
      | inl e ↦ rw (e, with_best) (with_best-All best rest good)
      | inr (item, e) ↦
          rw (e, with_best)
            (All-lookup (λ _ i. P i.chunk) cid item best good e, with_best-All best rest good)
    ]

    -- What holds of every chunk of the ranked lists holds of every fused chunk.
    pub fusion-All :
        (ws : List F) (ls : List (List (ScoredChunk F)))
        → All (λ l. All (λ i. P i.chunk) l) ls
        → All (λ i. P i.chunk) (fusion k ws ls)
    unfolding fusion
    fusion-All ws ls ps =
        let s = fuse_lists k ws ls (record { scores = []; best = [] }) in
        All-ranked P fused 1 _ (
          All-sort_desc by_first (λ e. P e.1) (with_best k s.best s.scores)
            (with_best-All s.best s.scores (fuse_lists-Good ws ls _ ps tt)))

  -- The fused list is in descending order of its fused scores, with the ranks 1, 2, …
  pub fusion-IsDescending :
      (ws : List F) (ls : List (List (ScoredChunk F)))
      → IsDescending by_score (fusion k ws ls) × IsRanked 1 (fusion k ws ls)
  unfolding fusion
  fusion-IsDescending ws ls = (
    ranked-IsDescending fused 1 _ (
        sort_desc-IsDescending by_first (λ a b. fl.lt_asymm a.0 b.0)
          (λ a b c. fl.ge_trans a.0 b.0 c.0) _),
    ranked-IsRanked fused 1 _,
  )

  -- The score of one chunk id by itself: the sum of weight / (k + rank) over its places in the lists, from `acc` on.
  unfoldable pub list_score : Text → F → List (ScoredChunk F) → Option F → Option F
  list_score cid w [] acc = acc
  list_score cid w (item ∷ items) acc = list_score cid w items (
      if text_eq item.chunk.chunk_id cid
      then some (
          fl.add (or_else acc (fl.of_nat 0))
            (fl.mul w (fl.div (fl.of_nat 1) (fl.of_nat (k + item.rank)))))
      else acc)

  unfoldable pub rrf_score : Text → List F → List (List (ScoredChunk F)) → Option F → Option F
  rrf_score cid [] ls acc = acc
  rrf_score cid (w ∷ ws) [] acc = acc
  rrf_score cid (w ∷ ws) (l ∷ ls) acc = rrf_score cid ws ls (list_score cid w l acc)

  fuse_item_score :
      (cid : Text) (w : F) (item : ScoredChunk F) (s : Fusing F)
      → lookup cid (fuse_item k w item s).scores ≡ (
          if text_eq item.chunk.chunk_id cid
          then some (
              fl.add
                (or_else (lookup cid s.scores) (fl.of_nat 0))
                (fl.mul w (fl.div (fl.of_nat 1) (fl.of_nat (k + item.rank)))))
          else lookup cid s.scores)
  unfolding fuse_item
  fuse_item_score cid w item s =
      let id = item.chunk.chunk_id in
      elim (Bool-cases (text_eq id cid)) [
        | inl e ↦
            let same : id ≡ cid = (text_eq_iff id cid).0 e in
            lookup-insert id cid _ s.scores
            ∙ rw e (
                ap
                  (λ i. some (
                    fl.add (or_else (lookup i s.scores) (fl.of_nat 0))
                      (fl.mul w (fl.div (fl.of_nat 1) (fl.of_nat (k + item.rank))))))
                  same)
        | inr e ↦ lookup-insert id cid _ s.scores ∙ rw e refl
      ]

  fuse_list_score :
      (cid : Text) (w : F) (items : List (ScoredChunk F)) (s : Fusing F)
      → lookup cid (fuse_list k w items s).scores ≡ list_score cid w items (lookup cid s.scores)
  unfolding fuse_list list_score
  fuse_list_score cid w [] s = refl
  fuse_list_score cid w (item ∷ items) s =
      fuse_list_score cid w items (fuse_item k w item s)
      ∙ ap (list_score cid w items) (fuse_item_score cid w item s)

  fuse_lists_score :
      (cid : Text) (ws : List F) (ls : List (List (ScoredChunk F))) (s : Fusing F)
      → lookup cid (fuse_lists k ws ls s).scores ≡ rrf_score cid ws ls (lookup cid s.scores)
  unfolding fuse_lists rrf_score
  fuse_lists_score cid [] ls s = refl
  fuse_lists_score cid (w ∷ ws) [] s = refl
  fuse_lists_score cid (w ∷ ws) (l ∷ ls) s =
      fuse_lists_score cid ws ls (fuse_list k w l s)
      ∙ ap (rrf_score cid ws ls) (fuse_list_score cid w l s)

  -- Fusing the lists with their weights gives each chunk id, whatever the other ids are, the sum of weight /
  -- (k + rank) over its places in the lists, taken in their order, and no score where it is in none of them.
  pub fuse_lists-rrf_score :
      (cid : Text) (ws : List F) (ls : List (List (ScoredChunk F)))
      → lookup cid (fuse_lists k ws ls (record { scores = []; best = [] })).scores
        ≡ rrf_score cid ws ls none
  unfolding lookup
  fuse_lists-rrf_score cid ws ls = fuse_lists_score cid ws ls (record { scores = []; best = [] })
