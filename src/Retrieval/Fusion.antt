-- ===== src/Retrieval/Fusion.antt =====
-- `reciprocal_rank_fusion` of src/rag/retrieval/hybrid.py: the fusion of ranked lists.
pub mod Fair
use ai_rag.Prelude.{
  ℕ, ◌+◌, ◌==◌, ◌||◌, Text, List, [], ◌∷◌, map, Bool, true, false, Option, none, some,
  if◌then◌else◌, codes, or_else, length, ◌≡◌, refl, arith, All, All-map, inl, inr, Bool-cases,
  Option-cases,
}
use ai_rag.Prelude.Number.{Float}
use ai_rag.Prelude.Dict.{Dict, lookup, insert, All-insert, All-lookup}
use ai_rag.Prelude.Result.{Result, ok, raise, value_error}
use ai_rag.Prelude.Sort.{sort_desc, IsDescending, sort_desc-IsDescending, All-sort_desc}
use ai_rag.Schemas.Chunk.{Chunk, ScoredChunk, fused}
use ai_rag.Retrieval.Ranking.{
  ranked, by_score, by_first, IsRanked, ranked-IsRanked, All-ranked, ranked-IsDescending,
}

-- `scores` and `best`
pub record Fusing (F : Type 0) : Type 0 where
  pub scores : Dict F
  pub best : Dict (ScoredChunk F)

module _ {F : Type 0} ⦃fl : Float F⦄ (k : ℕ) where
  unfoldable pub is_better : ScoredChunk F → Option (ScoredChunk F) → Bool
  is_better item none = true
  is_better item (some old) = fl.lt old.score item.score

  -- One round of the inner loop.
  unfoldable pub fuse_item : F → ScoredChunk F → Fusing F → Fusing F
  unfolding is_better
  fuse_item weight item s =
      let cid = item.chunk.chunk_id in
      let gain = fl.mul weight (fl.div (fl.of_nat 1) (fl.of_nat (k + item.rank))) in
      record {
        scores = insert cid (fl.add (or_else (lookup cid s.scores) (fl.of_nat 0)) gain) s.scores;
        best = if is_better item (lookup cid s.best) then insert cid item s.best else s.best;
      }

  unfoldable pub fuse_list : F → List (ScoredChunk F) → Fusing F → Fusing F
  fuse_list weight [] s = s
  fuse_list weight (item ∷ items) s = fuse_list weight items (fuse_item weight item s)

  unfoldable pub fuse_lists : List F → List (List (ScoredChunk F)) → Fusing F → Fusing F
  fuse_lists [] lists s = s
  fuse_lists (w ∷ ws) [] s = s
  fuse_lists (w ∷ ws) (l ∷ ls) s = fuse_lists ws ls (fuse_list w l s)

  -- The pairs of score and best chunk; every id of `scores` is one of `best`.
  unfoldable pub with_best : Dict (ScoredChunk F) → Dict F → List (F × Chunk)
  with_best best [] = []
  with_best best ((cid, score) ∷ rest) =
      let others = with_best best rest in
      elim (lookup cid best) [ some item ↦ (score, item.chunk) ∷ others | none ↦ others ]

  unfoldable pub fusion : List F → List (List (ScoredChunk F)) → List (ScoredChunk F)
  fusion weights ranked_lists =
      let s = fuse_lists weights ranked_lists (record { scores = []; best = [] }) in
      ranked fused 1 (sort_desc by_first (with_best s.best s.scores))

  -- `reciprocal_rank_fusion`
  unfoldable pub reciprocal_rank_fusion :
      Option (List F) → List (List (ScoredChunk F)) → Result (List (ScoredChunk F))
  reciprocal_rank_fusion weights ranked_lists =
      let ws = or_else weights (map (λ _. fl.of_nat 1) ranked_lists) in
      if length ws == length ranked_lists
      then ok (fusion ws ranked_lists)
      else raise (value_error (codes "weights length must match ranked_lists"))
