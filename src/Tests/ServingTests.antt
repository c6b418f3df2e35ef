-- ===== src/Tests/ServingTests.antt =====
-- The retrieval tool at the sample pipeline.
use ai_rag.Prelude.{ℕ, ◌≡◌, ◌≤◌, refl, [], ◌∷◌, codes, All, length, text_eq, contains}
use ai_rag.Prelude.Number.{whole}
use ai_rag.Prelude.Sort.{sort_desc, place}
use ai_rag.Prelude.Dict.{Dict, lookup, insert}
use ai_rag.Prelude.Result.{ok}
use ai_rag.Schemas.Agent.{Json, string, integer, pos, ToolResult}
use ai_rag.Schemas.Chunk.{ScoredChunk, rerank}
use ai_rag.Security.Acl.{is_allowed}
use ai_rag.Generation.Citations.{source_from_scored}
use ai_rag.Agent.Budget.{BudgetTracker, start_tracker}
use ai_rag.Retrieval.Ranking.{ranked, relabelled, identity_rerank}
use ai_rag.Retrieval.Fusion.{
  fusion, fuse_lists, fuse_list, fuse_item, is_better, with_best, reciprocal_rank_fusion,
}
use ai_rag.Retrieval.Hybrid.{retrieve_multi, fan_out, texts_of, search_each, post_filter}
use ai_rag.Pipelines.Online.{retrieve, query_variants, active_index_version, or_text}
use ai_rag.Pipelines.Serving.{retrieve_only}
use ai_rag.Agent.Tools.Retrieval.{
  Surroundings, run, run-IsPassage, IsPassage, result_of, sources_of, query_of, top_k_of, clamped,
}
use ai_rag.Tests.Samples.{alice, budget_of}
use ai_rag.Tests.PipelineTests.{pipeline}
use ai_rag.Tests.RetrievalTests.{chunk_of}

abbrev outer : Surroundings ℕ ℕ
outer = record { to_text = λ j. []; show_score = λ n. []; latency = λ w. 0 }

abbrev asked : Dict Json
asked = (codes "query", string (codes "what")) ∷ (codes "top_k", integer (pos 50)) ∷ []

abbrev tracker : BudgetTracker ℕ
tracker = start_tracker (budget_of 3) 0

abbrev passage : ScoredChunk ℕ
passage = record {
  chunk = chunk_of (codes "a") (codes "acme");
  score = 0;
  rank = 1;
  retriever = rerank;
}

abbrev result : ToolResult ℕ
result = result_of pipeline outer (source_from_scored passage ∷ []) 0

searched : (run pipeline outer asked alice tracker 0).0 ≡ ok result
unfolding run retrieve_only retrieve query_variants active_index_version or_text retrieve_multi
    texts_of fan_out search_each reciprocal_rank_fusion fusion fuse_lists fuse_list fuse_item
    is_better with_best post_filter relabelled ranked sort_desc place lookup insert is_allowed
    identity_rerank contains text_eq query_of top_k_of clamped sources_of
searched = refl

run-IsPassage_example :
    All (IsPassage pipeline outer alice) result.sources × (length result.sources ≤ 20)
run-IsPassage_example = run-IsPassage pipeline outer asked alice tracker 0 result searched
