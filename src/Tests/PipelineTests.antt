-- ===== src/Tests/PipelineTests.antt =====
-- The online pipeline at a sample store and model.
use ai_rag.Prelude.{
  ℕ, ◌+◌, ◌≡◌, refl, [], ◌∷◌, true, false, none, codes, All, All-take, text_eq, contains,
  starts_with, is_within, lower, strip,
}
use ai_rag.Prelude.Number.{whole}
use ai_rag.Prelude.Dict.{lookup, insert}
use ai_rag.Prelude.Sort.{sort_desc, place}
use ai_rag.Prelude.Result.{ok}
use ai_rag.Schemas.Answer.{Answer}
use ai_rag.Schemas.Chunk.{ScoredChunk, rerank}
use ai_rag.Security.Acl.{is_allowed}
use ai_rag.Generation.Citations.{
  resolve_citations, resolve_explicit, resolve_from, resolve_marker, find_prefix, index_by, markers,
  scan_markers, citation_from_scored,
}
use ai_rag.Generation.Grounded.{generate_grounded, ground_reply, should_refuse, refuse_early}
use ai_rag.Retrieval.Ranking.{identity_rerank, relabelled, ranked, All-relabelled}
use ai_rag.Retrieval.Fusion.{
  fusion, fuse_lists, fuse_list, fuse_item, is_better, with_best, reciprocal_rank_fusion,
}
use ai_rag.Retrieval.Hybrid.{retrieve_multi, fan_out, texts_of, search_each, post_filter}
use ai_rag.Query.Route.{route_query}
use ai_rag.Pipelines.Online.{
  OnlinePipeline, retrieve, query_variants, answer_routed, answer_retrieved, deliver,
}
use ai_rag.Pipelines.Online.Safety.{KeepsChunks, Cites, answer_routed-Lawful}
use ai_rag.Tests.Samples.{alice, usage}
use ai_rag.Tests.RetrievalTests.{leaky, chunk_of}

abbrev pub pipeline : OnlinePipeline ℕ ℕ
pipeline = record {
  retriever = leaky;
  rerank = λ query candidates top_k. identity_rerank candidates top_k;
  llm = record {
    model_name = codes "m";
    complete = λ prompt w. (ok (codes "It is so [a].", usage), w + 1);
    render = λ question context version. question;
    show_score = λ n. [];
    redact_pii = λ t. t;
  };
  cache = record { get = λ key w. (none, w); set = λ key value ttl w. w };
  semantic_cache = none;
  config = record {
    top_k = 5;
    rerank_top_k = 3;
    rewrite_enabled = false;
    multi_query_enabled = false;
    multi_query_count = 1;
    hyde_enabled = false;
    cache_params = [];
  };
  cache_enabled = true;
  cache_ttl_seconds = 60;
  refusal_score_threshold = 0;
  pii_redaction_enabled = false;
  prompt_version = codes "v1";
  fallback_index_version = none;
  settings_index_version = codes "v7";
  resolve_alias = λ w. none;
  hashing = record { dumps = λ acl version prompt params. acl; sha256 = λ t. t };
  dump_answer = λ a. a.text;
  load_answer = λ t. ok (record {
    text = t;
    citations = [];
    refused = false;
    refusal_reason = none;
    usage = usage;
    trace_id = [];
    index_version = [];
    latency_ms = 0;
    cached = true;
  });
  latency = λ start end'. 0;
}

identity-KeepsChunks : KeepsChunks pipeline.rerank
unfolding KeepsChunks identity_rerank
identity-KeepsChunks P query candidates top_k all =
    All-relabelled P rerank 1 _ (All-take (λ (s : ScoredChunk ℕ). P s.chunk) top_k candidates all)

abbrev answered : Answer ℕ
answered = record {
  text = codes "It is so [a].";
  citations =
      citation_from_scored (record {
        chunk = chunk_of (codes "a") (codes "acme");
        score = 0;
        rank = 1;
        retriever = rerank;
      })
      ∷ [];
  refused = false;
  refusal_reason = none;
  usage = record usage { prompt_version = codes "v1" };
  trace_id = codes "t";
  index_version = codes "v7";
  latency_ms = 0;
  cached = false;
}

served :
    (answer_routed pipeline
      (codes "what")
      alice
      (codes "v7")
      (codes "k")
      (codes "s")
      (codes "t")
      0
      0).0
    ≡ ok answered
unfolding answer_routed route_query lower strip contains starts_with is_within text_eq
    answer_retrieved retrieve query_variants retrieve_multi texts_of fan_out search_each
    reciprocal_rank_fusion fusion fuse_lists fuse_list fuse_item is_better with_best post_filter
    relabelled ranked sort_desc place lookup insert is_allowed identity_rerank generate_grounded
    should_refuse refuse_early ground_reply resolve_citations resolve_explicit resolve_from
    resolve_marker find_prefix index_by markers scan_markers deliver
served = refl

answer_routed-Lawful_example :
    All (Cites pipeline alice (codes "what") (codes "v7")) answered.citations
answer_routed-Lawful_example =
    answer_routed-Lawful pipeline identity-KeepsChunks alice (codes "what") (codes "v7") (codes "k")
      (codes "s") (codes "t") 0 0 answered served
