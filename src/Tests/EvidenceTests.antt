-- ===== src/Tests/EvidenceTests.antt =====
-- The theorems on the evidence ledger and on citations at sample sources.
use ai_rag.Prelude.{
  ℕ, ◌≡◌, ◌+◌, ◌≤◌, refl, Text, [], ◌∷◌, true, false, none, codes, text_eq, All, length, arith,
}
use ai_rag.Prelude.Number.{whole}
use ai_rag.Prelude.Dict.{lookup}
use ai_rag.Prelude.Result.{ok}
use ai_rag.Schemas.Answer.{Source, Answer}
use ai_rag.Schemas.Chunk.{ScoredChunk, dense}
use ai_rag.Agent.Evidence.{add, sources, header, kind_value, render_from}
use ai_rag.Agent.Evidence.Best.{Covers, add-Covers}
use ai_rag.Agent.Evidence.Bound.{Fits, render_from-bounded}
use ai_rag.Generation.Citations.{resolve_source_citations}
use ai_rag.Generation.Grounding.{IsGrounded, resolve_source_citations-IsGrounded}
use ai_rag.Generation.Grounded.{Generator, generate_grounded}
use ai_rag.Generation.Grounded.Refusals.{IsPublished, generate_grounded-IsPublished}
use ai_rag.Tests.Samples.{shared, usage, source_of, ledger}

abbrev weak : Source ℕ
weak = source_of (codes "r1") 3

add-Covers_example :
    All
      (Covers (add (weak ∷ source_of (codes "r2") 5 ∷ []) ledger).0.by_ref)
      (weak ∷ source_of (codes "r2") 5 ∷ [])
add-Covers_example = add-Covers (weak ∷ source_of (codes "r2") 5 ∷ []) ledger

known : Covers ledger.by_ref (source_of (codes "r1") 7)
unfolding lookup text_eq
known = (source_of (codes "r1") 7, refl, refl)

abbrev plain : ℕ → Text
plain n = codes "7"

short : length (header plain weak) + 1 ≤ 500
unfolding header kind_value
short = omega arith

render_from-bounded_example :
    Fits 500 0 2 (render_from plain 500 100 0 true (weak ∷ source_of (codes "r2") 5 ∷ []))
render_from-bounded_example =
    render_from-bounded plain 500 100 weak (source_of (codes "r2") 5 ∷ []) short

resolve_source_citations-IsGrounded_example :
    IsGrounded
      (sources ledger)
      (resolve_source_citations (codes "It is so [r1] and [r9].") (sources ledger) true)
resolve_source_citations-IsGrounded_example =
    resolve_source_citations-IsGrounded (codes "It is so [r1] and [r9].") (sources ledger)

abbrev found : ScoredChunk ℕ
found = record {
  chunk = record {
    chunk_id = codes "k1";
    doc_id = codes "d1";
    ordinal = 0;
    text = codes "body";
    span = (0, 4);
    acl = shared;
    index_version = codes "v7";
    embedding_model = none;
    metadata = [];
  };
  score = 9;
  rank = 1;
  retriever = dense;
}

abbrev generator : Generator ℕ ℕ
generator = record {
  model_name = codes "m";
  complete = λ prompt w. (ok (codes "It is so [k1].", usage), w + 1);
  render = λ question context version. question;
  show_score = plain;
  redact_pii = λ t. t;
}

generate_grounded-IsPublished_example :
    (a : Answer ℕ) × (generate_grounded generator
        (codes "why?")
        (found ∷ [])
        2
        (codes "v1")
        false
        (codes "t1")
        0
      ≡ (ok a, 1))
    × IsPublished generator (codes "why?") 2 (codes "v1") false (codes "t1") 0 found [] refl a
generate_grounded-IsPublished_example =
    generate_grounded-IsPublished generator (codes "why?") 2 (codes "v1") false (codes "t1") 0 found
      [] refl (codes "It is so [k1].", usage) refl
