-- ===== src/Generation/Grounded/Refusals.antt =====
-- When `generate_grounded` answers, and when it refuses.
use ai_rag.Prelude.{
  Text, List, [], ◌∷◌, ◌≡◌, refl, Bool, true, false, none, some, All, All_of_In, In, is_empty,
  text_eq, if◌then◌else◌,
}
use ai_rag.Prelude.Number.{Float}
use ai_rag.Prelude.Result.{Raised, ok, raise}
use ai_rag.Schemas.Answer.{Usage, blank_usage, Answer}
use ai_rag.Schemas.Chunk.{ScoredChunk}
use ai_rag.Generation.Citations.{citation_from_scored}
use ai_rag.Generation.Grounding.{resolve_citations-ne-nil, resolve_citations-All}
use ai_rag.Generation.Grounded.{
  format_context, Generator, should_refuse, refuse_early, refused_answer, ground_reply,
  generate_grounded, no_retrieved_context, low_confidence_score,
}

module _ {F W : Type 0} ⦃fl : Float F⦄ (g : Generator F W) (question : Text) (threshold : F)
    (version : Text) (redact : Bool) (trace : Text) (w : W) where
  -- Nothing retrieved, or a top score below the threshold: the call refuses with that reason, and the
  -- LLM is not called.
  pub refuses_empty :
      generate_grounded g question [] threshold version redact trace w
      ≡ (ok (refused_answer no_retrieved_context (blank_usage g.model_name version) trace), w)
  unfolding generate_grounded should_refuse refuse_early text_eq
  refuses_empty = refl

  low_early :
      (top : ScoredChunk F) (rest : List (ScoredChunk F))
      → fl.lt top.score threshold ≡ true
      → refuse_early (should_refuse (top ∷ rest) [] threshold) ≡ some low_confidence_score
  unfolding should_refuse refuse_early text_eq
  low_early top rest low = rw low

  pub refuses_low_score :
      (top : ScoredChunk F) (rest : List (ScoredChunk F))
      → fl.lt top.score threshold ≡ true
      → generate_grounded g question (top ∷ rest) threshold version redact trace w
        ≡ (ok (refused_answer low_confidence_score (blank_usage g.model_name version) trace), w)
  unfolding generate_grounded
  refuses_low_score top rest low = rw (low_early top rest low, generate_grounded) refl

  module _ (top : ScoredChunk F) (rest : List (ScoredChunk F))
      (fine : fl.lt top.score threshold ≡ false) where
    abbrev scored : List (ScoredChunk F)
    scored = top ∷ rest

    abbrev prompt : Text
    prompt = g.render question (format_context g.show_score scored) version

    -- A published answer: not refused, with a citation, and every citation that of a chunk retrieved.
    pub record IsPublished (a : Answer F) : Type 0 where
      pub answered : a.refused ≡ false
      pub no_reason : a.refusal_reason ≡ none
      pub cited : is_empty a.citations ≡ false
      pub from_scored :
          All (λ c. (s : ScoredChunk F) × In s scored × (c ≡ citation_from_scored s)) a.citations

    ground_reply-IsPublished :
        (raw : Text × Usage F)
        → IsPublished (ground_reply g scored threshold version redact trace raw)
    unfolding ground_reply should_refuse
    ground_reply-IsPublished (raw_text, u) =
        let text : Text = if redact then g.redact_pii raw_text else raw_text in
        let some_cited = resolve_citations-ne-nil text scored refl in
        let own =
          resolve_citations-All (λ s. In s scored) text scored
            (All_of_In (λ s. In s scored) scored (λ s k. k)) in
        rw (fine, some_cited)
          (record { answered = refl; no_reason = refl; cited = some_cited; from_scored = own })

    not_early : refuse_early (should_refuse scored [] threshold) ≡ none
    unfolding should_refuse refuse_early text_eq
    not_early = rw fine

    -- With a chunk retrieved, a top score not below the threshold and a reply from the LLM, the call returns
    -- an answer that is not refused and has a citation, and every citation is that of a chunk retrieved: the
    -- refusal for want of citations is not reached.
    pub generate_grounded-IsPublished :
        (raw : Text × Usage F)
        → (g.complete prompt w).0 ≡ ok raw
        → (a : Answer F) × (generate_grounded g question scored threshold version redact trace w
            ≡ (ok a, (g.complete prompt w).1))
          × IsPublished a
    unfolding generate_grounded
    generate_grounded-IsPublished raw e = (
      ground_reply g scored threshold version redact trace raw,
      rw (not_early, generate_grounded, e) refl,
      ground_reply-IsPublished raw,
    )

    -- What the LLM raises is passed on.
    pub generate_grounded-raise :
        (e : Raised)
        → (g.complete prompt w).0 ≡ raise e
        → generate_grounded g question scored threshold version redact trace w
          ≡ (raise e, (g.complete prompt w).1)
    unfolding generate_grounded
    generate_grounded-raise e h = rw (not_early, generate_grounded, h) refl
