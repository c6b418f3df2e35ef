-- ===== src/Agent/Runtime/Honest.antt =====
-- What the answers of `_finalize` in src/rag/agent/runtime.py are: the turn's own, the pipeline's, or refusals.
use ai_rag.Prelude.{
  ◌≡◌, refl, Text, List, [], true, false, some, arith, All, All-map, In, inl, inr, ◌⊎◌, Bool-cases,
  is_empty, In-keep,
}
use ai_rag.Prelude.Number.{Float}
use ai_rag.Prelude.Result.{Result-cases, ok}
use ai_rag.Schemas.Principal.{Principal}
use ai_rag.Schemas.Answer.{Source, Citation, Usage, Answer}
use ai_rag.Schemas.Agent.{StopReason, is_answerable, fallback_pipeline, AgentAnswer}
use ai_rag.Generation.Citations.{citation_from_source}
use ai_rag.Generation.Grounding.{IsDistinct, refs, resolve_source_citations-IsGrounded}
use ai_rag.Generation.Grounded.{refused_answer}
use ai_rag.Agent.Evidence.{sources}
use ai_rag.Agent.Runtime.State.{AgentRuntime, Turn, Request}
use ai_rag.Agent.Runtime.Answering.{
  may_see, build_answer, authorised, final_text, final_citations, is_publishable, publish,
  fallback_or_refuse, adopt_fallback, refuse_turn, finalize,
}

module _ {F : Type 0} ⦃fl : Float F⦄ (principal : Principal) (turn : Turn F) where
  -- The citation is that of a source which the turn gathered and the principal may see.
  abbrev pub Gathered : Citation F → Type 0
  Gathered c =
      (s : Source F) × In s (sources turn.ledger)
      × (may_see principal s ≡ true)
      × (c ≡ citation_from_source s)

  -- An answer of the turn's own: it cites, each citation is that of a source in the ledger of the turn which the
  -- principal may see, none is cited twice, and the turn stopped for an answerable reason.
  pub record IsVouched (a : AgentAnswer F) : Type 0 where
    pub kept : a.refused ≡ false
    pub cited : is_empty a.citations ≡ false
    pub seen : All Gathered a.citations
    pub distinct : IsDistinct [] (refs a.citations)
    pub answerable : is_answerable a.stop_reason ≡ true

pub record IsRefusal {F : Type 0} (a : AgentAnswer F) : Type 0 where
  pub refused : a.refused ≡ true
  pub uncited : a.citations ≡ []
  pub reason : (t : Text) × (a.refusal_reason ≡ some t)

module _ {F W : Type 0} ⦃fl : Float F⦄ (self : AgentRuntime F W) (req : Request F) where
  -- An answer that is the pipeline's, word for word.
  pub record IsFallback (a : AgentAnswer F) : Type 0 where
    pub world : W
    pub answer : Answer F
    pub called : (self.answer req.question req.principal world).0 ≡ ok answer
    pub flagged : a.fallback_used ≡ true
    pub stop : a.stop_reason ≡ fallback_pipeline
    pub text : a.text ≡ answer.text
    pub citations : a.citations ≡ answer.citations
    pub refused : a.refused ≡ answer.refused

  -- An answer that is not the turn's own.
  abbrev pub IsGivenUp : AgentAnswer F → Type 0
  IsGivenUp a = IsRefusal a ⊎ IsFallback a

  abbrev pub IsHonest : Turn F → AgentAnswer F → Type 0
  IsHonest turn a = IsVouched req.principal turn a ⊎ IsGivenUp a

  pub fallback_or_refuse-IsGivenUp :
      (reason : Text) (stop : StopReason) (srcs : List (Source F)) (u : Usage F) (turn : Turn F)
      (w : W)
      → IsGivenUp (fallback_or_refuse self req reason stop srcs u turn w).0
  unfolding fallback_or_refuse adopt_fallback refuse_turn refused_answer build_answer
  fallback_or_refuse-IsGivenUp reason stop srcs u turn w =
      elim (Result-cases (self.answer req.question req.principal w).0) [
        | inl (a, e) ↦
            rw (e, fallback_or_refuse)
              (inr (record {
                world = w;
                answer = a;
                called = e;
                flagged = refl;
                stop = refl;
                text = refl;
                citations = refl;
                refused = refl;
              }))
        | inr (r, e) ↦
            rw (e, fallback_or_refuse)
              (inl (record { refused = refl; uncited = refl; reason = (reason, refl) }))
      ]

  authorised-Gathered :
      (turn : Turn F) (c : Citation F)
      → (s : Source F) × In s (authorised self req turn) × (c ≡ citation_from_source s)
      → Gathered req.principal turn c
  authorised-Gathered turn c (s, k, e) =
      let (held, seen) = In-keep (may_see req.principal) s (sources turn.ledger) k in
      (s, held, seen, e)

  final_citations-Gathered :
      (turn : Turn F)
      → All (Gathered req.principal turn) (final_citations self req turn)
        × IsDistinct [] (refs (final_citations self req turn))
  unfolding final_citations
  final_citations-Gathered turn = elim (Bool-cases (is_empty (final_text self req turn))) [
    | inl e ↦ rw (e, final_citations) (tt, tt)
    | inr e ↦
        let k =
          resolve_source_citations-IsGrounded (final_text self req turn)
            (authorised self req turn) in
        rw (e, final_citations)
          (
            All-map _ (Gathered req.principal turn) _ (authorised-Gathered turn) k.from_sources,
            k.distinct,
          )
  ]

  publish-IsVouched :
      (stop : StopReason) (turn : Turn F) (w : W)
      → is_publishable self req stop turn ≡ true
      → IsVouched req.principal turn (publish self req stop turn w)
  unfolding publish build_answer is_publishable
  publish-IsVouched stop turn w h =
      let (seen, distinct) = final_citations-Gathered turn in
      let cited : is_empty (final_citations self req turn) ≡ false = ground arith in
      let answerable : is_answerable stop ≡ true = ground arith in
      record {
        kept = refl;
        cited = cited;
        seen = seen;
        distinct = distinct;
        answerable = answerable;
      }

  -- What `_finalize` returns is one of three: an answer of the turn's own, which cites, each citation being that of a
  -- source in the ledger of the turn which the principal may see, no ref twice, after an answerable stop; a refusal with a
  -- reason and no citation; or what the pipeline answered to the question, with its text, citations and
  -- refusal unchanged and flagged as a fallback.
  pub finalize-IsHonest :
      (stop : StopReason) (turn : Turn F) (w : W) → IsHonest turn (finalize self req stop turn w).0
  unfolding finalize
  finalize-IsHonest stop turn w = elim (Bool-cases (is_publishable self req stop turn)) [
    | inl own ↦ rw (own, finalize) (inl (publish-IsVouched stop turn w own))
    | inr other ↦
        rw (other, finalize)
          (inr (fallback_or_refuse-IsGivenUp _ _ (authorised self req turn) turn.usage turn w))
  ]
