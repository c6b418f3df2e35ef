-- ===== src/Agent/Critic/Approval.antt =====
-- When the critic of src/rag/agent/critic.py approves a draft.
use ai_rag.Prelude.{
  Text, List, ◌≡◌, refl, Bool, true, false, some, codes, inl, inr, Option-cases, ◌&&◌, &&-true,
  arith,
}
use ai_rag.Prelude.Number.{Float}
use ai_rag.Prelude.Result.{ok}
use ai_rag.Schemas.Agent.{Json, object, Fields, Verdict}
use ai_rag.Agent.Critic.{
  Critic, search_json, get_field, truthy, verdict_of, parse_error, parse_verdict,
}

module _ {F W : Type 0} ⦃fl : Float F⦄ (self : Critic F W) where
  -- The reply holds a JSON object whose `sufficient` and `grounded` are both truthy.
  pub record Approves (text : Text) : Type 0 where
    pub found : Text
    pub raw : Fields
    pub searched : search_json text ≡ some found
    pub parsed : self.loads found ≡ some (object raw)
    pub sufficient : truthy self (get_field (codes "sufficient") raw) ≡ true
    pub grounded : truthy self (get_field (codes "grounded") raw) ≡ true

  abbrev pub approved : Verdict F → Bool
  approved v = v.sufficient && v.grounded

  Flags : Fields → Verdict F → Type 0
  Flags raw v =
      (v.sufficient ≡ truthy self (get_field (codes "sufficient") raw))
      × (v.grounded ≡ truthy self (get_field (codes "grounded") raw))

  -- The two flags of a verdict are the truth values of the two fields.
  verdict_of-Flags : (raw : Fields) (v : Verdict F) → verdict_of self raw ≡ ok v → Flags raw v
  unfolding verdict_of Flags
  verdict_of-Flags raw v h = ground arith

  parse_error_rejects : (missing : List Text) → approved (parse_error self missing) ≡ false
  unfolding parse_error
  parse_error_rejects missing = refl

  object-Approves :
      (text found : Text) (raw : Fields) (v : Verdict F)
      → search_json text ≡ some found
      → self.loads found ≡ some (object raw)
      → verdict_of self raw ≡ ok v
      → approved v ≡ true
      → Approves text
  unfolding Flags
  object-Approves text found raw v s l h hy =
      let (suff, grd) = verdict_of-Flags raw v h in
      let (vs, vg) = &&-true v.sufficient v.grounded hy in
      record { found = found; raw = raw; searched = s; parsed = l; sufficient = cc; grounded = cc }

  value-Approves :
      (text found : Text) (value : Json) (v : Verdict F)
      → search_json text ≡ some found
      → self.loads found ≡ some value
      → parse_verdict self text ≡ ok v
      → approved v ≡ true
      → Approves text
  unfolding parse_verdict parse_error
  value-Approves text found (object raw) v s l h hy =
      object-Approves text found raw v s l (ground arith) hy
  value-Approves text found _ v s l h hy = absurd (ground arith)

  -- A draft is approved only where the reply holds a JSON object whose `sufficient` and
  -- `grounded` are both truthy: text without an object, malformed JSON and other values never approve.
  pub parse_verdict-Approves :
      (text : Text) (v : Verdict F)
      → parse_verdict self text ≡ ok v
      → v.sufficient && v.grounded ≡ true
      → Approves text
  unfolding parse_verdict parse_error
  parse_verdict-Approves text v h hy = elim (Option-cases (search_json text)) [
    | inl e ↦ absurd (ground arith)
    | inr (found, s) ↦ elim (Option-cases (self.loads found)) [
      | inl e ↦ absurd (ground arith)
      | inr (value, l) ↦ value-Approves text found value v s l h hy
    ]
  ]
