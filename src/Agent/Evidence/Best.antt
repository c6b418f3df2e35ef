-- ===== src/Agent/Evidence/Best.antt =====
-- The evidence ledger of src/rag/agent/evidence.py: what it holds of each ref.
use ai_rag.Prelude.{
  Text, List, [], ◌∷◌, false, none, some, ◌≡◌, arith, All, All-append, inl, inr, Option-cases,
  Bool-cases, text_eq, text_eq_refl, text_eq_iff,
}
use ai_rag.Prelude.Number.{Float}
use ai_rag.Prelude.Dict.{Dict, lookup, insert, lookup-insert, All-insert, values}
use ai_rag.Prelude.Sort.{IsDescending, sort_desc-IsDescending, sort_desc-perm, All-sort_desc}
use mathlib.Core.List.{Perm}
use ai_rag.Schemas.Answer.{Source}
use ai_rag.Agent.Evidence.{EvidenceLedger, add, add_source, add_sources, sources, by_score}

module _ {F : Type 0} ⦃fl : Float F⦄ where
  lt_irrefl : (a : F) → fl.lt a a ≡ false
  lt_irrefl a = ground (arith, fl.lt_asymm a a)

  -- The dictionary knows the ref of `s`, at a score that is no lower.
  abbrev pub Covers : Dict (Source F) → Source F → Type 0
  Covers d s = (t : Source F) × (lookup s.ref d ≡ some t) × (fl.lt t.score s.score ≡ false)

  add_source-Covers_self :
      (s : Source F) (d : Dict (Source F)) (added : List (Source F))
      → Covers (add_source s d added).0 s
  unfolding add_source
  add_source-Covers_self s d added = elim (Option-cases (lookup s.ref d)) [
    | inl new ↦
        (s, ground (arith, lookup-insert s.ref s.ref s d, text_eq_refl s.ref), lt_irrefl s.score)
    | inr (t, old) ↦ elim (Bool-cases (fl.lt t.score s.score)) [
      | inl better ↦
          (s, ground (arith, lookup-insert s.ref s.ref s d, text_eq_refl s.ref), lt_irrefl s.score)
      | inr worse ↦ (t, ground arith, worse)
    ]
  ]

  -- What was covered stays covered.
  add_source-Covers :
      (s r : Source F) (d : Dict (Source F)) (added : List (Source F))
      → Covers d r
      → Covers (add_source s d added).0 r
  unfolding add_source
  add_source-Covers s r d added (t, known, fine) = elim (Option-cases (lookup s.ref d)) [
    | inl new ↦ (t, ground (arith, lookup-insert s.ref r.ref s d, text_eq_iff s.ref r.ref), fine)
    | inr (old, found) ↦ elim (Bool-cases (fl.lt old.score s.score)) [
      | inl better ↦ elim (Bool-cases (text_eq s.ref r.ref)) [
        | inl same ↦ (
          s,
          ground (arith, lookup-insert s.ref r.ref s d),
          ground (
            arith,
            text_eq_iff s.ref r.ref,
            fl.lt_asymm old.score s.score,
            fl.ge_trans s.score old.score r.score,
          ),
        )
        | inr other ↦ (t, ground (arith, lookup-insert s.ref r.ref s d), fine)
      ]
      | inr worse ↦ (t, ground arith, fine)
    ]
  ]

  add_sources-Covers :
      (ss : List (Source F)) (r : Source F) (d : Dict (Source F)) (added : List (Source F))
      → Covers d r
      → Covers (add_sources ss d added).0 r
  unfolding add_sources
  add_sources-Covers [] r d added c = c
  add_sources-Covers (s ∷ ss) r d added c =
      add_sources-Covers ss r (add_source s d added).0 (add_source s d added).1
        (add_source-Covers s r d added c)

  add_sources-Covers_all :
      (ss : List (Source F)) (d : Dict (Source F)) (added : List (Source F))
      → All (Covers (add_sources ss d added).0) ss
  unfolding add_sources
  add_sources-Covers_all [] d added = tt
  add_sources-Covers_all (s ∷ ss) d added = (
    add_sources-Covers ss s (add_source s d added).0 (add_source s d added).1
        (add_source-Covers_self s d added),
    add_sources-Covers_all ss (add_source s d added).0 (add_source s d added).1,
  )

  -- After `add`, every source handed in is known by its ref, at a score no lower than its own.
  pub add-Covers :
      (ss : List (Source F)) (self : EvidenceLedger F) → All (Covers (add ss self).0.by_ref) ss
  unfolding add
  add-Covers ss self = add_sources-Covers_all ss self.by_ref []

  -- A source whose ref the ledger knows at a score no lower than its own is so known after every `add`: no
  -- entry is lost, and no score falls.
  pub add-keeps :
      (ss : List (Source F)) (self : EvidenceLedger F) (r : Source F)
      → Covers self.by_ref r
      → Covers (add ss self).0.by_ref r
  unfolding add
  add-keeps ss self r = add_sources-Covers ss r self.by_ref []

  add_source-All :
      (P : Source F → Type 0) (s : Source F) (d : Dict (Source F)) (added : List (Source F))
      → P s
      → All (λ e. P e.1) d
      → All (λ e. P e.1) (add_source s d added).0
  unfolding add_source
  add_source-All P s d added h all =
      let grown = All-insert (λ _ t. P t) s.ref s d (λ _ _. h) all in
      elim (Option-cases (lookup s.ref d)) [
        | inl new ↦ rw (new, add_source) grown
        | inr (old, found) ↦ elim (Bool-cases (fl.lt old.score s.score)) [
          | inl better ↦ rw (found, better, add_source) grown
          | inr worse ↦ rw (found, worse, add_source) all
        ]
      ]

  add_sources-All :
      (P : Source F → Type 0) (ss : List (Source F)) (d : Dict (Source F)) (added : List (Source F))
      → All P ss
      → All (λ e. P e.1) d
      → All (λ e. P e.1) (add_sources ss d added).0
  unfolding add_sources
  add_sources-All P [] d added h all = all
  add_sources-All P (s ∷ ss) d added h all =
      add_sources-All P ss (add_source s d added).0 (add_source s d added).1 h.1
        (add_source-All P s d added h.0 all)

  -- Every source of a ledger has the property.
  abbrev pub Holds : (Source F → Type 0) → EvidenceLedger F → Type 0
  Holds P self = All (λ e. P e.1) self.by_ref

  -- What holds of the sources of a ledger and of those handed in holds after `add`.
  pub add-Holds :
      (P : Source F → Type 0) (ss : List (Source F)) (self : EvidenceLedger F)
      → All P ss
      → Holds P self
      → Holds P (add ss self).0
  unfolding add
  add-Holds P ss self h all = add_sources-All P ss self.by_ref [] h all

  All-values : (P : Source F → Type 0) (d : Dict (Source F)) → All (λ e. P e.1) d → All P (values d)
  All-values P [] all = tt
  All-values P (e ∷ d) all = (all.0, All-values P d all.1)

  pub sources-All :
      (P : Source F → Type 0) (self : EvidenceLedger F) → Holds P self → All P (sources self)
  unfolding sources
  sources-All P self all =
      All-sort_desc by_score P (values self.by_ref) (All-values P self.by_ref all)

  -- `sources` lists the strongest first, and is a rearrangement of what the ledger holds.
  pub sources-IsDescending :
      (self : EvidenceLedger F)
      → IsDescending by_score (sources self) × Perm (sources self) (values self.by_ref)
  unfolding sources
  sources-IsDescending self = (
    sort_desc-IsDescending by_score (λ a b. fl.lt_asymm a.score b.score)
        (λ a b c. fl.ge_trans a.score b.score c.score) (values self.by_ref),
    sort_desc-perm by_score (values self.by_ref),
  )

  -- Where a ref is unknown to `d`, it was unknown to `d0`.
  Grew : (d0 d : Dict (Source F)) → Type 0
  Grew d0 d = (r : Text) → lookup r d ≡ none → lookup r d0 ≡ none

  add_source-Grew :
      (s : Source F) (d0 d : Dict (Source F)) (added : List (Source F))
      → Grew d0 d
      → All (λ a. lookup a.ref d0 ≡ none) added
      → Grew d0 (add_source s d added).0
        × All (λ a. lookup a.ref d0 ≡ none) (add_source s d added).1
  unfolding add_source Grew
  add_source-Grew s d0 d added g all =
      let grown : (r : Text) → lookup r (insert s.ref s d) ≡ none → lookup r d0 ≡ none =
        λ r e. g r (ground (arith, lookup-insert s.ref r s d)) in
      elim (Option-cases (lookup s.ref d)) [
        | inl new ↦
            rw (new, add_source)
              (grown, All-append (λ a. lookup a.ref d0 ≡ none) added (s ∷ []) all (g s.ref new, tt))
        | inr (old, found) ↦ elim (Bool-cases (fl.lt old.score s.score)) [
          | inl better ↦ rw (found, better, add_source) (grown, all)
          | inr worse ↦ rw (found, worse, add_source) (g, all)
        ]
      ]

  add_sources-fresh :
      (ss : List (Source F)) (d0 d : Dict (Source F)) (added : List (Source F))
      → Grew d0 d
      → All (λ a. lookup a.ref d0 ≡ none) added
      → All (λ a. lookup a.ref d0 ≡ none) (add_sources ss d added).1
  unfolding add_sources
  add_sources-fresh [] d0 d added g all = all
  add_sources-fresh (s ∷ ss) d0 d added g all =
      let (g', all') = add_source-Grew s d0 d added g all in
      add_sources-fresh ss d0 (add_source s d added).0 (add_source s d added).1 g' all'

  -- No ref of a source that `add` returns was in the ledger before.
  pub add_fresh :
      (ss : List (Source F)) (self : EvidenceLedger F)
      → All (λ a. lookup a.ref self.by_ref ≡ none) (add ss self).1
  unfolding add Grew
  add_fresh ss self = add_sources-fresh ss self.by_ref self.by_ref [] (λ r e. e) tt
