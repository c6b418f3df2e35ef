-- ===== src/Generation/Grounding.antt =====
-- What the resolvers of src/rag/generation/citations.py cite.
use mathlib.Core.Path.{subst}
use ai_rag.Prelude.{
  Text, List, map, ◌⊎◌, [], ◌∷◌, ◌≡◌, refl, sym, ◌∙◌, true, false, some, arith, All, In, Some,
  All_of_In, inl, inr, Bool-cases, Option-cases, text_eq, text_eq_iff, contains, is_empty,
  starts_with, take, ◌||◌,
}
use ai_rag.Prelude.Dict.{Dict, lookup, insert, All-insert, All-lookup}
use ai_rag.Schemas.Answer.{Source, Citation}
use ai_rag.Schemas.Chunk.{ScoredChunk}
use ai_rag.Generation.Citations.{
  index_by, find_prefix, resolve_marker, resolve_from, resolve_explicit, resolve_citations,
  resolve_source_citations, citation_from_source, citation_from_scored, ref_of, chunk_id_of,
  markers, first_or,
}

module _ {F : Type 0} {A : Type 0} (id_of : A → Text) (cite : A → Citation F) where
  module _ (P : A → Type 0) where
    All-index_by :
        (items : List A) (d : Dict A)
        → All P items
        → All (λ e. P e.1) d
        → All (λ e. P e.1) (index_by id_of items d)
    unfolding index_by
    All-index_by [] d h all = all
    All-index_by (x ∷ items) d h all =
        All-index_by items (insert (id_of x) x d) h.1
          (All-insert (λ _ y. P y) (id_of x) x d (λ _ _. h.0) all)

    find_prefix-All :
        (cid : Text) (d : Dict A) (x : A) → All (λ e. P e.1) d → find_prefix cid d ≡ some x → P x
    unfolding find_prefix
    find_prefix-All cid [] x all e = absurd (ground arith)
    find_prefix-All cid ((k, y) ∷ d) x all e =
        elim (Bool-cases (starts_with k cid || starts_with cid (take 12 k))) [
          | inl found ↦ subst P (ground arith) all.0
          | inr more ↦ find_prefix-All cid d x all.1 (ground arith)
        ]

    resolve_marker-All :
        (cid : Text) (d : Dict A) (x : A) → All (λ e. P e.1) d → resolve_marker cid d ≡ some x → P x
    unfolding resolve_marker
    resolve_marker-All cid d x all e = elim (Option-cases (lookup cid d)) [
      | inl none' ↦ find_prefix-All cid d x all (ground arith)
      | inr (y, found) ↦ All-lookup (λ _ z. P z) cid x d all (ground arith)
    ]

    resolve_from-All :
        (d : Dict A) (seen tokens : List Text)
        → All (λ e. P e.1) d
        → All (λ c. (x : A) × P x × (c ≡ cite x)) (resolve_from id_of cite d seen tokens)
    unfolding resolve_from
    resolve_from-All d seen [] all = tt
    resolve_from-All d seen (t ∷ tokens) all = elim (Option-cases (resolve_marker t d)) [
      | inl none' ↦ rw (none', resolve_from) (resolve_from-All d seen tokens all)
      | inr (x, hit) ↦ elim (Bool-cases (contains (id_of x) seen)) [
        | inl old ↦ rw (hit, resolve_from, old) (resolve_from-All d seen tokens all)
        | inr new ↦
            rw (hit, resolve_from, new)
              (
                (x, resolve_marker-All t d x all hit, refl),
                resolve_from-All d (id_of x ∷ seen) tokens all,
              )
      ]
    ]

    resolve_explicit-All :
        (text : Text) (items : List A)
        → All P items
        → All (λ c. (x : A) × P x × (c ≡ cite x)) (resolve_explicit id_of cite text items)
    unfolding resolve_explicit
    resolve_explicit-All text items h =
        resolve_from-All (index_by id_of items []) [] (markers text) (All-index_by items [] h tt)

-- Texts that differ from one another and from those already seen.
abbrev pub IsDistinct : List Text → List Text → Type 0
IsDistinct seen [] = Unit
IsDistinct seen (r ∷ rs) = (contains r seen ≡ false) × IsDistinct (r ∷ seen) rs

abbrev pub refs : {F : Type 0} → List (Citation F) → List Text
refs = map (λ c. c.ref)

-- Some citation has the ref.
abbrev pub Cites : {F : Type 0} → Text → List (Citation F) → Type 0
Cites r = Some (λ c. c.ref ≡ r)

module _ {F : Type 0} {A : Type 0} (id_of : A → Text) (cite : A → Citation F)
    (same : (x : A) → (cite x).ref ≡ id_of x) where
  resolve_from-IsDistinct :
      (d : Dict A) (seen tokens : List Text)
      → IsDistinct seen (refs (resolve_from id_of cite d seen tokens))
  unfolding resolve_from
  resolve_from-IsDistinct d seen [] = tt
  resolve_from-IsDistinct d seen (t ∷ tokens) = elim (Option-cases (resolve_marker t d)) [
    | inl none' ↦ rw (none', resolve_from) (resolve_from-IsDistinct d seen tokens)
    | inr (x, hit) ↦ elim (Bool-cases (contains (id_of x) seen)) [
      | inl old ↦ rw (hit, resolve_from, old) (resolve_from-IsDistinct d seen tokens)
      | inr new ↦
          rw (hit, resolve_from, new, same x)
            (new, resolve_from-IsDistinct d (id_of x ∷ seen) tokens)
    ]
  ]

  Cites-cons :
      (x y : A) (seen : List Text) (cs : List (Citation F))
      → (contains (id_of x) (id_of y ∷ seen) ≡ true) ⊎ Cites (id_of x) cs
      → (contains (id_of x) seen ≡ true) ⊎ Cites (id_of x) (cite y ∷ cs)
  unfolding contains
  Cites-cons x y seen cs (inr later) = inr (inr later)
  Cites-cons x y seen cs (inl known) = elim (Bool-cases (text_eq (id_of x) (id_of y))) [
    | inl equal ↦ inr (inl (same y ∙ sym ((text_eq_iff (id_of x) (id_of y)).0 equal)))
    | inr other ↦ inl (ground arith)
  ]

  resolve_from-Cites :
      (d : Dict A) (t : Text) (x : A) (seen tokens : List Text)
      → lookup t d ≡ some x
      → In t tokens
      → (contains (id_of x) seen ≡ true) ⊎ Cites (id_of x) (resolve_from id_of cite d seen tokens)
  unfolding resolve_from resolve_marker
  resolve_from-Cites d t x seen [] found at = absurd at
  resolve_from-Cites d t x seen (u ∷ tokens) found (inl here) =
      let hit : resolve_marker u d ≡ some x = rw (here, resolve_marker, found) refl in
      elim (Bool-cases (contains (id_of x) seen)) [
        | inl old ↦ inl old
        | inr new ↦ rw (hit, resolve_from, new) (inr (inl (same x)))
      ]
  resolve_from-Cites d t x seen (u ∷ tokens) found (inr later) =
      elim (Option-cases (resolve_marker u d)) [
        | inl none' ↦ rw (none', resolve_from) (resolve_from-Cites d t x seen tokens found later)
        | inr (y, hit) ↦ elim (Bool-cases (contains (id_of y) seen)) [
          | inl old ↦ rw (hit, resolve_from, old) (resolve_from-Cites d t x seen tokens found later)
          | inr new ↦
              rw (hit, resolve_from, new)
                (Cites-cons x y seen _
                  (resolve_from-Cites d t x (id_of y ∷ seen) tokens found later))
        ]
      ]

contains-nil : (x : Text) → contains x [] ≡ true → ⊥
unfolding contains
contains-nil x e = cc

module _ {F : Type 0} where
  -- A citation that the agent may publish: of one of the sources, each ref once.
  pub record IsGrounded (items : List (Source F)) (cs : List (Citation F)) : Type 0 where
    pub from_sources : All (λ c. (s : Source F) × In s items × (c ≡ citation_from_source s)) cs
    pub distinct : IsDistinct [] (refs cs)

  ref-citation_from_source : (s : Source F) → (citation_from_source s).ref ≡ s.ref
  unfolding citation_from_source
  ref-citation_from_source s = refl

  -- In agent mode every citation is that of a source handed in, and no ref is cited twice.
  pub resolve_source_citations-IsGrounded :
      (text : Text) (items : List (Source F))
      → IsGrounded items (resolve_source_citations text items true)
  unfolding resolve_source_citations resolve_explicit
  resolve_source_citations-IsGrounded text items = record {
    from_sources =
        resolve_explicit-All ref_of citation_from_source (λ s. In s items) text items
          (All_of_In (λ s. In s items) items (λ s k. k));
    distinct =
        resolve_from-IsDistinct ref_of citation_from_source ref-citation_from_source
          (index_by ref_of items []) [] (markers text);
  }

  -- In agent mode a marker that is the ref of a source is cited, whatever else stands in the text.
  pub resolve_source_citations-Cites :
      (text : Text) (items : List (Source F)) (t : Text) (s : Source F)
      → lookup t (index_by ref_of items []) ≡ some s
      → In t (markers text)
      → Cites s.ref (resolve_source_citations text items true)
  unfolding resolve_source_citations resolve_explicit
  resolve_source_citations-Cites text items t s found at =
      elim (resolve_from-Cites ref_of citation_from_source ref-citation_from_source
        (index_by ref_of items []) t s [] (markers text) found at) [
          | inl old ↦ absurd (contains-nil s.ref old)
          | inr cited ↦ cited
        ]

  -- In agent mode a text without a marker has no citation, whatever was retrieved.
  pub resolve_source_citations_unmarked :
      (text : Text) (items : List (Source F))
      → markers text ≡ []
      → resolve_source_citations text items true ≡ []
  unfolding resolve_source_citations resolve_explicit resolve_from
  resolve_source_citations_unmarked text items e = rw e

  first_or-ne-nil :
      {A : Type 0} (cs : List (Citation F)) (cite : A → Citation F) (items : List A)
      → is_empty items ≡ false
      → is_empty (first_or cs cite items) ≡ false
  first_or-ne-nil [] cite [] h = h
  first_or-ne-nil [] cite (x ∷ items) h = refl
  first_or-ne-nil (c ∷ cs) cite items h = refl

  -- The single-pass resolver never comes back empty where something was retrieved.
  pub resolve_citations-ne-nil :
      (text : Text) (scored : List (ScoredChunk F))
      → is_empty scored ≡ false
      → is_empty (resolve_citations text scored) ≡ false
  unfolding resolve_citations
  resolve_citations-ne-nil text scored h =
      first_or-ne-nil (resolve_explicit chunk_id_of citation_from_scored text scored)
        citation_from_scored scored h

  first_or-All :
      {A : Type 0} (P : A → Type 0) (cs : List (Citation F)) (cite : A → Citation F)
      (items : List A)
      → All P items
      → All (λ c. (x : A) × P x × (c ≡ cite x)) cs
      → All (λ c. (x : A) × P x × (c ≡ cite x)) (first_or cs cite items)
  first_or-All P [] cite [] h k = tt
  first_or-All P [] cite (x ∷ items) h k = ((x, h.0, refl), tt)
  first_or-All P (c ∷ cs) cite items h k = k

  pub resolve_citations-All :
      (P : ScoredChunk F → Type 0) (text : Text) (scored : List (ScoredChunk F))
      → All P scored
      → All
          (λ c. (s : ScoredChunk F) × P s × (c ≡ citation_from_scored s))
          (resolve_citations text scored)
  unfolding resolve_citations
  resolve_citations-All P text scored h =
      first_or-All P (resolve_explicit chunk_id_of citation_from_scored text scored)
        citation_from_scored scored h
        (resolve_explicit-All chunk_id_of citation_from_scored P text scored h)
