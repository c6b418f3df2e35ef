-- ===== src/Cache/Semantic.antt =====
-- src/rag/cache/semantic.py: the cache of the nearest query. The embedder is an argument; a vector
-- is a list of floats. Metrics are left out.
use mathlib.Core.Path.{ap, ◌∙◌, subst}
use ai_rag.Prelude.{
  All_of_In, ℕ, ◌+◌, ◌-◌, ◌≤◌, Text, List, [], ◌∷◌, ◌++◌, ◌≡◌, refl, false, Option, none, some,
  arith, if◌then◌else◌, text_eq, text_eq_refl, or_else, length, length-append, ltb, inl, inr,
  Bool-cases, Option-cases, All, In,
}
use ai_rag.Prelude.Number.{Float}
use ai_rag.Prelude.Dict.{Dict, lookup, insert, lookup-insert}
use ai_rag.Retrieval.Store.{cosine}
use ai_rag.Cache.Keys.{normalize_query}

pub record Entry (F : Type 0) : Type 0 where
  pub query : Text
  pub vector : List F
  pub value : Text

pub record SemanticCache (F : Type 0) : Type 0 where
  pub threshold : F
  pub max_entries_per_scope : ℕ
  pub buckets : Dict (List (Entry F))

module _ {F : Type 0} ⦃fl : Float F⦄ (sqrt : F → F) (embed_query : Text → List F) where
  -- The first entry with the largest score, with its score.
  unfoldable pub best_from : List F → Option (F × Entry F) → List (Entry F) → Option (F × Entry F)
  best_from vector best [] = best
  best_from vector best (entry ∷ entries) =
      let score = cosine sqrt vector entry.vector in
      best_from vector
        (elim best [
          | none ↦ some (score, entry)
          | some (s, e) ↦ if fl.lt s score then some (score, entry) else some (s, e)
        ])
        entries

  -- The value of the best entry of a bucket, if its score reaches the threshold.
  unfoldable pub nearest : (threshold : F) → (query : Text) → List (Entry F) → Option Text
  nearest threshold query bucket =
      elim (best_from (embed_query (normalize_query query)) none bucket) [
        | none ↦ none
        | some (score, entry) ↦ if fl.lt score threshold then none else some entry.value
      ]

  unfoldable pub get : (query scope : Text) → SemanticCache F → Option Text
  get query scope self = nearest self.threshold query (or_else (lookup scope self.buckets) [])

  -- The bucket with the entry of the query replaced, none where there is no such entry.
  unfoldable pub overwrite : Entry F → List (Entry F) → Option (List (Entry F))
  overwrite new [] = none
  overwrite new (entry ∷ entries) =
      let rest = overwrite new entries in
      if text_eq entry.query new.query
      then some (record entry { value = new.value; vector = new.vector } ∷ entries)
      else elim rest [ none ↦ none | some es ↦ some (entry ∷ es) ]

  abbrev pub tail : List (Entry F) → List (Entry F)
  tail [] = []
  tail (e ∷ es) = es

  unfoldable pub append_bounded : (max_entries : ℕ) → Entry F → List (Entry F) → List (Entry F)
  append_bounded max_entries new bucket =
      let grown = bucket ++ (new ∷ []) in
      if ltb max_entries (length grown) then tail grown else grown

  unfoldable pub set : (query value scope : Text) → SemanticCache F → SemanticCache F
  set query value scope self =
      let normalized = normalize_query query in
      let new : Entry F = record {
        query = normalized;
        vector = embed_query normalized;
        value = value;
      } in
      let bucket = or_else (lookup scope self.buckets) [] in
      record self {
        buckets =
            insert scope
              (or_else (overwrite new bucket)
                (append_bounded self.max_entries_per_scope new bucket))
              self.buckets;
      }

  unfoldable pub size : Option Text → SemanticCache F → ℕ
  size none self = total self.buckets
    where
      total : Dict (List (Entry F)) → ℕ
      total [] = 0
      total ((scope, b) ∷ rest) = length b + total rest
  size (some scope) self = length (or_else (lookup scope self.buckets) [])

  length-overwrite :
      (new : Entry F) (b b' : List (Entry F)) → overwrite new b ≡ some b' → length b' ≡ length b
  unfolding overwrite
  length-overwrite new [] b' h = absurd (ground arith)
  length-overwrite new (e ∷ es) b' h = elim (Option-cases (overwrite new es)) [
    | inl n ↦ ground arith
    | inr (rest, s) ↦ ground (arith, length-overwrite new es rest s)
  ]

  length-tail : (b : List (Entry F)) → length (tail b) ≡ length b - 1
  length-tail [] = omega arith
  length-tail (e ∷ es) = omega arith

  length-append_bounded :
      (max_entries : ℕ) (new : Entry F) (b : List (Entry F))
      → length b ≤ max_entries
      → length (append_bounded max_entries new b) ≤ max_entries
  unfolding append_bounded
  length-append_bounded max_entries new b h =
      ground (arith, length-append b (new ∷ []), length-tail (b ++ (new ∷ [])))

  written : Entry F → ℕ → List (Entry F) → List (Entry F)
  written new max_entries b = or_else (overwrite new b) (append_bounded max_entries new b)

  length-written :
      (new : Entry F) (max_entries : ℕ) (b : List (Entry F))
      → length b ≤ max_entries
      → length (written new max_entries b) ≤ max_entries
  unfolding written
  length-written new max_entries b h = elim (Option-cases (overwrite new b)) [
    | inl n ↦ rw n (length-append_bounded max_entries new b h)
    | inr (rest, s) ↦ rw s (omega (arith, length-overwrite new b rest s))
  ]

  -- If the bucket of a scope has at most the entries allowed, a write to the scope keeps it so, and leaves
  -- what every other scope answers as it was.
  pub set_bounded :
      (query value scope : Text) (self : SemanticCache F)
      → size (some scope) self ≤ self.max_entries_per_scope
      → (size (some scope) (set query value scope self) ≤ self.max_entries_per_scope)
        × ((other q : Text)
            → text_eq scope other ≡ false
            → get q other (set query value scope self) ≡ get q other self)
  unfolding set size get written
  set_bounded query value scope self h =
      let bucket = or_else (lookup scope self.buckets) [] in
      let normalized = normalize_query query in
      let new : Entry F = record {
        query = normalized;
        vector = embed_query normalized;
        value = value;
      } in
      (
        rw
            (
              lookup-insert scope scope (written new self.max_entries_per_scope bucket)
                  self.buckets,
              text_eq_refl scope,
            )
            (length-written new self.max_entries_per_scope bucket h),
        λ other q apart.
            let kept : lookup other
                  (insert scope (written new self.max_entries_per_scope bucket) self.buckets)
                ≡ lookup other self.buckets =
              lookup-insert scope other _ self.buckets ∙ (rw apart) in
            ap (λ found. nearest self.threshold q (or_else found [])) kept,
      )

  here :
      (P : F × Entry F → Type 0) (vector : List F) (e : Entry F)
      → P (cosine sqrt vector e.vector, e)
      → (b : F × Entry F) → some (cosine sqrt vector e.vector, e) ≡ some b
      → P b
  here P vector e p b eq =
      let same : (cosine sqrt vector e.vector, e) ≡ b = ground arith in subst P same p

  -- What holds of the best entry seen so far and of those to come holds of the best of all.
  best_from-In :
      (P : F × Entry F → Type 0) (vector : List F) (best : Option (F × Entry F))
      (bucket : List (Entry F)) (r : F × Entry F)
      → ((b : F × Entry F) → best ≡ some b → P b)
      → All (λ e. P (cosine sqrt vector e.vector, e)) bucket
      → best_from vector best bucket ≡ some r
      → P r
  unfolding best_from
  best_from-In P vector best [] r have all h = have r h
  best_from-In P vector none (e ∷ es) r have all h =
      best_from-In P vector (some (cosine sqrt vector e.vector, e)) es r
        (λ b eq. here P vector e all.0 b eq) all.1 h
  best_from-In P vector (some (s, old)) (e ∷ es) r have all h =
      elim (Bool-cases (fl.lt s (cosine sqrt vector e.vector))) [
        | inl t ↦
            best_from-In P vector (some (cosine sqrt vector e.vector, e)) es r
              (λ b eq. here P vector e all.0 b eq) all.1 (rw (t, best_from) at h)
        | inr t ↦ best_from-In P vector (some (s, old)) es r have all.1 (rw (t, best_from) at h)
      ]

  -- A hit comes from an entry of the scope asked for, with a similarity not below the threshold.
  pub get_hit :
      (query scope value : Text) (self : SemanticCache F)
      → get query scope self ≡ some value
      → (e : Entry F) × In e (or_else (lookup scope self.buckets) [])
        × (fl.lt (cosine sqrt (embed_query (normalize_query query)) e.vector) self.threshold
            ≡ false)
        × (e.value ≡ value)
  unfolding get nearest
  get_hit query scope value self h =
      let vector = embed_query (normalize_query query) in
      let bucket = or_else (lookup scope self.buckets) [] in
      let P : F × Entry F → Type 0 = λ r. (r.0 ≡ cosine sqrt vector r.1.vector) × In r.1 bucket in
      elim (Option-cases (best_from vector none bucket)) [
        | inl n ↦ absurd (ground arith)
        | inr (r, s) ↦
            let (score, stored) =
              best_from-In P vector none bucket r (λ b e. absurd (ground arith))
                (All_of_In (λ e. P (cosine sqrt vector e.vector, e)) bucket (λ e k. (refl, k))) s in
            let near : fl.lt r.0 self.threshold ≡ false = ground arith in
            let found : r.1.value ≡ value = ground arith in
            (r.1, stored, (rw (← score) near), found)
      ]
