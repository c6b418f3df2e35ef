-- ===== src/Retrieval/Lexical/Counted.antt =====
-- The statistics of src/rag/lexical/bm25_memory.py, which upsert and delete keep up to date, against
-- those counted anew from the stored chunks.
use ai_rag.Prelude.{
  ℕ, ◌+◌, ◌-◌, ◌≡◌, refl, sym, inl, inr, Text, List, [], ◌∷◌, map, Bool, true, false, Option, none,
  some, text_eq, text_eq_iff, length, arith, Bool-cases, Option-cases,
}
use ai_rag.Prelude.Number.{Float}
use ai_rag.Prelude.Dict.{
  Dict, lookup, insert, remove, has, keys, Distinct, lookup-insert, lookup-remove, insert-Distinct,
}
use ai_rag.Schemas.Chunk.{Chunk}
use ai_rag.Retrieval.Lexical.{
  tokenize, count_of, add_one, add_ones, counter_of, Bm25MemoryIndex, take_one, take_ones, counts,
  average, remove_stats, recompute_avgdl, store, put, put_all, upsert, unstore, discard,
  discard_all, delete,
}

abbrev bit : Bool → ℕ
bit true = 1
bit false = 0

-- How often a term stands in a list.
times : Text → List Text → ℕ
times t [] = 0
times t (u ∷ us) = bit (text_eq u t) + times t us

count-add_one :
    (t u : Text) (d : Dict ℕ) → count_of t (add_one u d) ≡ count_of t d + bit (text_eq u t)
unfolding count_of add_one
count-add_one t u d = ground (arith, lookup-insert u t (count_of u d + 1) d, text_eq_iff u t)

count-add_ones :
    (t : Text) (us : List Text) (d : Dict ℕ)
    → count_of t (add_ones us d) ≡ count_of t d + times t us
unfolding add_ones times
count-add_ones t [] d = omega arith
count-add_ones t (u ∷ us) d = omega (arith, count-add_ones t us (add_one u d), count-add_one t u d)

count-take_one :
    (t u : Text) (d : Dict ℕ) → count_of t (take_one u d) ≡ count_of t d - bit (text_eq u t)
unfolding count_of take_one
count-take_one t u d =
    ground (arith, lookup-insert u t (count_of u d - 1) d, lookup-remove u t d, text_eq_iff u t)

count-take_ones :
    (t : Text) (us : List Text) (d : Dict ℕ)
    → count_of t (take_ones us d) ≡ count_of t d - times t us
unfolding take_ones times
count-take_ones t [] d = omega arith
count-take_ones t (u ∷ us) d =
    omega (arith, count-take_ones t us (take_one u d), count-take_one t u d)

add_ones-Distinct : (us : List Text) (d : Dict ℕ) → Distinct d → Distinct (add_ones us d)
unfolding add_ones add_one
add_ones-Distinct [] d h = h
add_ones-Distinct (u ∷ us) d h =
    add_ones-Distinct us (add_one u d) (insert-Distinct u (count_of u d + 1) d h)

times-none : (t : Text) (d : Dict ℕ) → lookup t d ≡ none → times t (keys d) ≡ 0
unfolding times lookup
times-none t [] h = refl
times-none t ((k, n) ∷ d) h = ground (arith, times-none t d)

times-keys : (t : Text) (d : Dict ℕ) → Distinct d → times t (keys d) ≡ bit (has t d)
unfolding times lookup
times-keys t [] h = refl
times-keys t ((k, n) ∷ d) h = elim (Bool-cases (text_eq k t)) [
  | inl e ↦
      let same : k ≡ t = (text_eq_iff k t).0 e in
      let missing : lookup t d ≡ none = ground (arith, same, h.0) in
      rw (e, lookup, has, times-none t d missing) refl
  | inr e ↦ ground (arith, e, times-keys t d h.1)
]

-- Each value of a dictionary replaced.
module _ {V U : Type 0} (g : V → U) where
  abbrev rows : Dict V → Dict U
  rows = map (λ e. (e.0, g e.1))

  rows-insert : (k : Text) (v : V) (d : Dict V) → rows (insert k v d) ≡ insert k (g v) (rows d)
  unfolding insert
  rows-insert k v [] = refl
  rows-insert k v ((j, w) ∷ d) = elim (Bool-cases (text_eq j k)) [
    | inl e ↦ rw e refl
    | inr e ↦ rw (e, rows-insert k v d) refl
  ]

  rows-remove : (k : Text) (d : Dict V) → rows (remove k d) ≡ remove k (rows d)
  unfolding remove
  rows-remove k [] = refl
  rows-remove k ((j, w) ∷ d) = elim (Bool-cases (text_eq j k)) [
    | inl e ↦ rw (e, rows-remove k d) refl
    | inr e ↦ rw (e, rows-remove k d) refl
  ]

  lookup-rows :
      (k : Text) (v : V) (d : Dict V) → lookup k d ≡ some v → lookup k (rows d) ≡ some (g v)
  unfolding lookup
  lookup-rows k v [] h = absurd (ground arith)
  lookup-rows k v ((j, w) ∷ d) h = elim (Bool-cases (text_eq j k)) [
    | inl e ↦ rw e (let same : w ≡ v = ground (arith, (rw e at h)) in rw same refl)
    | inr e ↦ rw e (lookup-rows k v d (rw e at h))
  ]

-- The counter and the length of a chunk.
abbrev pub terms_of : Chunk → Dict ℕ
terms_of chunk = counter_of (tokenize chunk.text)

abbrev pub length_of : Chunk → ℕ
length_of chunk = length (tokenize chunk.text)

-- In how many of the chunks a term stands.
unfoldable pub docs_with : Text → Dict Chunk → ℕ
docs_with t [] = 0
docs_with t ((k, c) ∷ d) = bit (has t (terms_of c)) + docs_with t d

-- The chunk that a key had is in the count of before.
abbrev old_bit : Text → Option Chunk → ℕ
old_bit t none = 0
old_bit t (some c) = bit (has t (terms_of c))

docs_with-insert :
    (t k : Text) (c : Chunk) (d : Dict Chunk)
    → docs_with t (insert k c d) + old_bit t (lookup k d) ≡ docs_with t d + bit (has t (terms_of c))
unfolding docs_with insert lookup
docs_with-insert t k c [] = omega arith
docs_with-insert t k c ((j, b) ∷ d) = elim (Bool-cases (text_eq j k)) [
  | inl e ↦ rw e (omega arith)
  | inr e ↦ rw e (omega (arith, docs_with-insert t k c d))
]

docs_with-absent :
    (t k : Text) (d : Dict Chunk) → lookup k d ≡ none → docs_with t (remove k d) ≡ docs_with t d
unfolding docs_with remove lookup
docs_with-absent t k [] h = refl
docs_with-absent t k ((j, b) ∷ d) h = elim (Bool-cases (text_eq j k)) [
  | inl e ↦ absurd (ground (arith, (rw e at h)))
  | inr e ↦ rw e (omega (arith, docs_with-absent t k d (rw e at h)))
]

docs_with-remove :
    (t k : Text) (d : Dict Chunk)
    → Distinct d
    → docs_with t (remove k d) + old_bit t (lookup k d) ≡ docs_with t d
unfolding docs_with remove lookup
docs_with-remove t k [] h = refl
docs_with-remove t k ((j, b) ∷ d) h = elim (Bool-cases (text_eq j k)) [
  | inl e ↦
      let same : j ≡ k = (text_eq_iff j k).0 e in
      let gone : lookup k d ≡ none = ground (arith, same, h.0) in
      rw e (omega (arith, docs_with-absent t k d gone))
  | inr e ↦ rw e (omega (arith, docs_with-remove t k d h.1))
]

remove-Distinct : {V : Type 0} (k : Text) (d : Dict V) → Distinct d → Distinct (remove k d)
unfolding remove
remove-Distinct k [] h = tt
remove-Distinct k ((j, v) ∷ d) h = elim (Bool-cases (text_eq j k)) [
  | inl e ↦ rw e (remove-Distinct k d h.1)
  | inr e ↦ rw e (ground (arith, lookup-remove k j d, h.0), remove-Distinct k d h.1)
]

times-terms : (t : Text) (c : Chunk) → times t (keys (terms_of c)) ≡ bit (has t (terms_of c))
unfolding counter_of
times-terms t c = times-keys t (terms_of c) (add_ones-Distinct (tokenize c.text) [] tt)

module _ {F : Type 0} ⦃fl : Float F⦄ where
  -- The statistics are those of the stored chunks: of each chunk its counter and its length, of each term the
  -- number of chunks that it stands in.
  pub record IsCounted (self : Bm25MemoryIndex F) : Type 0 where
    pub distinct : Distinct self.chunks
    pub tf_of : self.tf ≡ rows terms_of self.chunks
    pub len_of : self.doc_len ≡ rows length_of self.chunks
    pub df_of : (t : Text) → count_of t self.df ≡ docs_with t self.chunks

  pub counts-terms :
      (self : Bm25MemoryIndex F) (cid : Text) (c : Chunk)
      → IsCounted self
      → lookup cid self.chunks ≡ some c
      → counts cid self ≡ terms_of c
  unfolding counts
  counts-terms self cid c h found = rw (h.tf_of, lookup-rows terms_of cid c self.chunks found) refl

  -- After the counts of a chunk that is replaced or goes are taken off.
  cleared-count :
      (self : Bm25MemoryIndex F) (cid : Text) (c : Chunk) (t : Text)
      → IsCounted self
      → lookup cid self.chunks ≡ some c
      → count_of t (remove_stats cid self).df ≡ docs_with t self.chunks - bit (has t (terms_of c))
  unfolding remove_stats
  cleared-count self cid c t h found =
      rw (remove_stats, counts-terms self cid c h found)
        (omega (arith, count-take_ones t (keys (terms_of c)) self.df, times-terms t c, h.df_of t))

  -- A state from which the counts of what a key had are taken off.
  record IsCleared (cid : Text) (self cleared : Bm25MemoryIndex F) : Type 0 where
    same_chunks : cleared.chunks ≡ self.chunks
    same_tf : cleared.tf ≡ self.tf
    same_len : cleared.doc_len ≡ self.doc_len
    left :
        (t : Text)
        → count_of t cleared.df ≡ docs_with t self.chunks - old_bit t (lookup cid self.chunks)

  remove_stats-IsCleared :
      (self : Bm25MemoryIndex F) (cid : Text) (c : Chunk)
      → IsCounted self
      → lookup cid self.chunks ≡ some c
      → IsCleared cid self (remove_stats cid self)
  unfolding remove_stats
  remove_stats-IsCleared self cid c h found = record {
    same_chunks = refl;
    same_tf = refl;
    same_len = refl;
    left = λ t. rw found (cleared-count self cid c t h found);
  }

  absent-IsCleared :
      (self : Bm25MemoryIndex F) (cid : Text)
      → IsCounted self
      → lookup cid self.chunks ≡ none
      → IsCleared cid self self
  absent-IsCleared self cid h missing = record {
    same_chunks = refl;
    same_tf = refl;
    same_len = refl;
    left = λ t. rw missing (omega (arith, h.df_of t));
  }

  store-IsCounted :
      (chunk : Chunk) (self cleared : Bm25MemoryIndex F)
      → IsCounted self
      → IsCleared chunk.chunk_id self cleared
      → IsCounted (store chunk cleared)
  unfolding store
  store-IsCounted chunk self cleared h k =
      let cid : Text = chunk.chunk_id in
      record {
        distinct = rw k.same_chunks (insert-Distinct cid chunk self.chunks h.distinct);
        tf_of =
            rw (k.same_chunks, k.same_tf, h.tf_of)
              (sym (rows-insert terms_of cid chunk self.chunks));
        len_of =
            rw (k.same_chunks, k.same_len, h.len_of)
              (sym (rows-insert length_of cid chunk self.chunks));
        df_of = λ t. rw k.same_chunks (
            omega (
              arith,
              count-add_ones t (keys (terms_of chunk)) cleared.df,
              times-terms t chunk,
              k.left t,
              docs_with-insert t cid chunk self.chunks,
              docs_with-remove t cid self.chunks h.distinct,
            ));
      }

  put-IsCounted :
      (chunk : Chunk) (self : Bm25MemoryIndex F) → IsCounted self → IsCounted (put chunk self)
  unfolding put
  put-IsCounted chunk self h = elim (Option-cases (lookup chunk.chunk_id self.chunks)) [
    | inl e ↦
        rw (put, has, e)
          (store-IsCounted chunk self self h (absent-IsCleared self chunk.chunk_id h e))
    | inr (c, e) ↦
        rw (put, has, e)
          (store-IsCounted chunk self _ h (remove_stats-IsCleared self chunk.chunk_id c h e))
  ]

  unstore-IsCounted :
      (cid : Text) (self cleared : Bm25MemoryIndex F)
      → IsCounted self
      → IsCleared cid self cleared
      → IsCounted (unstore cid cleared)
  unfolding unstore
  unstore-IsCounted cid self cleared h k = record {
    distinct = rw k.same_chunks (remove-Distinct cid self.chunks h.distinct);
    tf_of = rw (k.same_chunks, k.same_tf, h.tf_of) (sym (rows-remove terms_of cid self.chunks));
    len_of = rw (k.same_chunks, k.same_len, h.len_of) (sym (rows-remove length_of cid self.chunks));
    df_of = λ t.
        rw k.same_chunks (omega (arith, k.left t, docs_with-remove t cid self.chunks h.distinct));
  }

  discard-IsCounted :
      (cid : Text) (self : Bm25MemoryIndex F) → IsCounted self → IsCounted (discard cid self)
  unfolding discard
  discard-IsCounted cid self h = elim (Option-cases (lookup cid self.chunks)) [
    | inl e ↦ rw (discard, has, e) h
    | inr (c, e) ↦
        rw (discard, has, e)
          (unstore-IsCounted cid self _ h (remove_stats-IsCleared self cid c h e))
  ]

  put_all-IsCounted :
      (chunks : List Chunk) (self : Bm25MemoryIndex F)
      → IsCounted self
      → IsCounted (put_all chunks self)
  unfolding put_all
  put_all-IsCounted [] self h = h
  put_all-IsCounted (c ∷ cs) self h = put_all-IsCounted cs (put c self) (put-IsCounted c self h)

  discard_all-IsCounted :
      (cids : List Text) (self : Bm25MemoryIndex F)
      → IsCounted self
      → IsCounted (discard_all cids self)
  unfolding discard_all
  discard_all-IsCounted [] self h = h
  discard_all-IsCounted (c ∷ cs) self h =
      discard_all-IsCounted cs (discard c self) (discard-IsCounted c self h)

  -- The statistics, and the average length that goes with them.
  abbrev pub IsCurrent : Bm25MemoryIndex F → Type 0
  IsCurrent self = IsCounted self × (self.avgdl ≡ average (rows length_of self.chunks))

  recompute_avgdl-IsCurrent :
      (self : Bm25MemoryIndex F) → IsCounted self → IsCurrent (recompute_avgdl self)
  unfolding recompute_avgdl
  recompute_avgdl-IsCurrent self h = (
    record { distinct = h.distinct; tf_of = h.tf_of; len_of = h.len_of; df_of = h.df_of },
    rw h.len_of refl,
  )

  -- Whatever chunks are written, over older ones or not, the statistics that `upsert` keeps up to date are
  -- afterwards those counted anew from the stored chunks, where they were before.
  pub upsert-IsCurrent :
      (chunks : List Chunk) (self : Bm25MemoryIndex F)
      → IsCounted self
      → IsCurrent (upsert chunks self)
  unfolding upsert
  upsert-IsCurrent chunks self h =
      recompute_avgdl-IsCurrent (put_all chunks self) (put_all-IsCounted chunks self h)

  -- And so are they after `delete`, for ids that are stored and ids that are not.
  pub delete-IsCurrent :
      (cids : List Text) (self : Bm25MemoryIndex F) → IsCounted self → IsCurrent (delete cids self)
  unfolding delete
  delete-IsCurrent cids self h =
      recompute_avgdl-IsCurrent (discard_all cids self) (discard_all-IsCounted cids self h)
