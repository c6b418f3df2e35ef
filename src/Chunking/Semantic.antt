-- ===== src/Chunking/Semantic.antt =====
-- `SemanticChunker` of src/rag/chunking/semantic.py: cuts between sentences whose vectors are far apart. The embedder, the
-- square root and the place of the percentile are given; texts are read as ASCII.
use ai_rag.Prelude.{
  ℕ, zero, suc, ◌+◌, ◌-◌, ◌==◌, Text, List, [], ◌∷◌, ◌++◌, map, Bool, false, not, ◌&&◌, ◌||◌,
  Option, none, some, if◌then◌else◌, codes, is_empty, is_space, strip, join, length, drop, ltb, min,
  or_else, keep, starts_with,
}
use ai_rag.Prelude.Number.{Float}
use ai_rag.Prelude.Dict.{insert}
use ai_rag.Prelude.Sort.{sort_desc}
use ai_rag.Prelude.Result.{Result, ok, raise, exception}
use ai_rag.Schemas.Chunk.{Chunk, Document}
use ai_rag.Chunking.Fixed.{derive_chunk_id}
use ai_rag.Chunking.Recursive.{find_at}
use ai_rag.Chunking.Recursive
use ai_rag.Retrieval.Store.{cosine}

-- Where `re.split(r"(?<=[.!?])\s+|\n{2}", text)` is: in a part, or in a gap of either kind.
pub data Place : Type 0 where
  in_part in_spaces in_newlines : Place

unfoldable pub goes_on : Place → ℕ → Bool
unfolding is_space
goes_on in_part c = false
goes_on in_spaces c = is_space c
goes_on in_newlines c = c == 10

-- The gap that begins with a character, by the one before it and the text behind.
unfoldable pub gap_at : (previous c : ℕ) → (text : Text) → Place
unfolding is_space starts_with
gap_at previous c text =
    if ((previous == b'.') || (previous == b'!') || (previous == b'?')) && is_space c
    then in_spaces
    else if (c == 10) && starts_with text (10 ∷ [])
    then in_newlines
    else in_part

unfoldable pub parts_from : Place → (previous : ℕ) → (part text : Text) → List Text
unfolding goes_on gap_at
parts_from place previous part [] = part ∷ []
parts_from place previous part (c ∷ text) =
    let on = parts_from place c part text in
    let more = parts_from in_part c (part ++ (c ∷ [])) text in
    let spaces = parts_from in_spaces c [] text in
    let newlines = parts_from in_newlines c [] text in
    if goes_on place c then on else elim (gap_at previous c text) [
      | in_part ↦ more
      | in_spaces ↦ part ∷ spaces
      | in_newlines ↦ part ∷ newlines
    ]

-- `_split_sentences`
unfoldable pub split_sentences : Text → List Text
unfolding parts_from
split_sentences text = keep (λ p. not (is_empty p)) (map strip (parts_from in_part 0 [] text))

unfoldable pub sum_len : List Text → ℕ
sum_len [] = 0
sum_len (s ∷ ss) = length s + sum_len ss

unfoldable pub at : {A : Type 0} → A → ℕ → List A → A
at default i [] = default
at default zero (x ∷ xs) = x
at default (suc i) (x ∷ xs) = at default i xs

-- The first sentence of a group.
unfoldable pub head_of : List Text → Text
head_of [] = []
head_of (s ∷ ss) = s

-- `Embedder.embed`
abbrev pub Embed : Type 0 → Type 0
Embed F = List Text → Result (List (List F))

-- What the chunker computes with floats: `math.sqrt`, and `int(percentile * n)`.
pub record Floats (F : Type 0) : Type 0 where
  pub sqrt : F → F
  pub share : (n : ℕ) → ℕ

module _ {F : Type 0} ⦃fl : Float F⦄ (floats : Floats F) where
  unfoldable pub distances : List (List F) → List F
  unfolding cosine
  distances [] = []
  distances (v ∷ []) = []
  distances (v ∷ w ∷ vs) = fl.sub (fl.of_nat 1) (cosine floats.sqrt v w) ∷ distances (w ∷ vs)

  -- `_percentile`
  unfoldable pub percentile : List F → F
  unfolding at
  percentile values =
      let last = length values - 1 in
      let ordered = sort_desc (λ x y. fl.lt y x) values in
      at (fl.of_nat 0) (min (floats.share last) last) ordered

  -- The loop over the sentences; `distances[i]` raises where the embedder gave too few vectors.
  unfoldable pub groups_from :
      (size : ℕ)
      → (threshold : F) → (group sentences : List Text) → List F
      → Result (List (List Text))
  unfolding sum_len
  groups_from size threshold group [] ds = ok (group ∷ [])
  groups_from size threshold group (s ∷ ss) [] = raise (exception (codes "IndexError"))
  groups_from size threshold group (s ∷ ss) (d ∷ ds) =
      let cut = groups_from size threshold (s ∷ []) ss ds in
      let more = groups_from size threshold (group ++ (s ∷ [])) ss ds in
      if not (fl.lt d threshold) || ltb size (sum_len group + length s)
      then elim cut [ raise e ↦ raise e | ok groups ↦ ok (group ∷ groups) ]
      else more

module _ (sha256 : Text → Text) (document : Document) (index_version : Text) where
  unfoldable pub group_chunk : (ordinal start : ℕ) → Text → Chunk
  group_chunk ordinal start body = record {
    chunk_id = derive_chunk_id sha256 document.doc_id ordinal (codes "1.0") index_version;
    doc_id = document.doc_id;
    ordinal = ordinal;
    text = body;
    span = (start, start + length body);
    acl = document.acl;
    index_version = index_version;
    embedding_model = none;
    metadata = (codes "chunker", codes "semantic") ∷ (codes "chunker_version", codes "1.0") ∷ [];
  }

  -- The loop over the groups.
  unfoldable pub place_groups : Text → (ordinal cursor : ℕ) → List (List Text) → List Chunk
  unfolding find_at join group_chunk head_of
  place_groups text ordinal cursor [] = []
  place_groups text ordinal cursor (group ∷ groups) =
      let body = strip (join (codes " ") group) in
      let start = or_else (find_at (head_of group) cursor (drop cursor text)) cursor in
      let skipped = place_groups text (ordinal + 1) cursor groups in
      let later = place_groups text (ordinal + 1) (start + length body) groups in
      if is_empty body then skipped else group_chunk ordinal start body ∷ later

  -- The metadata of a fallback; its Boolean `semantic_fallback` is left out.
  unfoldable pub as_semantic : Chunk → Chunk
  as_semantic c = record c {
    metadata =
        insert (codes "chunker_version") (codes "1.0")
          (insert (codes "chunker") (codes "semantic") c.metadata);
  }

  module _ {F : Type 0} ⦃fl : Float F⦄ (floats : Floats F) where
    -- From the vectors of two sentences or more.
    unfoldable pub grouped :
        (size : ℕ)
        → Text
        → (first : Text) → (sentences : List Text) → List (List F)
        → Result (List Chunk)
    unfolding place_groups
    grouped size text first sentences vectors =
        let ds = distances floats vectors in
        elim (groups_from floats size (percentile floats ds) (first ∷ []) sentences ds) [
          | raise e ↦ raise e
          | ok groups ↦ ok (place_groups text 0 0 groups)
        ]

    -- `_semantic_chunks`; the fallback has the overlap 64.
    unfoldable pub semantic_chunks :
        Embed F → (size : ℕ) → Text → (sentences : List Text) → Result (List Chunk)
    semantic_chunks embed size text [] = ok (Recursive.chunk sha256 document index_version size 64)
    semantic_chunks embed size text (s ∷ []) =
        ok (Recursive.chunk sha256 document index_version size 64)
    semantic_chunks embed size text (s ∷ t ∷ ss) = elim (embed (s ∷ t ∷ ss)) [
      | raise e ↦ raise e
      | ok vectors ↦ grouped size text s (t ∷ ss) vectors
    ]

    -- `SemanticChunker.chunk`
    unfoldable pub chunk : Option (Embed F) → (size overlap : ℕ) → Result (List Chunk)
    unfolding as_semantic
    chunk embedder size overlap =
        let text = or_else document.text [] in
        if is_empty text then ok [] else elim embedder [
          | none ↦ ok (map as_semantic (Recursive.chunk sha256 document index_version size overlap))
          | some embed ↦ semantic_chunks embed size text (split_sentences text)
        ]
