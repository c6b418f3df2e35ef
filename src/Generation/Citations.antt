-- ===== src/Generation/Citations.antt =====
-- src/rag/generation/citations.py: the markers of an answer, resolved against what was retrieved.
use ai_rag.Prelude.{
  ℕ, Text, List, [], ◌∷◌, ◌++◌, Bool, ◌&&◌, ◌||◌, Option, none, some, ◌==◌, leb, if◌then◌else◌,
  length, take, contains, starts_with, codes, show_nat, or_else,
}
use ai_rag.Prelude.Dict.{Dict, lookup, insert}
use ai_rag.Schemas.Answer.{Source, chunk, Citation}
use ai_rag.Schemas.Chunk.{ScoredChunk, RetrieverName, dense, lexical, fused, rerank}

-- The class `[a-zA-Z0-9_.:\-/]` of `_CITATION_RE`
unfoldable pub is_marker_char : ℕ → Bool
is_marker_char c =
    (leb b'a' c && leb c b'z')
    || (leb b'A' c && leb c b'Z')
    || (leb b'0' c && leb c b'9')
    || (c == b'_')
    || (c == b'.')
    || (c == b':')
    || (c == b'-')
    || (c == b'/')

unfoldable pub fits_marker : Text → Bool
fits_marker run = leb 4 (length run) && leb (length run) 128

-- `_CITATION_RE.finditer`: the texts between `[` and `]`. The first argument is the run of marker
-- characters since the last `[`, if nothing else stands between.
unfoldable pub scan_markers : Option Text → Text → List Text
unfolding is_marker_char fits_marker
scan_markers run [] = []
scan_markers none (c ∷ text) = scan_markers (if c == b'[' then some [] else none) text
scan_markers (some run) (c ∷ text) =
    let found = scan_markers none text in
    let next =
      scan_markers
        (if c == b'[' then some [] else if is_marker_char c then some (run ++ (c ∷ [])) else none)
        text in
    if (c == b']') && fits_marker run then run ∷ found else next

abbrev pub markers : Text → List Text
markers = scan_markers none

-- The two resolvers are one loop, over the items, their ids and the citations they give.
module _ {A : Type 0} where
  -- `{id_of(x): x for x in items}`
  unfoldable pub index_by : (A → Text) → List A → Dict A → Dict A
  index_by id_of [] by_id = by_id
  index_by id_of (x ∷ items) by_id = index_by id_of items (insert (id_of x) x by_id)

  -- The loop that looks for an id of which the marker is a prefix, or the other way round.
  unfoldable pub find_prefix : Text → Dict A → Option A
  find_prefix cid [] = none
  find_prefix cid ((full_id, x) ∷ by_id) =
      if starts_with full_id cid || starts_with cid (take 12 full_id)
      then some x
      else find_prefix cid by_id

  unfoldable pub resolve_marker : Text → Dict A → Option A
  unfolding find_prefix
  resolve_marker cid by_id = elim (lookup cid by_id) [
    | some hit ↦ some hit
    | none ↦ find_prefix cid by_id
  ]

module _ {F : Type 0} {A : Type 0} (id_of : A → Text) (cite : A → Citation F) where
  -- The loop over the matches; `seen` are the ids cited so far.
  unfoldable pub resolve_from : Dict A → List Text → List Text → List (Citation F)
  resolve_from by_id seen [] = []
  resolve_from by_id seen (cid ∷ rest) = elim (resolve_marker cid by_id) [
    | none ↦ resolve_from by_id seen rest
    | some hit ↦
        let skipped = resolve_from by_id seen rest in
        let cited = resolve_from by_id (id_of hit ∷ seen) rest in
        if contains (id_of hit) seen then skipped else cite hit ∷ cited
  ]

  unfoldable pub resolve_explicit : Text → List A → List (Citation F)
  unfolding index_by resolve_from
  resolve_explicit answer_text items =
      resolve_from (index_by id_of items []) [] (markers answer_text)

unfoldable pub retriever_value : RetrieverName → Text
retriever_value dense = codes "dense"
retriever_value lexical = codes "lexical"
retriever_value fused = codes "fused"
retriever_value rerank = codes "rerank"

module _ {F : Type 0} where
  unfoldable pub citation_from_scored : ScoredChunk F → Citation F
  citation_from_scored scored = record {
    chunk_id = scored.chunk.chunk_id;
    doc_id = scored.chunk.doc_id;
    quote = take 200 scored.chunk.text;
    score = scored.score;
    kind = chunk;
    ref = scored.chunk.chunk_id;
    url = none;
    title = [];
  }

  unfoldable pub citation_from_source : Source F → Citation F
  citation_from_source source = record {
    chunk_id = elim source.kind [ chunk ↦ source.ref | _ ↦ [] ];
    doc_id = source.doc_id;
    quote = take 200 source.quote;
    score = source.score;
    kind = source.kind;
    ref = source.ref;
    url = source.url;
    title = source.title;
  }

  unfoldable pub source_from_scored : ScoredChunk F → Source F
  unfolding lookup
  source_from_scored scored = record {
    kind = chunk;
    ref = scored.chunk.chunk_id;
    doc_id = scored.chunk.doc_id;
    title = or_else (lookup (codes "title") scored.chunk.metadata) scored.chunk.doc_id;
    quote = take 500 scored.chunk.text;
    score = scored.score;
    url = none;
    acl = some scored.chunk.acl;
    metadata =
        (codes "retriever", retriever_value scored.retriever)
        ∷ (codes "rank", show_nat scored.rank)
        ∷ [];
  }

  abbrev pub chunk_id_of : ScoredChunk F → Text
  chunk_id_of s = s.chunk.chunk_id

  abbrev pub ref_of : Source F → Text
  ref_of s = s.ref

  -- `if not citations and items: citations.append(cite(items[0]))`
  abbrev pub first_or :
      {A : Type 0} → List (Citation F) → (A → Citation F) → List A → List (Citation F)
  first_or [] cite [] = []
  first_or [] cite (x ∷ items) = cite x ∷ []
  first_or (c ∷ citations) cite items = c ∷ citations

  unfoldable pub resolve_citations : Text → List (ScoredChunk F) → List (Citation F)
  resolve_citations answer_text scored =
      first_or (resolve_explicit chunk_id_of citation_from_scored answer_text scored)
        citation_from_scored scored

  unfoldable pub resolve_source_citations :
      Text → List (Source F) → (require_explicit : Bool) → List (Citation F)
  resolve_source_citations answer_text sources require_explicit =
      let citations = resolve_explicit ref_of citation_from_source answer_text sources in
      if require_explicit then citations else first_or citations citation_from_source sources
