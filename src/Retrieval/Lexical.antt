-- ===== src/Retrieval/Lexical.antt =====
-- src/rag/lexical/bm25_memory.py: the lexical index in memory. The logarithm is an argument; texts are
-- read as ASCII; sums are taken from the left, as the code takes them.
pub mod Counted
pub mod Replay
pub mod Hits
use ai_rag.Prelude.{
  ℕ, ◌+◌, ◌-◌, ◌==◌, Text, List, [], ◌∷◌, ◌++◌, map, Bool, true, false, not, ◌&&◌, ◌||◌, Option,
  none, some, if◌then◌else◌, is_empty, length, take, leb, or_else, to_lower,
}
use ai_rag.Prelude.Number.{Float}
use ai_rag.Prelude.Dict.{Dict, lookup, insert, remove, has, keys, values}
use ai_rag.Prelude.Sort.{sort_desc}
use ai_rag.Schemas.Principal.{Principal}
use ai_rag.Schemas.Chunk.{Chunk, ScoredChunk, lexical}
use ai_rag.Retrieval.Store.{is_eligible}
use ai_rag.Retrieval.Ranking.{ranked, by_first}

-- `[a-z0-9]` with `re.I`
unfoldable pub is_word : ℕ → Bool
is_word c = (leb 48 c && leb c 57) || (leb 65 c && leb c 90) || (leb 97 c && leb c 122)

-- The words of a text, the one that is being read first.
unfoldable pub words_from : (word text : Text) → List Text
unfolding is_word
words_from word [] = if is_empty word then [] else word ∷ []
words_from word (c ∷ text) =
    let longer = words_from (word ++ (c ∷ [])) text in
    let next = words_from [] text in
    if is_word c then longer else if is_empty word then next else word ∷ next

unfoldable pub tokenize : Text → List Text
unfolding words_from to_lower
tokenize text = map (map to_lower) (words_from [] text)

-- `counter[term]`: zero for a term that is not there
unfoldable pub count_of : Text → Dict ℕ → ℕ
unfolding lookup
count_of term counter = or_else (lookup term counter) 0

-- `counter[term] += 1`
unfoldable pub add_one : Text → Dict ℕ → Dict ℕ
unfolding insert count_of
add_one term counter = insert term (count_of term counter + 1) counter

-- `Counter(tokens)` added to a counter
unfoldable pub add_ones : List Text → Dict ℕ → Dict ℕ
unfolding add_one
add_ones [] counter = counter
add_ones (t ∷ ts) counter = add_ones ts (add_one t counter)

unfoldable pub counter_of : List Text → Dict ℕ
unfolding add_ones
counter_of tokens = add_ones tokens []

pub record Bm25MemoryIndex (F : Type 0) : Type 0 where
  pub k1 : F
  pub b : F
  pub chunks : Dict Chunk
  pub tf : Dict (Dict ℕ)
  pub df : Dict ℕ
  pub doc_len : Dict ℕ
  pub avgdl : F

-- `self._df[term] -= 1`, and the entry goes at zero
unfoldable pub take_one : Text → Dict ℕ → Dict ℕ
unfolding insert remove count_of
take_one term df =
    let left = count_of term df - 1 in if left == 0 then remove term df else insert term left df

unfoldable pub take_ones : List Text → Dict ℕ → Dict ℕ
unfolding take_one
take_ones [] df = df
take_ones (t ∷ ts) df = take_ones ts (take_one t df)

-- `self._tf[cid]`: every stored chunk has its counter.
unfoldable pub counts : {F : Type 0} → Text → Bm25MemoryIndex F → Dict ℕ
unfolding lookup
counts cid self = or_else (lookup cid self.tf) []

-- `sum(values)`
unfoldable pub total : Dict ℕ → ℕ
total [] = 0
total ((k, n) ∷ d) = n + total d

module _ {F : Type 0} ⦃fl : Float F⦄ where
  -- `__init__`
  abbrev pub empty_index : (k1 b : F) → Bm25MemoryIndex F
  empty_index k1 b = record {
    k1 = k1;
    b = b;
    chunks = [];
    tf = [];
    df = [];
    doc_len = [];
    avgdl = fl.of_nat 0;
  }

  -- `_remove_stats`; the terms of a counter, each once
  unfoldable pub remove_stats : Text → Bm25MemoryIndex F → Bm25MemoryIndex F
  unfolding take_ones counts
  remove_stats cid self = record self { df = take_ones (keys (counts cid self)) self.df }

  unfoldable pub average : Dict ℕ → F
  unfolding total
  average [] = fl.of_nat 0
  average (e ∷ d) = fl.div (fl.of_nat (total (e ∷ d))) (fl.of_nat (length (e ∷ d)))

  -- `_recompute_avgdl`
  unfoldable pub recompute_avgdl : Bm25MemoryIndex F → Bm25MemoryIndex F
  unfolding average
  recompute_avgdl self = record self { avgdl = average self.doc_len }

  -- A chunk and its statistics written.
  unfoldable pub store : Chunk → Bm25MemoryIndex F → Bm25MemoryIndex F
  unfolding tokenize counter_of add_ones insert
  store chunk self =
      let tokens = tokenize chunk.text in
      record self {
        chunks = insert chunk.chunk_id chunk self.chunks;
        tf = insert chunk.chunk_id (counter_of tokens) self.tf;
        doc_len = insert chunk.chunk_id (length tokens) self.doc_len;
        df = add_ones (keys (counter_of tokens)) self.df;
      }

  -- One round of the loop of `upsert`.
  unfoldable pub put : Chunk → Bm25MemoryIndex F → Bm25MemoryIndex F
  unfolding store remove_stats
  put chunk self =
      store chunk
        (if has chunk.chunk_id self.chunks then remove_stats chunk.chunk_id self else self)

  unfoldable pub put_all : List Chunk → Bm25MemoryIndex F → Bm25MemoryIndex F
  unfolding put
  put_all [] self = self
  put_all (c ∷ cs) self = put_all cs (put c self)

  unfoldable pub upsert : List Chunk → Bm25MemoryIndex F → Bm25MemoryIndex F
  unfolding put_all recompute_avgdl
  upsert chunks self = recompute_avgdl (put_all chunks self)

  -- A chunk and its statistics deleted.
  unfoldable pub unstore : Text → Bm25MemoryIndex F → Bm25MemoryIndex F
  unfolding remove
  unstore cid self = record self {
    chunks = remove cid self.chunks;
    tf = remove cid self.tf;
    doc_len = remove cid self.doc_len;
  }

  -- One round of the loop of `delete`.
  unfoldable pub discard : Text → Bm25MemoryIndex F → Bm25MemoryIndex F
  unfolding unstore remove_stats
  discard cid self = if has cid self.chunks then unstore cid (remove_stats cid self) else self

  unfoldable pub discard_all : List Text → Bm25MemoryIndex F → Bm25MemoryIndex F
  unfolding discard
  discard_all [] self = self
  discard_all (c ∷ cs) self = discard_all cs (discard c self)

  unfoldable pub delete : List Text → Bm25MemoryIndex F → Bm25MemoryIndex F
  unfolding discard_all recompute_avgdl
  delete chunk_ids self = recompute_avgdl (discard_all chunk_ids self)

  -- The decimals of the formula, `0.5` as a half of one.
  half : F
  half = fl.div (fl.of_nat 1) (fl.of_nat 2)

  -- `self._avgdl or 1.0`
  unfoldable pub length_or_one : F → F
  length_or_one x =
      if not (fl.lt x (fl.of_nat 0)) && not (fl.lt (fl.of_nat 0) x) then fl.of_nat 1 else x

  module _ (log : F → F) where
    -- What one term of the query adds to a score.
    unfoldable pub term_score : (n dl : ℕ) → (freq : ℕ) → Text → Bm25MemoryIndex F → F
    unfolding half length_or_one count_of
    term_score n dl freq term self =
        let df = count_of term self.df in
        let idf = log (
          fl.add (fl.of_nat 1) (
            fl.div (fl.add (fl.sub (fl.of_nat n) (fl.of_nat df)) half)
              (fl.add (fl.of_nat df) half))) in
        let denom = fl.add (fl.of_nat freq) (
          fl.mul self.k1 (
            fl.add (fl.sub (fl.of_nat 1) self.b)
              (fl.div (fl.mul self.b (fl.of_nat dl)) (length_or_one self.avgdl)))) in
        fl.div (fl.mul idf (fl.mul (fl.of_nat freq) (fl.add self.k1 (fl.of_nat 1)))) denom

    -- The loop of `_bm25` over the terms of the query.
    unfoldable pub score_terms :
        (n dl : ℕ) → (tf : Dict ℕ) → List Text → (score : F) → Bm25MemoryIndex F → F
    unfolding lookup term_score
    score_terms n dl tf [] score self = score
    score_terms n dl tf (t ∷ ts) score self = elim (lookup t tf) [
      | none ↦ score_terms n dl tf ts score self
      | some freq ↦ score_terms n dl tf ts (fl.add score (term_score n dl freq t self)) self
    ]

    unfoldable pub bm25 : List Text → Text → (n : ℕ) → Bm25MemoryIndex F → F
    unfolding score_terms counts count_of
    bm25 q_tokens cid n self =
        score_terms n (count_of cid self.doc_len) (counts cid self) q_tokens (fl.of_nat 0) self

    -- The pairs of score and chunk before they are sorted.
    unfoldable pub scored_chunks :
        List Text
        → Principal
        → Option Text
        → (n : ℕ) → List (Text × Chunk)
        → Bm25MemoryIndex F
        → List (F × Chunk)
    unfolding bm25 is_eligible
    scored_chunks q_tokens principal version n [] self = []
    scored_chunks q_tokens principal version n ((cid, chunk) ∷ rest) self =
        let others = scored_chunks q_tokens principal version n rest self in
        let score = bm25 q_tokens cid n self in
        if is_eligible principal version chunk && fl.lt (fl.of_nat 0) score
        then (score, chunk) ∷ others
        else others

    unfoldable pub search :
        Text → (top_k : ℕ) → Principal → Option Text → Bm25MemoryIndex F → List (ScoredChunk F)
    unfolding scored_chunks tokenize ranked sort_desc
    search query top_k principal version self =
        let q_tokens = tokenize query in
        if is_empty q_tokens || is_empty self.chunks
        then []
        else ranked lexical 1 (
            take top_k (
              sort_desc by_first
                (scored_chunks q_tokens principal version (length self.chunks) self.chunks self)))
