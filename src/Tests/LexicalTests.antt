-- ===== src/Tests/LexicalTests.antt =====
-- The theorems on the lexical index at sample chunks.
use ai_rag.Prelude.{ℕ, ◌≡◌, refl, Text, List, [], ◌∷◌, some, codes, to_lower}
use ai_rag.Prelude.Number.{whole}
use ai_rag.Schemas.Chunk.{Chunk}
use ai_rag.Retrieval.Lexical.{Bm25MemoryIndex, empty_index, search, tokenize, words_from, is_word}
use ai_rag.Retrieval.Lexical.Counted.{IsCurrent}
use ai_rag.Retrieval.Lexical.Replay.{Change, upserted, deleted, replay, view, replay-refines}
use ai_rag.Retrieval.Lexical.Hits.{IsLexicalHits, search-IsLexicalHits}
use ai_rag.Tests.Samples.{alice}
use ai_rag.Tests.RetrievalTests.{chunk_of}

-- A chunk with a text.
abbrev worded : Text → Text → Chunk
worded id text = record (chunk_of id (codes "acme")) { text = text }

-- The first chunk is written twice, and the last one goes.
abbrev history : List Change
history =
    upserted (worded (codes "a") (codes "one two one") ∷ worded (codes "b") (codes "two") ∷ [])
    ∷ upserted (worded (codes "a") (codes "three") ∷ [])
    ∷ deleted (codes "b" ∷ codes "c" ∷ [])
    ∷ []

abbrev pub start : Bm25MemoryIndex ℕ
start = empty_index 2 1

replay-refines_example :
    ((replay history start).chunks ≡ view history []) × IsCurrent (replay history start)
replay-refines_example = replay-refines 2 1 history

abbrev log : ℕ → ℕ
log n = n

search-IsLexicalHits_example :
    IsLexicalHits log
      (codes "three two")
      alice
      (some (codes "v7"))
      (replay history start)
      2
      (search log (codes "three two") 2 alice (some (codes "v7")) (replay history start))
search-IsLexicalHits_example =
    search-IsLexicalHits log (codes "three two") 2 alice (some (codes "v7")) (replay history start)
      (replay-refines 2 1 history).1.0

tokenize_words : tokenize (codes "A1, bC") ≡ codes "a1" ∷ codes "bc" ∷ []
unfolding tokenize words_from is_word to_lower
tokenize_words = refl
