-- ===== src/Index/Offline/Memory.antt =====
-- The offline pipeline on the backends in memory: src/rag/vectordb/memory.py and src/rag/lexical/bm25_memory.py.
use ai_rag.Prelude.{Text, List}
use ai_rag.Prelude.Number.{Float}
use ai_rag.Prelude.Result.{Result, ok, raise, Call}
use ai_rag.Schemas.Chunk.{Chunk}
use ai_rag.Retrieval.Store
use ai_rag.Retrieval.Store.{MemoryVectorStore}
use ai_rag.Retrieval.Lexical
use ai_rag.Retrieval.Lexical.{Bm25MemoryIndex}
use ai_rag.Index.Offline.{OfflinePipeline}

-- The two stores of a process.
abbrev pub Backends : Type 0 → Type 0
Backends F = MemoryVectorStore F × Bm25MemoryIndex F

module _ {F : Type 0} ⦃fl : Float F⦄ where
  unfoldable pub stored : Result (MemoryVectorStore F) → Call (Backends F) Unit
  stored (ok store) w = (ok tt, (store, w.1))
  stored (raise e) w = (raise e, w)

  unfoldable pub vector_upsert : List Chunk → List (List F) → Call (Backends F) Unit
  vector_upsert cs vs w = stored (Store.upsert cs vs w.0) w

  unfoldable pub lexical_upsert : List Chunk → Call (Backends F) Unit
  lexical_upsert cs w = (ok tt, (w.0, Lexical.upsert cs w.1))

  unfoldable pub set_alias : (alias index_version : Text) → Call (Backends F) Unit
  set_alias alias v w = (ok tt, (Store.set_alias alias v w.0, w.1))

  unfoldable pub in_memory :
      (embed_texts : List Text → List (List F))
      → OfflinePipeline F (Backends F)
      → OfflinePipeline F (Backends F)
  in_memory embed_texts self = record self {
    embed = λ texts w. (ok (embed_texts texts), w);
    vector_upsert = vector_upsert;
    lexical_upsert = lexical_upsert;
    set_alias = set_alias;
  }
