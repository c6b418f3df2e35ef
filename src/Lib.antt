-- ===== src/Lib.antt =====
-- The retrieval-augmented generation service of src/rag: its agent runtime, its online pipeline, the offline
-- pipeline that builds its index, and what they share.
--
-- Parts. A question reaches the online pipeline (src/rag/pipelines/online.py) or the agent runtime
-- (src/rag/agent/runtime.py). The pipeline looks into the caches, rewrites the question, retrieves chunks from a
-- vector store and a lexical index, fuses and reranks them, has a model answer, and cites or refuses. The runtime
-- lets a model call tools in rounds within a budget, collects what they find in an evidence ledger, has a
-- critic judge the draft, and publishes it with citations or falls back to the pipeline. The offline pipeline
-- (src/rag/pipelines/offline.py) parses and chunks the documents of a directory, writes the chunks of one index version to
-- both indexes, and then moves the alias by which the online pipeline finds the live version. Which implementation
-- stands behind each interface is the choice of src/rag/backends.py by the settings.
--
-- Files.
--   Prelude       lists, texts, numbers, dictionaries, stable sorting and calls that may raise
--   Schemas       the records of src/rag/schemas and src/rag/llm/chat.py
--   Security      src/rag/security/acl.py: Acl the access check and the fingerprint, Reach their relation,
--                 and Auth for auth.py
--   Agent         Budget, Evidence, Critic and Tools for the files of the same names in src/rag/agent; Runtime for
--                 runtime.py: State its fields and local variables, Answering the ways to answer, Loop the rounds,
--                 Limits, Honest and Access the proofs
--   Generation    Citations and Grounded for src/rag/generation; Grounding and Grounded.Refusals the proofs
--   Retrieval     Store for src/rag/vectordb/memory.py, Fusion and Hybrid for src/rag/retrieval/hybrid.py, Ranking for
--                 the ranked lists and src/rag/rerank/identity.py; Lexical for src/rag/lexical/bm25_memory.py, with
--                 Counted and Replay on its statistics and Hits on its search; Remote for src/rag/vectordb/qdrant.py and
--                 src/rag/lexical/opensearch.py, with Filters on what they ask the servers and Names on what they store
--   Cache         Keys, Memory and Semantic for src/rag/cache, with Memory.History on what the cache gives after any calls
--   Llm           Resilient for src/rag/llm/resilient.py, resilient_chat.py and policy.py
--   Chunking      Fixed, Recursive, Markdown, Semantic and Registry for the files of src/rag/chunking
--   Index         Registry for src/rag/index_registry.py; Parsing and Ingestion for src/rag/parsing and
--                 src/rag/ingestion; Offline for src/rag/pipelines/offline.py and src/rag/jobs/reindex.py, with Memory the
--                 backends in memory, and Cutover, Tagged, Stamped and Versions the proofs
--   Config        Settings for src/rag/settings.py, Backends for src/rag/backends.py
--   Query         Route and Rewrite for src/rag/query and part of src/rag/utils/text.py
--   Pipelines     Online and Serving for src/rag/pipelines/online.py and src/rag/api/routes/health.py
--   Api           Query for the agent's side of src/rag/api/routes/query.py
--   Tests         sample data, and the theorems at them
--
-- Correspondence. Functions and fields keep the names of the source; a method takes its object as `self`. Code
-- that changes state takes and returns it. What lies outside is passed as a field of a record: models, tools,
-- clocks, JSON, SHA-256, prompt templates. A world `W` stands for all they depend on, and a call of
-- them is a function of it that may raise. A Python exception is a value of `Raised`. Text is a list of code
-- points, and a frozenset a list. Floats are a type with an order (Prelude/Number); nothing is assumed of
-- their arithmetic, and the examples use whole numbers. A dict is an association list in order of insertion. The
-- deadline of a turn is a test on the world, which may strike in every call that the runtime awaits.
--
-- Bounds. The loop of `run` has fuel: one round more than the steps of the budget in force. Each round that goes on
-- charges a step, so it is enough. The loop of the fixed chunker has fuel: one window more than the document has
-- characters, and each window starts at least one character later. The slices of the recursive chunker have as much fuel as
-- the text has characters, and each takes at least one. All else is structural recursion.
--
-- Not modelled. Metrics, logs and traces; the order of tool calls and searches that run at the same time; the
-- other web endpoints and the semaphore of a tenant; the embedders; evaluation, the command line and the prompt
-- templates; reading the environment and YAML; and the clients of remote services, whose calls are fields of records.
pub mod Prelude
pub mod Schemas
pub mod Security
pub mod Agent
pub mod Generation
pub mod Config
pub mod Index
pub mod Cache
pub mod Retrieval
pub mod Llm
pub mod Query
pub mod Chunking
pub mod Pipelines
pub mod Api
pub mod Tests
