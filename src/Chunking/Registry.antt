-- ===== src/Chunking/Registry.antt =====
-- src/rag/chunking/registry.py: the chunker for a type of document. The registry is a dict of chunkers
-- that `register` writes to; the configuration gives numbers, not their texts.
pub mod Tagging
use ai_rag.Prelude.{
  ℕ, Text, List, [], ◌∷◌, Bool, true, false, Option, none, some, if◌then◌else◌, codes, is_empty,
  leb, or_else,
}
use ai_rag.Prelude.Number.{Float}
use ai_rag.Prelude.Dict.{Dict, lookup, insert}
use ai_rag.Prelude.Result.{Result, ok, raise, value_error, key_error}
use ai_rag.Schemas.Chunk.{Chunk, Document}
use ai_rag.Chunking.Fixed
use ai_rag.Chunking.Recursive
use ai_rag.Chunking.Markdown
use ai_rag.Chunking.Semantic
use ai_rag.Chunking.Semantic.{Floats, Embed}

-- The protocol `Chunker` of src/rag/chunking/base.py: its method `chunk`.
abbrev pub Chunker : Type 0
Chunker = Document → (index_version : Text) → (size overlap : ℕ) → Result (List Chunk)

-- The settings of a mime type and of all.
pub record Strategy : Type 0 where
  pub strategy : Option Text
  pub size : Option ℕ
  pub overlap : Option ℕ

pub record ChunkingConfig : Type 0 where
  pub strategies : Dict Strategy
  pub default_strategy : Option Text

abbrev pub no_strategy : Strategy
no_strategy = record { strategy = none; size = none; overlap = none }

-- The fixed chunker as an entry; that its fuel is enough is `chunk-AreWindows`.
unfoldable pub fixed_result : Option (List Chunk) → Result (List Chunk)
fixed_result none = ok []
fixed_result (some cs) = ok cs

-- `REGISTRY`; its semantic chunker has no embedder until `enable_semantic_chunking`.
unfoldable pub default_registry :
    {F : Type 0} ⦃fl : Float F⦄ → (sha256 : Text → Text) → Floats F → Dict Chunker
unfolding fixed_result
default_registry sha256 floats =
    (codes "fixed", λ d v size overlap. fixed_result (Fixed.chunk sha256 d v size overlap))
    ∷ (codes "recursive", λ d v size overlap. ok (Recursive.chunk sha256 d v size overlap))
    ∷ (codes "markdown_aware", λ d v size overlap. ok (Markdown.chunk sha256 d v size overlap))
    ∷ (codes "semantic", λ d v size overlap. Semantic.chunk sha256 d v floats none size overlap)
    ∷ []

abbrev mime_defaults : Dict Text
mime_defaults =
    (codes "text/plain", codes "fixed")
    ∷ (codes "text/markdown", codes "markdown_aware")
    ∷ (codes "application/pdf", codes "recursive")
    ∷ (codes "text/html", codes "recursive")
    ∷ (codes "application/json", codes "recursive")
    ∷ []

unfoldable pub get_chunker : Text → Dict Chunker → Result Chunker
get_chunker name registry = elim (lookup name registry) [
  | none ↦ raise (key_error (codes "Unknown chunker"))
  | some chunker ↦ ok chunker
]

-- `register`
unfoldable pub register : Text → Chunker → Dict Chunker → Dict Chunker
register name chunker registry = insert name chunker registry

unfoldable pub enable_semantic_chunking :
    {F : Type 0} ⦃fl : Float F⦄
    → (sha256 : Text → Text) → Floats F
    → Embed F
    → Dict Chunker
    → Dict Chunker
enable_semantic_chunking sha256 floats embedder registry =
    insert (codes "semantic")
      (λ d v size overlap. Semantic.chunk sha256 d v floats (some embedder) size overlap) registry

-- The strategy: the one configured if not empty, else that of the mime type, else the default.
unfoldable pub strategy_of : ChunkingConfig → Strategy → (mime_type : Text) → Text
strategy_of cfg mime_cfg mime_type =
    let fallback =
      or_else (lookup mime_type mime_defaults) (or_else cfg.default_strategy (codes "recursive")) in
    elim mime_cfg.strategy [ none ↦ fallback | some s ↦ if is_empty s then fallback else s ]

unfoldable pub chunk_document :
    Dict Chunker → (index_version : Text) → ChunkingConfig → Document → Result (List Chunk)
chunk_document registry index_version cfg document =
    let mime_cfg = or_else (lookup document.mime_type cfg.strategies) no_strategy in
    let size = or_else mime_cfg.size 512 in
    let overlap = or_else mime_cfg.overlap 64 in
    if leb size overlap
    then raise (value_error (codes "overlap must be smaller than size"))
    else elim (get_chunker (strategy_of cfg mime_cfg document.mime_type) registry) [
      | raise e ↦ raise e
      | ok chunker ↦ chunker document index_version size overlap
    ]
