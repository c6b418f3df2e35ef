-- ===== src/Chunking/Registry/Tagging.antt =====
-- What the chunks of src/rag/chunking/registry.py carry.
use ai_rag.Prelude.{
  length, drop, ℕ, refl, Option, none, some, strip, join, codes, ◌+◌, ◌<◌, ◌≡◌, sym, max, ◌-◌, Text,
  List, [], ◌∷◌, map, arith, is_empty, leb, or_else, inl, inr, Bool-cases, Option-cases, All,
}
use ai_rag.Prelude.Dict.{Dict, lookup, All-lookup, All-insert}
use ai_rag.Prelude.Number.{Float}
use ai_rag.Prelude.Result.{ok, Result-cases}
use ai_rag.Schemas.Chunk.{Chunk, Document}
use ai_rag.Chunking.Fixed
use ai_rag.Chunking.Fixed.Windows.{AreWindows, chunk-AreWindows}
use ai_rag.Chunking.Recursive
use ai_rag.Chunking.Recursive.{find_at}
use ai_rag.Chunking.Recursive.Spans.{AreSpans, chunk-AreSpans}
use ai_rag.Chunking.Markdown
use ai_rag.Chunking.Markdown.{sections}
use ai_rag.Chunking.Markdown.Sections.{stripped, chunk-stripped}
use ai_rag.Chunking.Semantic
use ai_rag.Chunking.Semantic.{
  Floats, Embed, distances, percentile, groups_from, group_chunk, head_of, place_groups,
  as_semantic, grouped, semantic_chunks, split_sentences,
}
use ai_rag.Chunking.Registry.{
  Chunker, Strategy, ChunkingConfig, no_strategy, default_registry, fixed_result, get_chunker,
  enable_semantic_chunking, register, strategy_of, chunk_document,
}

-- A chunk with the access tags of its document and the version asked for.
abbrev pub IsTagged : Document → (index_version : Text) → Chunk → Type 0
IsTagged document index_version c = (c.acl ≡ document.acl) × (c.index_version ≡ index_version)

-- Whatever a chunker returns, it has tagged.
abbrev pub Tags : Chunker → Type 0
Tags chunker =
    (document : Document) (index_version : Text) (size overlap : ℕ) (cs : List Chunk)
    → 0 < size
    → chunker document index_version size overlap ≡ ok cs
    → All (IsTagged document index_version) cs

abbrev pub AllTag : Dict Chunker → Type 0
AllTag = All (λ e. Tags e.1)

windows-IsTagged :
    (sha256 : Text → Text) (d : Document) (v text : Text) (size step start ordinal : ℕ)
    (cs : List Chunk)
    → AreWindows sha256 d v text size step start ordinal cs
    → All (IsTagged d v) cs
windows-IsTagged sha256 d v text size step start ordinal [] h = tt
windows-IsTagged sha256 d v text size step start ordinal (c ∷ cs) h = (
  (h.0.tagged, h.0.versioned),
  windows-IsTagged sha256 d v text size step (c.span.0 + step) (ordinal + 1) cs h.1,
)

AreSpans-IsTagged :
    (sha256 : Text → Text) (d : Document) (v text : Text) (size start ordinal : ℕ) (cs : List Chunk)
    → AreSpans sha256 d v text size start ordinal cs
    → All (IsTagged d v) cs
AreSpans-IsTagged sha256 d v text size start ordinal [] h = tt
AreSpans-IsTagged sha256 d v text size start ordinal (c ∷ cs) h = (
  (h.0.tagged, h.0.versioned),
  AreSpans-IsTagged sha256 d v text size c.span.1 (ordinal + 1) cs h.1,
)

stripped-IsTagged :
    (d : Document) (v : Text) (cs : List Chunk)
    → All (IsTagged d v) cs
    → All (IsTagged d v) (map stripped cs)
stripped-IsTagged d v [] h = tt
stripped-IsTagged d v (c ∷ cs) h = (h.0, stripped-IsTagged d v cs h.1)

module _ (sha256 : Text → Text) where
  fixed-Tags : Tags (λ d v size overlap. fixed_result (Fixed.chunk sha256 d v size overlap))
  unfolding fixed_result
  fixed-Tags d v size overlap cs pos h =
      let (made, e, windows) = chunk-AreWindows sha256 d v size overlap pos in
      let same : made ≡ cs = ground (arith, (rw (e, fixed_result) at h)) in
      rw (sym same) (
        windows-IsTagged sha256 d v (or_else d.text []) size (max (size - overlap) 1) 0 0 made
          windows)

  recursive-Tags : Tags (λ d v size overlap. ok (Recursive.chunk sha256 d v size overlap))
  recursive-Tags d v size overlap cs pos h =
      let same : Recursive.chunk sha256 d v size overlap ≡ cs = ground (arith, h) in
      rw (sym same) (
        AreSpans-IsTagged sha256 d v (or_else d.text []) size 0 0 _
          (chunk-AreSpans sha256 d v size overlap pos))

  markdown_All :
      (d : Document) (v : Text) (size overlap : ℕ)
      → 0 < size
      → All (IsTagged d v) (Markdown.chunk sha256 d v size overlap)
  unfolding Markdown.chunk
  markdown_All d v size overlap pos = elim (Bool-cases (is_empty (or_else d.text []))) [
    | inl e ↦ rw (Markdown.chunk, e) tt
    | inr e ↦ elim (Bool-cases (is_empty (sections (or_else d.text [])))) [
      | inl b ↦
          rw (Markdown.chunk, e, b)
            (AreSpans-IsTagged sha256 d v (or_else d.text []) size 0 0 _
              (chunk-AreSpans sha256 d v size overlap pos))
      | inr b ↦
          let (cs, same, spans) = chunk-stripped sha256 d v size overlap pos b in
          rw same (
            stripped-IsTagged d v cs
              (AreSpans-IsTagged sha256 d v (or_else d.text []) size 0 0 cs spans))
    ]
  ]

  as_semantic-IsTagged :
      (d : Document) (v : Text) (cs : List Chunk)
      → All (IsTagged d v) cs
      → All (IsTagged d v) (map (as_semantic sha256 d v) cs)
  unfolding as_semantic
  as_semantic-IsTagged d v [] h = tt
  as_semantic-IsTagged d v (c ∷ cs) h = (h.0, as_semantic-IsTagged d v cs h.1)

  place_groups-IsTagged :
      (d : Document) (v text : Text) (ordinal cursor : ℕ) (groups : List (List Text))
      → All (IsTagged d v) (place_groups sha256 d v text ordinal cursor groups)
  unfolding place_groups group_chunk
  place_groups-IsTagged d v text ordinal cursor [] = tt
  place_groups-IsTagged d v text ordinal cursor (group ∷ groups) =
      let body = strip (join (codes " ") group) in
      let start = or_else (find_at (head_of group) cursor (drop cursor text)) cursor in
      elim (Bool-cases (is_empty body)) [
        | inl e ↦ rw (place_groups, e) (place_groups-IsTagged d v text (ordinal + 1) cursor groups)
        | inr e ↦
            rw (place_groups, e)
              (
                (refl, refl),
                place_groups-IsTagged d v text (ordinal + 1) (start + length body) groups,
              )
      ]

  module _ {F : Type 0} ⦃fl : Float F⦄ (floats : Floats F) where
    recursive_All :
        (d : Document) (v : Text) (size overlap : ℕ)
        → 0 < size
        → All (IsTagged d v) (Recursive.chunk sha256 d v size overlap)
    recursive_All d v size overlap pos =
        AreSpans-IsTagged sha256 d v (or_else d.text []) size 0 0 _
          (chunk-AreSpans sha256 d v size overlap pos)

    grouped-IsTagged :
        (d : Document) (v : Text) (size : ℕ) (text s : Text) (ss : List Text) (vs : List (List F))
        (cs : List Chunk)
        → grouped sha256 d v floats size text s ss vs ≡ ok cs
        → All (IsTagged d v) cs
    unfolding grouped
    grouped-IsTagged d v size text s ss vs cs h =
        let ds = distances floats vs in
        elim (Result-cases (groups_from floats size (percentile floats ds) (s ∷ []) ss ds)) [
          | inr (x, e) ↦ absurd (ground (arith, (rw (grouped, e) at h)))
          | inl (groups, e) ↦
              let same : place_groups sha256 d v text 0 0 groups ≡ cs =
                ground (arith, (rw (grouped, e) at h)) in
              rw (sym same) (place_groups-IsTagged d v text 0 0 groups)
        ]

    semantic_chunks-IsTagged :
        (d : Document) (v : Text) (embed : Embed F) (size : ℕ) (text : Text) (ss : List Text)
        (cs : List Chunk)
        → 0 < size
        → semantic_chunks sha256 d v floats embed size text ss ≡ ok cs
        → All (IsTagged d v) cs
    unfolding semantic_chunks
    semantic_chunks-IsTagged d v embed size text [] cs pos h =
        let same : Recursive.chunk sha256 d v size 64 ≡ cs = ground (arith, h) in
        rw (sym same) (recursive_All d v size 64 pos)
    semantic_chunks-IsTagged d v embed size text (s ∷ []) cs pos h =
        let same : Recursive.chunk sha256 d v size 64 ≡ cs = ground (arith, h) in
        rw (sym same) (recursive_All d v size 64 pos)
    semantic_chunks-IsTagged d v embed size text (s ∷ t ∷ ss) cs pos h =
        elim (Result-cases (embed (s ∷ t ∷ ss))) [
          | inr (x, e) ↦ absurd (ground (arith, (rw (semantic_chunks, e) at h)))
          | inl (vs, e) ↦
              grouped-IsTagged d v size text s (t ∷ ss) vs cs (rw (semantic_chunks, e) at h)
        ]

    semantic-Tags :
        (embedder : Option (Embed F))
        → Tags (λ d v size overlap. Semantic.chunk sha256 d v floats embedder size overlap)
    unfolding Semantic.chunk
    semantic-Tags embedder d v size overlap cs pos h =
        elim (Bool-cases (is_empty (or_else d.text []))) [
          | inl e ↦
              let same : [] ≡ cs = ground (arith, (rw (Semantic.chunk, e) at h)) in rw (sym same) tt
          | inr e ↦ elim (Option-cases embedder) [
            | inl n ↦
                let same : map (as_semantic sha256 d v) (Recursive.chunk sha256 d v size overlap)
                    ≡ cs =
                  ground (arith, (rw (Semantic.chunk, e, n) at h)) in
                rw (sym same) (as_semantic-IsTagged d v _ (recursive_All d v size overlap pos))
            | inr (embed, n) ↦
                semantic_chunks-IsTagged d v embed size (or_else d.text [])
                  (split_sentences (or_else d.text [])) cs pos (rw (Semantic.chunk, e, n) at h)
          ]
        ]

  -- The chunkers that the registry starts with tag their chunks.
  pub default_registry-AllTag :
      {F : Type 0} ⦃fl : Float F⦄ (floats : Floats F) → AllTag (default_registry sha256 floats)
  unfolding default_registry
  default_registry-AllTag floats = (
    fixed-Tags,
    (
      recursive-Tags,
      (
        (λ d v size overlap cs pos e.
            let same : Markdown.chunk sha256 d v size overlap ≡ cs = ground (arith, e) in
            rw (sym same) (markdown_All d v size overlap pos)),
        (semantic-Tags floats none, tt),
      ),
    ),
  )

-- A chunker that is registered besides keeps this, where it tags its chunks.
pub register-AllTag :
    (name : Text) (chunker : Chunker) (registry : Dict Chunker)
    → Tags chunker
    → AllTag registry
    → AllTag (register name chunker registry)
unfolding register
register-AllTag name chunker registry h all =
    All-insert (λ n c. Tags c) name chunker registry (λ j e. h) all

-- So does the semantic chunker with an embedder.
pub enable_semantic_chunking-AllTag :
    {F : Type 0} ⦃fl : Float F⦄ (sha256 : Text → Text) (floats : Floats F) (embedder : Embed F)
    (registry : Dict Chunker)
    → AllTag registry
    → AllTag (enable_semantic_chunking sha256 floats embedder registry)
unfolding enable_semantic_chunking register
enable_semantic_chunking-AllTag sha256 floats embedder registry all =
    register-AllTag (codes "semantic") _ registry (semantic-Tags sha256 floats (some embedder)) all

-- Every chunk that `chunk_document` returns carries the access tags of its document and the version asked for,
-- whichever strategy is configured, where the registered chunkers tag their chunks.
pub chunk_document-IsTagged :
    (registry : Dict Chunker) (version : Text) (cfg : ChunkingConfig) (document : Document)
    (cs : List Chunk)
    → AllTag registry
    → chunk_document registry version cfg document ≡ ok cs
    → All (IsTagged document version) cs
unfolding chunk_document get_chunker
chunk_document-IsTagged registry version cfg document cs all h =
    let mime_cfg : Strategy = or_else (lookup document.mime_type cfg.strategies) no_strategy in
    let name : Text = strategy_of cfg mime_cfg document.mime_type in
    elim (Bool-cases (leb (or_else mime_cfg.size 512) (or_else mime_cfg.overlap 64))) [
      | inl e ↦ absurd (ground (arith, (rw (chunk_document, e) at h)))
      | inr e ↦ elim (Option-cases (lookup name registry)) [
        | inl n ↦ absurd (ground (arith, (rw (chunk_document, e, get_chunker, n) at h)))
        | inr (chunker, n) ↦
            All-lookup (λ n c. Tags c) name chunker registry all n document version
              (or_else mime_cfg.size 512) (or_else mime_cfg.overlap 64) cs (ground (arith, e))
              (rw (chunk_document, e, get_chunker, n) at h)
      ]
    ]
