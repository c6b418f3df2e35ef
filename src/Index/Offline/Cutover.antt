-- ===== src/Index/Offline/Cutover.antt =====
-- The calls of the backends in src/rag/pipelines/offline.py, up to the move of the alias.
use mathlib.Core.Path.{subst}
use ai_rag.Prelude.{
  ◌≡◌, refl, ap, inl, inr, Text, List, [], ◌∷◌, map, Bool, true, false, Option, none, some,
  is_empty, codes, length,
}
use ai_rag.Prelude.Result.{
  Raised, Result, ok, raise, and_then, then_of, and_then_ends, Result-cases,
}
use ai_rag.Schemas.Principal.{AclTags}
use ai_rag.Schemas.Chunk.{Chunk}
use ai_rag.Index.Offline.{
  OfflinePipeline, Store, note, on_world, activate, finish, index_chunks, embed_and_index, prepare,
  version_of, run, stamp,
}

module _ {F W : Type 0} (self : OfflinePipeline F W) (version : Text) (before : W) where
  -- From the world before, the vectors were computed for the texts of the chunks, and the chunks were
  -- written with them to the vector store and then to the lexical index; the world is that after it.
  pub record IsIndexed (cs : List Chunk) (after : W) : Type 0 where
    pub vectors : List (List F)
    pub embedded : W
    pub stored : W
    pub embeds : self.embed (map (λ c. c.text) cs) before ≡ (ok vectors, embedded)
    pub stores : self.vector_upsert cs vectors embedded ≡ (ok tt, stored)
    pub lists : self.lexical_upsert cs stored ≡ (ok tt, after)

  -- The world has seen at most the calls of the indexing, of which the last one raised.
  pub data IsBroken (e : Raised) : W → Type 0 where
    unread : IsBroken e before
    unembedded :
        (cs : List Chunk) (w : W)
        → self.embed (map (λ c. c.text) cs) before ≡ (raise e, w)
        → IsBroken e w
    unstored :
        (cs : List Chunk) (vectors : List (List F)) (u w : W)
        → self.embed (map (λ c. c.text) cs) before ≡ (ok vectors, u)
        → self.vector_upsert cs vectors u ≡ (raise e, w)
        → IsBroken e w
    unlisted :
        (cs : List Chunk) (vectors : List (List F)) (u v w : W)
        → self.embed (map (λ c. c.text) cs) before ≡ (ok vectors, u)
        → self.vector_upsert cs vectors u ≡ (ok tt, v)
        → self.lexical_upsert cs v ≡ (raise e, w)
        → IsBroken e w

  -- How a build ends, with every call of the backends it made.
  pub data Outcome (activated : Bool) : Result (List Chunk) × Store W → Type 0 where
    -- indexed, then the alias moved
    published :
        (cs : List Chunk) (indexed : W) (s : Store W)
        → is_empty cs ≡ false
        → activated ≡ true
        → IsIndexed cs indexed
        → self.set_alias self.settings.collection_alias version indexed ≡ (ok tt, s.world)
        → Outcome activated (ok cs, s)
    -- indexed, and the alias was not to be moved
    held :
        (cs : List Chunk) (s : Store W)
        → is_empty cs ≡ false
        → activated ≡ false
        → IsIndexed cs s.world
        → Outcome activated (ok cs, s)
    -- no chunks, and no call
    nothing : (s : Store W) → s.world ≡ before → Outcome activated (ok [], s)
    -- the indexing raised, or what comes before it
    broken : (e : Raised) (s : Store W) → IsBroken e s.world → Outcome activated (raise e, s)
    -- indexed, then the move of the alias raised
    refused :
        (cs : List Chunk) (indexed : W) (e : Raised) (s : Store W)
        → is_empty cs ≡ false
        → activated ≡ true
        → IsIndexed cs indexed
        → self.set_alias self.settings.collection_alias version indexed ≡ (raise e, s.world)
        → Outcome activated (raise e, s)

module _ {F W : Type 0} (self : OfflinePipeline F W) (version : Text) where
  -- How the indexing ends.
  abbrev Indexing : (before : W) → Result (List Chunk) × W → Type 0
  Indexing before (ok cs, w) = (is_empty cs ≡ false) × IsIndexed self version before cs w
  Indexing before (raise e, w) = IsBroken self version before e w

  embed_and_index-Indexing :
      (c : Chunk) (cs : List Chunk) (w : W) → Indexing w (embed_and_index self (c ∷ cs) w)
  unfolding embed_and_index
  embed_and_index-Indexing c cs w =
      let stamped = map (stamp self) (c ∷ cs) in
      and_then_ends (Indexing w) _ _ (λ e w1 r. unembedded stamped w1 r)
        (λ vectors w1 r.
          and_then_ends (Indexing w) _ _ (λ e w2 q. unstored stamped vectors w1 w2 r q)
            (λ u w2 q.
              and_then_ends (Indexing w) _ _ (λ e w3 p. unlisted stamped vectors w1 w2 w3 r q p)
                (λ u' w3 p. (
                  refl,
                  record {
                    vectors = vectors;
                    embedded = w1;
                    stored = w2;
                    embeds = r;
                    stores = q;
                    lists = p;
                  },
                ))))

  -- How a cutover ends.
  activate_ends :
      (P : Result Unit × Store W → Type 0) (s : Store W)
      → ((e : Raised) (s1 : Store W)
          → self.set_alias self.settings.collection_alias version s.world ≡ (raise e, s1.world)
          → P (raise e, s1))
      → ((s1 : Store W)
          → self.set_alias self.settings.collection_alias version s.world ≡ (ok tt, s1.world)
          → P (ok tt, s1))
      → P (activate self version s)
  unfolding activate on_world
  activate_ends P s h k =
      and_then_ends P _ _ (λ e s1 r. h e s1 (ap (λ out. (out.0, out.1.world)) r))
        (λ u s1 r. k _ (ap (λ out. (out.0, out.1.world)) r))

  finish_indexed :
      (activated : Bool) (before : W) (cs : List Chunk) (s : Store W)
      → is_empty cs ≡ false
      → IsIndexed self version before cs s.world
      → Outcome self version before activated (finish self version activated cs s)
  unfolding finish note and_then then_of
  finish_indexed false before cs s full indexed = held cs _ full refl indexed
  finish_indexed true before cs s full indexed =
      rw (finish, full)
        (activate_ends
          (λ out. Outcome self version before true (and_then out (λ u s1. (ok cs, s1))))
          (note self version (codes "built") (length cs) (some self.settings.chunker_version) s)
          (λ x s1 r. refused cs s.world x s1 full refl indexed r)
          (λ s1 r. published cs s.world s1 full refl indexed r))

  finish_empty :
      (activated : Bool) (s : Store W)
      → Outcome self version s.world activated (finish self version activated [] s)
  unfolding finish note
  finish_empty false s = nothing _ refl
  finish_empty true s = nothing _ refl

  index_chunks-Outcome :
      (activated : Bool) (cs : List Chunk) (s : Store W)
      → Outcome self version s.world activated (index_chunks self version activated cs s)
  unfolding index_chunks on_world
  index_chunks-Outcome activated [] s = finish_empty activated s
  index_chunks-Outcome activated (c ∷ cs) s =
      let ends = embed_and_index-Indexing c cs s.world in
      and_then_ends (Outcome self version s.world activated) _ _
        (λ e s1 r. broken e s1 (subst (Indexing s.world) (ap (λ out. (out.0, out.1.world)) r) ends))
        (λ stamped s1 r.
          let (full, indexed) =
            subst (Indexing s.world) (ap (λ out. (out.0, out.1.world)) r) ends in
          finish_indexed activated s.world stamped s1 full indexed)

module _ {F W : Type 0} (self : OfflinePipeline F W) where
  -- Build, then swap: a build calls the backends in one of these ways. It makes no call, and returns no chunks or raises;
  -- or a call of the indexing raises, and none follows; or at least one chunk is embedded and written to the vector
  -- store and then to the lexical index, and then either no move of the alias was asked for, and those chunks
  -- are returned, or the move of the alias to the version is the one further call: if it returns, those
  -- chunks are returned, and if it raises, so does the build.
  pub run-Outcome :
      (index_version : Option Text) (acl : Option AclTags) (activated : Bool) (s : Store W)
      → Outcome self
          (version_of self index_version)
          s.world
          activated
          (run self index_version acl activated s)
  unfolding run note
  run-Outcome index_version acl activated s =
      let version : Text = version_of self index_version in
      elim (Result-cases (prepare self version acl)) [
        | inr (x, e) ↦ rw (run, e) (broken x _ unread)
        | inl (cs, e) ↦
            rw (run, e)
              (index_chunks-Outcome self version activated cs
                (note self version (codes "building") 0 none s))
      ]
