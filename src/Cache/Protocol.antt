-- ===== src/Cache/Protocol.antt =====
-- src/rag/cache/base.py: what the callers use of a cache, over a world that holds its contents.
use ai_rag.Prelude.{ℕ, Text, Option}

pub record Cache (W : Type 0) : Type 0 where
  pub get : Text → W → Option Text × W
  pub set : Text → Text → (ttl_seconds : Option ℕ) → W → W
