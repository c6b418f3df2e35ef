-- ===== src/Schemas/Principal.antt =====
-- src/rag/schemas/principal.py. A `frozenset[str]` is a list of its elements.
use ai_rag.Prelude.{Text, List}

pub record Principal : Type 0 where
  pub subject : Text
  pub groups : List Text
  pub tenant : Text

pub record AclTags : Type 0 where
  pub tenant : Text
  pub allow_groups : List Text
  pub classification : Text
