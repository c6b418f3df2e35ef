-- ===== src/Schemas/Answer.antt =====
-- src/rag/schemas/source.py and answer.py, over a type `F` of floats. A `Source` carries its
-- metadata as text pairs.
use ai_rag.Prelude.{Text, List, Option, Bool, ℕ, ◌+◌, is_empty, if◌then◌else◌}
use ai_rag.Prelude.Number.{Float}
use ai_rag.Schemas.Principal.{AclTags}

pub data SourceKind : Type 0 where
  chunk web graph tool : SourceKind

pub record Source (F : Type 0) : Type 0 where
  pub kind : SourceKind
  pub ref : Text
  pub doc_id : Text
  pub title : Text
  pub quote : Text
  pub score : F
  pub url : Option Text
  pub acl : Option AclTags
  pub metadata : List (Text × Text)

pub record Citation (F : Type 0) : Type 0 where
  pub chunk_id : Text
  pub doc_id : Text
  pub quote : Text
  pub score : F
  pub kind : SourceKind
  pub ref : Text
  pub url : Option Text
  pub title : Text

pub record Usage (F : Type 0) : Type 0 where
  pub prompt_tokens : ℕ
  pub completion_tokens : ℕ
  pub total_tokens : ℕ
  pub cost_usd : F
  pub model : Text
  pub prompt_version : Text

-- `Usage(model=model, prompt_version=prompt_version)`
unfoldable pub blank_usage : {F : Type 0} ⦃fl : Float F⦄ → Text → Text → Usage F
blank_usage ⦃fl⦄ model prompt_version = record {
  prompt_tokens = 0;
  completion_tokens = 0;
  total_tokens = 0;
  cost_usd = fl.of_nat 0;
  model = model;
  prompt_version = prompt_version;
}

-- `Usage.__add__`
unfoldable pub add_usage : {F : Type 0} ⦃fl : Float F⦄ → Usage F → Usage F → Usage F
add_usage ⦃fl⦄ self other = record {
  prompt_tokens = self.prompt_tokens + other.prompt_tokens;
  completion_tokens = self.completion_tokens + other.completion_tokens;
  total_tokens = self.total_tokens + other.total_tokens;
  cost_usd = fl.add self.cost_usd other.cost_usd;
  model = if is_empty other.model then self.model else other.model;
  prompt_version =
      if is_empty other.prompt_version then self.prompt_version else other.prompt_version;
}

pub record Answer (F : Type 0) : Type 0 where
  pub text : Text
  pub citations : List (Citation F)
  pub refused : Bool
  pub refusal_reason : Option Text
  pub usage : Usage F
  pub trace_id : Text
  pub index_version : Text
  pub latency_ms : F
  pub cached : Bool
