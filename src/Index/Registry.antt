-- ===== src/Index/Registry.antt =====
-- src/rag/index_registry.py: the registry of index versions. The YAML file is its parsed content; a
-- write to a file system that is read-only leaves it as it was.
pub mod Active
use ai_rag.Prelude.{
  ℕ, Text, List, [], ◌∷◌, map, Bool, true, false, Option, none, some, if◌then◌else◌, codes,
  is_empty, text_eq, text_lt,
}
use ai_rag.Prelude.Dict.{Dict, lookup, insert, has}
use ai_rag.Prelude.Result.{Result, ok, raise, key_error}
use ai_rag.Prelude.Sort.{sort_desc}

pub record IndexVersion : Type 0 where
  pub version : Text
  pub collection : Text
  pub alias : Text
  pub status : Text
  pub created_at : Text
  pub chunk_count : ℕ
  pub embedding_model : Option Text
  pub chunker_version : Option Text

-- The file: the active version and, by version, what `record` dumped. The version that a body
-- repeats is that of its key.
pub record IndexRegistry : Type 0 where
  pub active : Option Text
  pub versions : Dict IndexVersion

-- What `_load` gives where there is no file.
abbrev pub no_registry : IndexRegistry
no_registry = record { active = none; versions = [] }

-- `active_version`: an empty name is none.
unfoldable pub active_version : IndexRegistry → Option Text
active_version self = elim self.active [
  | none ↦ none
  | some name ↦ if is_empty name then none else some name
]

-- `IndexVersion.model_validate({"version": name, **body})`
unfoldable pub validated : Text → IndexVersion → IndexVersion
validated name body = record body { version = name }

unfoldable pub get : Text → IndexRegistry → Option IndexVersion
unfolding validated
get version self = elim (lookup version self.versions) [
  | none ↦ none
  | some body ↦ some (validated version body)
]

abbrev earlier_name : Text × IndexVersion → Text × IndexVersion → Bool
earlier_name a b = text_lt b.0 a.0

unfoldable pub list_versions : IndexRegistry → List IndexVersion
unfolding validated sort_desc
list_versions self = map (λ e. validated e.0 e.1) (sort_desc earlier_name self.versions)

-- `_save`
unfoldable pub save : (is_writable : Bool) → (content self : IndexRegistry) → IndexRegistry
save is_writable content self = if is_writable then content else self

-- `IndexRegistry.record`
unfoldable pub record_version : (is_writable : Bool) → IndexVersion → IndexRegistry → IndexRegistry
unfolding save
record_version is_writable entry self =
    save is_writable (record self { versions = insert entry.version entry self.versions }) self

unfoldable pub with_status : Text → Text × IndexVersion → Text × IndexVersion
with_status version (name, body) = (
  name,
  record body { status = if text_eq name version then codes "active" else codes "retired" },
)

unfoldable pub activate : (is_writable : Bool) → Text → IndexRegistry → Result IndexRegistry
unfolding save with_status
activate is_writable version self =
    if has version self.versions
    then ok (
        save is_writable
          (record { active = some version; versions = map (with_status version) self.versions })
          self)
    else raise (key_error (codes "cannot activate unknown index version"))
