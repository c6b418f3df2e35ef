-- ===== src/Index/Registry/Active.antt =====
-- Which versions of src/rag/index_registry.py are active.
use ai_rag.Prelude.{
  Text, [], ◌∷◌, map, ◌≡◌, ◌≢◌, refl, sym, inl, inr, Bool, true, false, Option, none, some,
  if◌then◌else◌, codes, is_empty, text_eq, text_eq_iff, arith, Bool-cases, Option-cases,
}
use ai_rag.Prelude.Dict.{Dict, lookup, has, lookup-insert}
use ai_rag.Prelude.Result.{ok}
use ai_rag.Index.Registry.{
  IndexVersion, IndexRegistry, active_version, get, validated, save, record_version, with_status,
  activate,
}

-- The status that a cutover to `version` gives a body of the name.
unfoldable pub status_after : (version name : Text) → Text
status_after version name = if text_eq name version then codes "active" else codes "retired"

-- A body with its status replaced, where there is one.
unfoldable pub restated : Text → Option IndexVersion → Option IndexVersion
restated status none = none
restated status (some body) = some (record body { status = status })

lookup-restated :
    (version name : Text) (d : Dict IndexVersion)
    → lookup name (map (with_status version) d)
      ≡ restated (status_after version name) (lookup name d)
unfolding lookup with_status restated status_after
lookup-restated version name [] = refl
lookup-restated version name ((j, body) ∷ d) = elim (Bool-cases (text_eq j name)) [
  | inl e ↦ let same : j ≡ name = (text_eq_iff j name).0 e in rw (e, same) refl
  | inr e ↦ rw e (lookup-restated version name d)
]

-- Every body marked active is that of the active version.
abbrev pub IsConsistent : IndexRegistry → Type 0
IsConsistent self =
    (name : Text) (body : IndexVersion)
    → lookup name self.versions ≡ some body
    → body.status ≡ codes "active"
    → self.active ≡ some name

-- A registry after a cutover from another: `version` is the active one, its status says so, every other
-- version is retired, none is lost and nothing else of a version has changed.
pub record IsCutover (version : Text) (before after : IndexRegistry) : Type 0 where
  pub now : active_version after ≡ some version
  pub statuses :
      (name : Text) → get name after ≡ restated (status_after version name) (get name before)

-- What `activate` writes where the version is known and the file can be written.
flipped : Text → IndexRegistry → IndexRegistry
flipped version self = record {
  active = some version;
  versions = map (with_status version) self.versions;
}

activate-flipped :
    (version : Text) (self after : IndexRegistry)
    → activate true version self ≡ ok after
    → flipped version self ≡ after
unfolding activate save flipped
activate-flipped version self after h = elim (Bool-cases (has version self.versions)) [
  | inl e ↦ ground (arith, (rw (e, activate) at h))
  | inr e ↦ absurd (ground (arith, (rw (e, activate) at h)))
]

get-restated :
    (version name : Text) (self : IndexRegistry)
    → get name (flipped version self) ≡ restated (status_after version name) (get name self)
unfolding get validated restated flipped
get-restated version name self = elim (Option-cases (lookup name self.versions)) [
  | inl e ↦ rw (lookup-restated version name self.versions, get, e) refl
  | inr (b, e) ↦ rw (lookup-restated version name self.versions, get, e) refl
]

-- `activate` on a file that can be written returns only with a cutover to the version: it is the active
-- one, where its name is not empty, and no version besides it stays active.
pub activate-IsCutover :
    (version : Text) (self after : IndexRegistry)
    → is_empty version ≡ false
    → activate true version self ≡ ok after
    → IsCutover version self after
unfolding active_version flipped
activate-IsCutover version self after named h =
    let flip : flipped version self ≡ after = activate-flipped version self after h in
    rw (sym flip) (record {
      now = rw (named, active_version, flipped) refl;
      statuses = λ name. get-restated version name self;
    })

-- Only what was recorded can be activated.
pub activate-known :
    (w : Bool) (version : Text) (self after : IndexRegistry)
    → activate w version self ≡ ok after
    → has version self.versions ≡ true
unfolding activate
activate-known w version self after h = ground (arith, h)

flipped-IsConsistent : (version : Text) (self : IndexRegistry) → IsConsistent (flipped version self)
unfolding flipped restated status_after
flipped-IsConsistent version self name body found is_active =
    elim (Option-cases (lookup name self.versions)) [
      | inl e ↦
          absurd (ground (arith, (rw (lookup-restated version name self.versions, e) at found)))
      | inr (b, e) ↦ ground (
        arith,
        (rw (lookup-restated version name self.versions, e) at found),
        text_eq_iff name version,
      )
    ]

-- Whatever is activated, and whether or not the file can be written, every version that is marked active
-- is still the one that the registry names.
pub activate-IsConsistent :
    (w : Bool) (version : Text) (self after : IndexRegistry)
    → IsConsistent self
    → activate w version self ≡ ok after
    → IsConsistent after
unfolding activate save flipped
activate-IsConsistent true version self after sound h =
    let flip : flipped version self ≡ after = activate-flipped version self after h in
    rw (sym flip) (flipped-IsConsistent version self)
activate-IsConsistent false version self after sound h =
    let same : self ≡ after = ground (arith, h) in rw (sym same) sound

-- A record of a version that is not marked active keeps this.
pub record_version-IsConsistent :
    (w : Bool) (entry : IndexVersion) (self : IndexRegistry)
    → entry.status ≢ codes "active"
    → IsConsistent self
    → IsConsistent (record_version w entry self)
unfolding record_version save
record_version-IsConsistent false entry self inactive sound name body found is_active =
    sound name body found is_active
record_version-IsConsistent true entry self inactive sound name body found is_active =
    elim (Bool-cases (text_eq entry.version name)) [
      | inl e ↦
          let stored : entry ≡ body =
            ground
              (arith, (rw (lookup-insert entry.version name entry self.versions, e) at found)) in
          absurd (inactive (cc))
      | inr e ↦
          sound name body (rw (lookup-insert entry.version name entry self.versions, e) at found)
            is_active
    ]
