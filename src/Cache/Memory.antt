-- ===== src/Cache/Memory.antt =====
-- src/rag/cache/memory.py: the cache in memory, with a time to live. The time is an argument.
pub mod History
use ai_rag.Prelude.{
  ℕ, ◌==◌, Text, ◌≡◌, Bool, false, Option, none, some, arith, if◌then◌else◌, text_eq, text_eq_iff,
}
use ai_rag.Prelude.Number.{Float}
use ai_rag.Prelude.Dict.{Dict, lookup, insert, remove, lookup-insert, lookup-remove}

abbrev pub MemoryCache : Type 0 → Type 0
MemoryCache F = Dict (Text × Option F)

module _ {F : Type 0} ⦃fl : Float F⦄ where
  -- `expires is not None and time.time() > expires`
  unfoldable pub is_expired : (now : F) → Option F → Bool
  is_expired now none = false
  is_expired now (some expires) = fl.lt expires now

  -- The value, and the store after the call.
  unfoldable pub get : (key : Text) → (now : F) → MemoryCache F → Option Text × MemoryCache F
  get key now store = elim (lookup key store) [
    | none ↦ (none, store)
    | some (value, expires) ↦
        if is_expired now expires then (none, remove key store) else (some value, store)
  ]

  unfoldable pub expiry : Option ℕ → (now : F) → Option F
  expiry none now = none
  expiry (some ttl) now = if ttl == 0 then none else some (fl.add now (fl.of_nat ttl))

  unfoldable pub set :
      (key value : Text) → (ttl_seconds : Option ℕ) → (now : F) → MemoryCache F → MemoryCache F
  set key value ttl_seconds now store = insert key (value, expiry ttl_seconds now) store

  unfoldable pub delete : (key : Text) → MemoryCache F → MemoryCache F
  delete key store = remove key store
