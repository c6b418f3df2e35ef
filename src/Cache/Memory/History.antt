-- ===== src/Cache/Memory/History.antt =====
-- What src/rag/cache/memory.py gives after any calls, against a reading of the calls alone.
use ai_rag.Prelude.{
  ℕ, ◌==◌, ◌≡◌, refl, sym, ◌∙◌, Text, List, [], ◌∷◌, Bool, true, false, Option, none, some, arith,
  inl, inr, Bool-cases, Option-cases, if◌then◌else◌, text_eq, text_eq_iff,
}
use ai_rag.Prelude.Number.{Float, IsAtMost}
use ai_rag.Prelude.Dict.{lookup, lookup-insert, lookup-remove}
use ai_rag.Cache.Memory.{MemoryCache, is_expired, expiry, get, set, delete}

-- A call, with the time it is made at where the call reads the clock.
pub data Event (F : Type 0) : Type 0 where
  got : (key : Text) → (now : F) → Event F
  put : (key value : Text) → (ttl_seconds : Option ℕ) → (now : F) → Event F
  deleted : (key : Text) → Event F

module _ {F : Type 0} ⦃fl : Float F⦄ where
  -- The store after the calls, the last one first.
  unfoldable pub after : List (Event F) → MemoryCache F
  after [] = []
  after (got key now ∷ events) = (get key now (after events)).1
  after (put key value ttl now ∷ events) = set key value ttl now (after events)
  after (deleted key ∷ events) = delete key (after events)

  -- Whether a value of a time to live, written at a time, is still good at another: always without
  -- a time to live or with none, else as long as the clock is not past their sum.
  unfoldable pub is_good : (ttl : Option ℕ) → (written now : F) → Bool
  is_good none written now = true
  is_good (some ttl) written now =
      if ttl == 0 then true else if fl.lt (fl.add written (fl.of_nat ttl)) now then false else true

  -- The value of the last write of the key, if no delete came after it and it is still good.
  unfoldable pub last_written : (key : Text) → (now : F) → List (Event F) → Option Text
  last_written key now [] = none
  last_written key now (got other at ∷ events) = last_written key now events
  last_written key now (put other value ttl at ∷ events) =
      let earlier = last_written key now events in
      if text_eq other key then (if is_good ttl at now then some value else none) else earlier
  last_written key now (deleted other ∷ events) =
      let earlier = last_written key now events in if text_eq other key then none else earlier

  -- No read was made at a later time than this.
  abbrev pub ReadBy : (now : F) → List (Event F) → Type 0
  ReadBy now [] = Unit
  ReadBy now (got key at ∷ events) = IsAtMost at now × ReadBy now events
  ReadBy now (put key value ttl at ∷ events) = ReadBy now events
  ReadBy now (deleted key ∷ events) = ReadBy now events

  is_expired-expiry :
      (ttl : Option ℕ) (written now : F)
      → (if is_expired now (expiry ttl written) then false else true) ≡ is_good ttl written now
  unfolding is_expired expiry is_good
  is_expired-expiry none written now = refl
  is_expired-expiry (some ttl) written now = ground arith

  -- What has expired at a time has expired at every later one.
  is_expired_later :
      (at now : F) (expires : Option F)
      → IsAtMost at now
      → is_expired at expires ≡ true
      → is_expired now expires ≡ true
  unfolding is_expired
  is_expired_later at now none h e = absurd (ground (arith, e))
  is_expired_later at now (some expires) h e = elim (Bool-cases (fl.lt expires now)) [
    | inl k ↦ k
    | inr k ↦
        let still : fl.lt expires at ≡ false = fl.ge_trans expires now at k h in
        absurd (ground (arith, still, e))
  ]

  -- The value a key gives.
  value_at : (now : F) → Option (Text × Option F) → Option Text
  value_at now none = none
  value_at now (some (value, expires)) = if is_expired now expires then none else some value

  get-value_at :
      (key : Text) (now : F) (store : MemoryCache F)
      → (get key now store).0 ≡ value_at now (lookup key store)
  unfolding get value_at
  get-value_at key now store = ground arith

  put-value_at :
      (key other value : Text) (ttl : Option ℕ) (at now : F) (store : MemoryCache F)
      → value_at now (lookup key (set other value ttl at store)) ≡ (
          if text_eq other key
          then if is_good ttl at now then some value else none
          else value_at now (lookup key store))
  unfolding set value_at
  put-value_at key other value ttl at now store =
      let stored = lookup-insert other key (value, expiry ttl at) store in
      let lasts = is_expired-expiry ttl at now in
      elim (Bool-cases (text_eq other key)) [
        | inl e ↦ rw (stored, e, sym lasts) (ground arith)
        | inr e ↦ rw (stored, e) refl
      ]

  deleted-value_at :
      (key other : Text) (now : F) (store : MemoryCache F)
      → value_at now (lookup key (delete other store))
        ≡ (if text_eq other key then none else value_at now (lookup key store))
  unfolding delete value_at
  deleted-value_at key other now store = elim (Bool-cases (text_eq other key)) [
    | inl e ↦ rw (lookup-remove other key store, e) refl
    | inr e ↦ rw (lookup-remove other key store, e) refl
  ]

  -- A read that drops an expired entry changes nothing for a later read.
  got-value_at :
      (key other : Text) (at now : F) (store : MemoryCache F)
      → IsAtMost at now
      → value_at now (lookup key (get other at store).1) ≡ value_at now (lookup key store)
  unfolding get value_at
  got-value_at key other at now store h = elim (Option-cases (lookup other store)) [
    | inl e ↦ rw (get, e) refl
    | inr ((value, expires), e) ↦ elim (Bool-cases (is_expired at expires)) [
      | inr k ↦ rw (get, e, k) refl
      | inl k ↦ elim (Bool-cases (text_eq other key)) [
        | inr n ↦ rw (get, e, k, lookup-remove other key store, n) refl
        | inl n ↦
            let same : other ≡ key = (text_eq_iff other key).0 n in
            let found : lookup key store ≡ some (value, expires) = rw (sym same) e in
            rw
              (
                get,
                e,
                k,
                lookup-remove other key store,
                n,
                found,
                is_expired_later at now expires h k,
              )
              refl
      ]
    ]
  ]

  value_at-last_written :
      (key : Text) (now : F) (events : List (Event F))
      → ReadBy now events
      → value_at now (lookup key (after events)) ≡ last_written key now events
  unfolding after last_written value_at lookup
  value_at-last_written key now [] h = refl
  value_at-last_written key now (got other at ∷ events) h =
      got-value_at key other at now (after events) h.0 ∙ value_at-last_written key now events h.1
  value_at-last_written key now (put other value ttl at ∷ events) h =
      rw
        (
          put-value_at key other value ttl at now (after events),
          value_at-last_written key now events h,
        )
        refl
  value_at-last_written key now (deleted other ∷ events) h =
      rw (deleted-value_at key other now (after events), value_at-last_written key now events h)
        refl

  -- After any calls on an empty cache, of which no read was made at a later time than now, a key gives the value of
  -- the last write of it, if no delete of it came after and its time to live, counted from the write, has not passed
  -- (a write without one, or with 0, lasts); otherwise it gives nothing.
  pub get-after :
      (key : Text) (now : F) (events : List (Event F))
      → ReadBy now events
      → (get key now (after events)).0 ≡ last_written key now events
  get-after key now events h =
      get-value_at key now (after events) ∙ value_at-last_written key now events h
