-- ===== src/Cache/Value/Coherence.antt =====
-- What holds of a cached value (internal/cache/value.go) between two attempts.
use copilotd.Prelude.{
  ◌≡◌, ◌≢◌, refl, true, false, Bool-cases, List, [], ◌∷◌, Option, none, some, inl, inr, ℕ, Bytes,
  equal, ne_of_equal, ◌==◌, Result, ok, err,
}
use copilotd.Cache.Value.{
  Cacheable, State, Source, fallback, fetched, Signal, done, tick, new, floor_hash, effective,
  validation, unchanged, to_floor, accept, install, after_fetch, after_peek, start, attempt, prime,
  loop, run,
}

module _ {V C E : Type 0} (src : Cacheable V C E) where
  -- What a fetched value has passed to be stored.
  abbrev pub IsStored : Source → Option V → Type 0
  IsStored fallback v = Unit
  IsStored fetched none = ⊥
  IsStored fetched (some v) = (src.hash v ≢ floor_hash src) × (validation src v ≡ none)

  pub record IsCoherent (s : State V E) : Type 0 where
    pub hashed : src.hash (effective src s.current_source s.value) ≡ s.current_hash
    pub stored : IsStored s.current_source s.value

  new-IsCoherent : IsCoherent (new src)
  unfolding new effective floor_hash
  new-IsCoherent = record { hashed = refl; stored = tt }

  unchanged-IsCoherent :
      (now : ℕ) (version : Bytes) (s : State V E)
      → IsCoherent s
      → IsCoherent (unchanged src now version s)
  unfolding unchanged
  unchanged-IsCoherent now version s c = record { hashed = c.hashed; stored = c.stored }

  to_floor-IsCoherent :
      (now : ℕ) (version : Bytes) (s : State V E) → IsCoherent (to_floor src now version s)
  unfolding to_floor effective
  to_floor-IsCoherent now version s = record { hashed = refl; stored = tt }

  accept-IsCoherent :
      (now : ℕ) (v : V) (version : Bytes) (o : Option E) (s : State V E)
      → IsCoherent s
      → src.hash v ≢ floor_hash src
      → validation src v ≡ o
      → IsCoherent (accept src now v version o s).0
  unfolding accept effective
  accept-IsCoherent now v version none s c h e = record { hashed = refl; stored = (h, e) }
  accept-IsCoherent now v version (some x) s c h e = record { hashed = c.hashed; stored = c.stored }

  install-IsCoherent :
      (now : ℕ) (v : V) (version : Bytes) (s : State V E)
      → IsCoherent s
      → IsCoherent (install src now v version s).0
  unfolding install
  install-IsCoherent now v version s c = elim (Bool-cases (equal (src.hash v) s.current_hash)) [
    | inl same ↦ rw same (unchanged-IsCoherent now version s c)
    | inr other ↦ rw other (elim (Bool-cases (equal (src.hash v) (floor_hash src))) [
      | inl floor ↦ rw floor (to_floor-IsCoherent now version s)
      | inr above ↦ rw above (
          accept-IsCoherent now v version (validation src v) s c
            (ne_of_equal (src.hash v) (floor_hash src) above) refl)
    ])
  ]

  after_fetch-IsCoherent :
      (now : ℕ) (r : Result E (V × Bytes)) (s : State V E)
      → IsCoherent s
      → IsCoherent (after_fetch src now r s).0
  unfolding after_fetch
  after_fetch-IsCoherent now (ok (v, version)) s c = install-IsCoherent now v version s c
  after_fetch-IsCoherent now (err e) s c = record { hashed = c.hashed; stored = c.stored }

  after_peek-IsCoherent :
      (ctx : C) (now : ℕ) (r : Result E Bytes) (s : State V E)
      → IsCoherent s
      → IsCoherent (after_peek src ctx now r s).0
  unfolding after_peek
  after_peek-IsCoherent ctx now (err e) s c = record { hashed = c.hashed; stored = c.stored }
  after_peek-IsCoherent ctx now (ok version) s c =
      elim (Bool-cases (equal version s.current_version)) [
        | inl same ↦ rw same (record { hashed = c.hashed; stored = c.stored })
        | inr other ↦ rw other (after_fetch-IsCoherent now (src.fetch ctx) s c)
      ]

  start-IsCoherent :
      (ctx : C) (now : ℕ) (peek : Option (C → Result E Bytes)) (s : State V E)
      → IsCoherent s
      → IsCoherent (start src ctx now peek s).0
  unfolding start
  start-IsCoherent ctx now none s c = after_fetch-IsCoherent now (src.fetch ctx) s c
  start-IsCoherent ctx now (some peek) s c = after_peek-IsCoherent ctx now (peek ctx) s c

  attempt-IsCoherent :
      (ctx : C) (now : ℕ) (s : State V E) → IsCoherent s → IsCoherent (attempt src ctx now s).0
  unfolding attempt
  attempt-IsCoherent ctx now s c = start-IsCoherent ctx now src.version s c

  loop-IsCoherent :
      (signals : List (Signal C)) (s : State V E) → IsCoherent s → IsCoherent (loop src signals s)
  unfolding loop
  loop-IsCoherent [] s c = c
  loop-IsCoherent (done ∷ rest) s c = c
  loop-IsCoherent (tick ctx now true ∷ rest) s c = attempt-IsCoherent ctx now s c
  loop-IsCoherent (tick ctx now false ∷ rest) s c =
      loop-IsCoherent rest (attempt src ctx now s).0 (attempt-IsCoherent ctx now s c)

  -- Whatever the edges answer to the startup attempt and to the attempts of a run after it, the
  -- value served hashes to the stored hash, and it is the fallback or a fetched value that passed
  -- the recipe's validation and differs from the fallback in its hash.
  pub run-IsCoherent :
      (ctx : C) (now : ℕ) (signals : List (Signal C))
      → IsCoherent (run src signals (prime src ctx now (new src)).0)
  unfolding run prime
  run-IsCoherent ctx now signals = elim (Bool-cases (src.ttl == 0)) [
    | inl off ↦ rw off new-IsCoherent
    | inr on ↦ rw on (
        loop-IsCoherent signals (attempt src ctx now (new src)).0
          (attempt-IsCoherent ctx now (new src) new-IsCoherent))
  ]
