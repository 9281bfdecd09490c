-- ===== src/Cache/Value.antt =====
-- internal/cache/value.go: `Cacheable`, `Value` and its methods. `attempt` holds attemptMu for its whole length and writes the fields in
-- one critical section of `mu` on each path, so an attempt is one step from state to state.
-- A context is a value of `C`, an error one of `E`; `now` is what the injected clock returns to the
-- attempt (every path reads it once), and 0 is Go's zero time.
pub mod Coherence
pub mod Outcomes
use copilotd.Prelude.{
  ℕ, zero, suc, Bool, true, false, List, [], ◌∷◌, Option, none, some, Bytes, equal, ◌==◌, Result,
  ok, err, if◌then◌else◌,
}

pub data Source : Type 0 where
  fallback fetched : Source

pub data AttemptResult : Type 0 where
  success failure : AttemptResult

-- The static recipe, and `ttl` in nanoseconds: a negative one is 0 here, since only `TTL <= 0` is tested.
--  `version` is nil where the source has no cheap version peek.
pub record Cacheable (V C E : Type 0) : Type 0 where
  pub fallback_value : V
  pub fallback_version : Bytes
  pub ttl : ℕ
  pub version : Option (C → Result E Bytes)
  pub fetch : C → Result E (V × Bytes)
  pub hash : V → Bytes
  pub validate : Option (V → Option E)
  pub name : Bytes

pub record Status : Type 0 where
  pub name : Bytes
  pub source : Source
  pub version : Bytes
  pub last_success : Option ℕ
  pub last_attempt : Option ℕ
  pub last_attempt_result : Option AttemptResult

-- The mutable part of a `Value`. Where the source is `fallback`, `value` is not read: `none` is the
-- zero V that stands there.
pub record State (V E : Type 0) : Type 0 where
  pub value : Option V
  pub current_hash : Bytes
  pub current_source : Source
  pub current_version : Bytes
  pub attempted : Bool
  pub last_attempt : ℕ
  pub last_err : Option E
  pub last_success : ℕ

-- A `*time.Time` that is nil where the time is zero.
abbrev pub time_pointer : ℕ → Option ℕ
time_pointer zero = none
time_pointer (suc t) = some (suc t)

abbrev pub attempt_result : {E : Type 0} → Option E → AttemptResult
attempt_result none = success
attempt_result (some e) = failure

module _ {V C E : Type 0} (src : Cacheable V C E) where
  -- `floorHash` is computed once by `New`.
  unfoldable pub floor_hash : Bytes
  floor_hash = src.hash src.fallback_value

  unfoldable pub new : State V E
  unfolding floor_hash
  new = record {
    value = none;
    current_hash = floor_hash;
    current_source = fallback;
    current_version = src.fallback_version;
    attempted = false;
    last_attempt = 0;
    last_err = none;
    last_success = 0;
  }

  -- The value that `Current` returns: the recipe's fallback, or what the last fetch stored.
  unfoldable pub effective : Source → Option V → V
  effective fallback v = src.fallback_value
  effective fetched none = src.fallback_value
  effective fetched (some v) = v

  unfoldable pub current : State V E → V × Status
  unfolding effective
  current s = (
    effective s.current_source s.value,
    record {
      name = src.name;
      source = s.current_source;
      version = s.current_version;
      last_success = time_pointer s.last_success;
      last_attempt = if s.attempted then some s.last_attempt else none;
      last_attempt_result = if s.attempted then some (attempt_result s.last_err) else none;
    },
  )

  record_attempt : ℕ → Option E → State V E → State V E
  record_attempt at e s = record s { attempted = true; last_attempt = at; last_err = e }

  unfoldable pub failed : ℕ → E → State V E → State V E × Option E
  unfolding record_attempt
  failed now e s = (record_attempt now (some e) s, some e)

  -- The three critical sections in which a content fetch succeeds.
  unchanged : ℕ → Bytes → State V E → State V E
  unfolding record_attempt
  unchanged now version s = record (record_attempt now none s) {
    current_version = version;
    last_success = now;
  }

  to_floor : ℕ → Bytes → State V E → State V E
  unfolding record_attempt floor_hash
  to_floor now version s = record (record_attempt now none s) {
    value = none;
    current_hash = floor_hash;
    current_source = fallback;
    current_version = version;
    last_success = now;
  }

  replaced : ℕ → V → Bytes → State V E → State V E
  unfolding record_attempt
  replaced now v version s = record (record_attempt now none s) {
    value = some v;
    current_hash = src.hash v;
    current_source = fetched;
    current_version = version;
    last_success = now;
  }

  -- `Validate` where the recipe has one.
  unfoldable pub validation : V → Option E
  validation v = elim src.validate [ none ↦ none | some check ↦ check v ]

  accept : ℕ → V → Bytes → Option E → State V E → State V E × Option E
  unfolding failed replaced
  accept now v version none s = (replaced now v version s, none)
  accept now v version (some e) s = failed now e s

  -- From `hash := v.src.Hash(value)` on.
  install : ℕ → V → Bytes → State V E → State V E × Option E
  unfolding unchanged to_floor accept validation floor_hash
  install now v version s =
      if equal (src.hash v) s.current_hash
      then (unchanged now version s, none)
      else if equal (src.hash v) floor_hash
      then (to_floor now version s, none)
      else accept now v version (validation v) s

  unfoldable pub after_fetch : ℕ → Result E (V × Bytes) → State V E → State V E × Option E
  unfolding failed install
  after_fetch now (ok (v, version)) s = install now v version s
  after_fetch now (err e) s = failed now e s

  -- What the version peek decides: it fails, it finds the version that is current, or it has the
  -- content fetched.
  unfoldable pub after_peek : C → ℕ → Result E Bytes → State V E → State V E × Option E
  unfolding failed record_attempt after_fetch
  after_peek ctx now (err e) s = failed now e s
  after_peek ctx now (ok version) s =
      if equal version s.current_version
      then (record_attempt now none s, none)
      else after_fetch now (src.fetch ctx) s

  start : C → ℕ → Option (C → Result E Bytes) → State V E → State V E × Option E
  unfolding after_peek after_fetch
  start ctx now none s = after_fetch now (src.fetch ctx) s
  start ctx now (some peek) s = after_peek ctx now (peek ctx) s

  unfoldable pub attempt : C → ℕ → State V E → State V E × Option E
  unfolding start
  attempt ctx now s = start ctx now src.version s

  -- `Registry.Prime` calls this once for each value; a value with no TTL is never refreshed.
  unfoldable pub prime : C → ℕ → State V E → State V E × Option E
  unfolding attempt
  prime ctx now s = if src.ttl == 0 then (s, none) else attempt ctx now s

-- What the `select` of `Run` receives: the context's end, or a tick. A tick brings what the edge
-- looks like to the attempt that it starts, the time, and whether the run's context has ended by
-- the time that attempt returns.
pub data Signal (C : Type 0) : Type 0 where
  done : Signal C
  tick : C → ℕ → Bool → Signal C

module _ {V C E : Type 0} (src : Cacheable V C E) where
  loop : List (Signal C) → State V E → State V E
  unfolding attempt
  loop [] s = s
  loop (done ∷ rest) s = s
  loop (tick ctx now true ∷ rest) s = (attempt src ctx now s).0
  loop (tick ctx now false ∷ rest) s = loop rest (attempt src ctx now s).0

  -- The list is what the select receives until the run is looked at.
  unfoldable pub run : List (Signal C) → State V E → State V E
  unfolding loop
  run signals s = if src.ttl == 0 then s else loop signals s
