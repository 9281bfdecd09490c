-- ===== src/Shim/Watchdog.antt =====
-- internal/shim/monitor.go: the watchdog of one transport direction. The state mutex makes each of
-- these functions one step; a publication is two, as it is written outside that mutex: `publishing` is
-- the crossing whose writer holds `publishMu`, `ending` the one that `finish` has still to write. The
-- log has its newest entry first. Times are nanoseconds of one clock.
pub mod Paired
use copilotd.Prelude.{
  ℕ, suc, ◌-◌, Bool, true, false, not, ◌||◌, List, [], ◌∷◌, Option, none, some, Bytes, ltb,
  if◌then◌else◌, ◌≡◌, ◌≢◌,
}

pub data HookState : Type 0 where
  in_flight returned panicked : HookState

pub record Publication : Type 0 where
  pub shim : Bytes
  pub hook : Bytes
  pub phase : HookState
  pub elapsed : ℕ

pub record Watchdog : Type 0 where
  pub active : Bool
  pub crossed : Bool
  pub started : ℕ
  pub shim : Bytes
  pub hook : Bytes
  pub publishing : Option Publication
  pub ending : Option Publication
  pub log : List Publication
  pub count : ℕ

-- `NewWatchdog`, for a threshold above zero.
abbrev pub new_watchdog : Watchdog
new_watchdog = record {
  active = false;
  crossed = false;
  started = 0;
  shim = [];
  hook = [];
  publishing = none;
  ending = none;
  log = [];
  count = 0;
}

abbrev pub publication : HookState → ℕ → Watchdog → Publication
publication phase now w = record {
  shim = w.shim;
  hook = w.hook;
  phase = phase;
  elapsed = now - w.started;
}

-- `begin`; the Boolean is its result.
unfoldable pub begin : Bytes → Bytes → ℕ → Watchdog → Watchdog × Bool
begin shim hook now w = if w.active then (w, false) else (
  record w { active = true; crossed = false; started = now; shim = shim; hook = hook },
  true,
)

-- `publishCrossing` up to the release of the state mutex, at a time of the callback.
unfoldable pub claim : ℕ → ℕ → Watchdog → Watchdog
claim threshold now w =
    if not w.active || w.crossed
    then w
    else if ltb (now - w.started) threshold
    then w
    else record w { crossed = true; publishing = some (publication in_flight now w) }

-- The rest of it: the log line, and the recorder's increment.
unfoldable pub publish : Watchdog → Watchdog
publish w = elim w.publishing [
  | none ↦ w
  | some p ↦ record w { publishing = none; log = p ∷ w.log; count = suc w.count }
]

-- `finish` up to the release of the state mutex.
unfoldable pub finish : HookState → ℕ → Watchdog → Watchdog
finish phase now w =
    if not w.active
    then w
    else if not w.crossed
    then record w { active = false }
    else record w { active = false; ending = some (publication phase now w) }

-- The rest of it.
unfoldable pub write_ending : Watchdog → Watchdog
write_ending w = elim w.ending [ none ↦ w | some p ↦ record w { ending = none; log = p ∷ w.log } ]

abbrev pub abandon : Watchdog → Watchdog
abandon w = record w { active = false }

-- The steps that goroutines can interleave within invocations; `publishMu` is free wherever it is
-- taken.
pub data Step (threshold : ℕ) : Watchdog → Watchdog → Type 0 where
  claims : {w : Watchdog} (now : ℕ) → w.publishing ≡ none → Step threshold w (claim threshold now w)
  publishes : {w : Watchdog} → Step threshold w (publish w)
  finishes :
      {w : Watchdog} (phase : HookState) (now : ℕ)
      → phase ≢ in_flight
      → Step threshold w (finish phase now w)
  writes : {w : Watchdog} → w.publishing ≡ none → Step threshold w (write_ending w)
  abandons : {w : Watchdog} → Step threshold w (abandon w)

-- What a number of invocations can lead to. One direction has one invocation at a time, so a new one
-- begins only when the last `finish` has written.
pub data Reachable (threshold : ℕ) : ℕ → Watchdog → Type 0 where
  start : Reachable threshold 0 new_watchdog
  begins :
      {n : ℕ} {w : Watchdog} (shim hook : Bytes) (now : ℕ)
      → Reachable threshold n w
      → w.ending ≡ none
      → Reachable threshold (suc n) (begin shim hook now w).0
  next :
      {n : ℕ} {w w' : Watchdog}
      → Reachable threshold n w
      → Step threshold w w'
      → Reachable threshold n w'
