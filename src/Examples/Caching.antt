-- ===== src/Examples/Caching.antt =====
-- A value whose content is the context's number (internal/cache/value.go).
use copilotd.Prelude.{
  ◌≡◌, refl, ℕ, ◌==◌, if◌then◌else◌, [], ◌∷◌, none, some, false, Bytes, codes, equal, Result, ok,
  err,
}
use copilotd.Cache.Value.{Cacheable, tick, new, attempt, prime, run, current, failure}
use copilotd.Cache.Value.Coherence.{IsCoherent, run-IsCoherent}
use copilotd.Cache.Value.Outcomes.{failure_of, attempt-failed, IsRefreshed, attempt-IsRefreshed}

abbrev fetch_of : ℕ → Result ℕ (Bytes × Bytes)
fetch_of n = if n == 7 then err 1 else ok (n ∷ [], n ∷ n ∷ [])

abbrev numbers : Cacheable Bytes ℕ ℕ
numbers = record {
  fallback_value = codes "floor";
  fallback_version = codes "0";
  ttl = 60;
  version = none;
  fetch = fetch_of;
  hash = λ v. v;
  validate = none;
  name = codes "numbers";
}

run-IsCoherent_example :
    IsCoherent numbers
      (run numbers (tick 4 9 false ∷ tick 7 10 false ∷ []) (prime numbers 3 8 (new numbers)).0)
run-IsCoherent_example = run-IsCoherent numbers 3 8 (tick 4 9 false ∷ tick 7 10 false ∷ [])

seven_fails : (attempt numbers 7 10 (new numbers)).1 ≡ some 1
unfolding attempt new
seven_fails = refl

attempt-failed_example :
    let t = (attempt numbers 7 10 (new numbers)).0 in
    (t ≡ failure_of numbers 10 1 (new numbers))
    × ((current numbers t).0 ≡ (current numbers (new numbers)).0)
    × ((current numbers t).1 ≡ record (current numbers (new numbers)).1 {
      last_attempt = some 10;
      last_attempt_result = some failure;
    })
attempt-failed_example = attempt-failed numbers 7 10 (new numbers) seven_fails

four_succeeds : (attempt numbers 4 10 (new numbers)).1 ≡ none
unfolding attempt new equal
four_succeeds = refl

attempt-IsRefreshed_example :
    IsRefreshed numbers 4 10 (new numbers) (attempt numbers 4 10 (new numbers)).0
attempt-IsRefreshed_example = attempt-IsRefreshed numbers 4 10 (new numbers) four_succeeds
