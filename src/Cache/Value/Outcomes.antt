-- ===== src/Cache/Value/Outcomes.antt =====
-- What one attempt leaves behind (internal/cache/value.go), by the outcome that it reports.
use copilotd.Prelude.{
  ◌≡◌, refl, ap, sym, ◌∙◌, Bool-cases, ok_injective, equal_refl, true, false, List, [], ◌∷◌, ◌++◌,
  Option, none, some, ◌⊎◌, inl, inr, ℕ, Bytes, equal, equal_sound, Result, ok, err, arith,
}
use mathlib.Core.Option.{some-injective}
use copilotd.Cache.Value.{
  Cacheable, State, failure, Signal, done, tick, effective, install, after_fetch, after_peek,
  attempt, current, unchanged, to_floor, accept, start, floor_hash, validation, loop, run,
}

module _ {V C E : Type 0} (src : Cacheable V C E) where
  -- A failed attempt, and all that it may have changed.
  abbrev pub failure_of : ℕ → E → State V E → State V E
  failure_of now e s = record s { attempted = true; last_attempt = now; last_err = some e }

  accept-failed :
      (now : ℕ) (v : V) (version : Bytes) (o : Option E) (s : State V E) {e : E}
      → (accept src now v version o s).1 ≡ some e
      → (accept src now v version o s).0 ≡ failure_of now e s
  unfolding accept
  accept-failed now v version none s h = cc
  accept-failed now v version (some x) s h = ground arith

  after_fetch-failed :
      (now : ℕ) (r : Result E (V × Bytes)) (s : State V E) {e : E}
      → (after_fetch src now r s).1 ≡ some e
      → (after_fetch src now r s).0 ≡ failure_of now e s
  unfolding after_fetch install
  after_fetch-failed now (ok (v, version)) s h =
      ground (arith, accept-failed now v version (validation src v) s)
  after_fetch-failed now (err x) s h = ground arith

  start-failed :
      (ctx : C) (now : ℕ) (peek : Option (C → Result E Bytes)) (s : State V E) {e : E}
      → (start src ctx now peek s).1 ≡ some e
      → (start src ctx now peek s).0 ≡ failure_of now e s
  unfolding start after_peek
  start-failed ctx now none s h = after_fetch-failed now (src.fetch ctx) s h
  start-failed ctx now (some peek) s h = ground (arith, after_fetch-failed now (src.fetch ctx) s)

  -- An attempt that reports an error, from the version peek, the fetch or the validation, changes
  -- nothing but the record of the attempt; `Current` goes on serving the same value, with the
  -- source, version and content freshness that it had, and publishes the failure.
  pub attempt-failed :
      (ctx : C) (now : ℕ) (s : State V E) {e : E}
      → (attempt src ctx now s).1 ≡ some e
      → let t = (attempt src ctx now s).0 in
        (t ≡ failure_of now e s)
        × ((current src t).0 ≡ (current src s).0)
        × ((current src t).1 ≡ record (current src s).1 {
          last_attempt = some now;
          last_attempt_result = some failure;
        })
  unfolding attempt current
  attempt-failed ctx now s h =
      let e = start-failed ctx now src.version s h in
      (
        e,
        ap (λ t. effective src t.current_source t.value) e,
        ap (λ (t : State V E). (current src t).1) e,
      )

  -- What a content fetch leaves, whichever of the three critical sections has stored it.
  pub record IsFetched (now : ℕ) (v : V) (version : Bytes) (t : State V E) : Type 0 where
    pub version_kept : t.current_version ≡ version
    pub hash_kept : t.current_hash ≡ src.hash v
    pub succeeded_at : t.last_success ≡ now
    pub attempted_at : (t.attempted ≡ true) × (t.last_attempt ≡ now) × (t.last_err ≡ none)

  accept-IsFetched :
      (now : ℕ) (v : V) (version : Bytes) (o : Option E) (s : State V E)
      → (accept src now v version o s).1 ≡ none
      → IsFetched now v version (accept src now v version o s).0
  unfolding accept
  accept-IsFetched now v version none s h = record {
    version_kept = refl;
    hash_kept = refl;
    succeeded_at = refl;
    attempted_at = (refl, refl, refl);
  }
  accept-IsFetched now v version (some e) s h = cc

  install-IsFetched :
      (now : ℕ) (v : V) (version : Bytes) (s : State V E)
      → (install src now v version s).1 ≡ none
      → IsFetched now v version (install src now v version s).0
  unfolding install unchanged to_floor
  install-IsFetched now v version s h = ground (
    arith,
    equal_sound (src.hash v) s.current_hash,
    equal_sound (src.hash v) (floor_hash src),
    accept-IsFetched now v version (validation src v) s,
  )

  -- The recipe peeks, and the peek answers the version that is current.
  abbrev pub IsPeeked : C → State V E → Type 0
  IsPeeked ctx s =
      (peek : C → Result E Bytes) × (src.version ≡ some peek) × (peek ctx ≡ ok s.current_version)

  -- What a successful attempt has established: either the version peek found the current version
  -- and only the attempt is recorded, or it did not and the content was fetched.
  abbrev pub IsRefreshed : C → ℕ → State V E → State V E → Type 0
  IsRefreshed ctx now s t =
      (IsPeeked ctx s × (t ≡ record s { attempted = true; last_attempt = now; last_err = none }))
      ⊎ ((¬ IsPeeked ctx s)
          × ((v : V) × (version : Bytes) × (src.fetch ctx ≡ ok (v, version))
              × IsFetched now v version t))

  fetched_of_ok :
      (ctx : C) (now : ℕ) (r : Result E (V × Bytes)) (s : State V E)
      → ¬ IsPeeked ctx s
      → src.fetch ctx ≡ r
      → (after_fetch src now r s).1 ≡ none
      → IsRefreshed ctx now s (after_fetch src now r s).0
  unfolding after_fetch
  fetched_of_ok ctx now (ok (v, version)) s other e h =
      inr (other, (v, version, e, install-IsFetched now v version s h))
  fetched_of_ok ctx now (err x) s other e h = cc

  same_peek :
      (ctx : C) (s : State V E) (peek : C → Result E Bytes)
      → src.version ≡ some peek
      → IsPeeked ctx s
      → peek ctx ≡ ok s.current_version
  same_peek ctx s peek has (peek', has', answer) =
      ap (λ (f : C → Result E Bytes). f ctx) (some-injective _ _ (sym has ∙ has')) ∙ answer

  peeked_of_ok :
      (ctx : C) (now : ℕ) (peek : C → Result E Bytes) (r : Result E Bytes) (s : State V E)
      → src.version ≡ some peek
      → peek ctx ≡ r
      → (after_peek src ctx now r s).1 ≡ none
      → IsRefreshed ctx now s (after_peek src ctx now r s).0
  unfolding after_peek
  peeked_of_ok ctx now peek (err x) s has answer h = cc h
  peeked_of_ok ctx now peek (ok version) s has answer h =
      elim (Bool-cases (equal version s.current_version)) [
        | inl same ↦
            let current_version = answer ∙ ap ok (equal_sound version s.current_version same) in
            rw (same, IsRefreshed) (inl ((peek, has, current_version), refl))
        | inr differs ↦
            let unpeeked : ¬ IsPeeked ctx s = λ peeked.
              let version_same = ok_injective (sym answer ∙ same_peek ctx s peek has peeked) in
              cc (
                sym differs ∙ ap (λ v. equal v s.current_version) version_same,
                equal_refl s.current_version,
              ) in
            rw (differs, IsRefreshed)
              (fetched_of_ok ctx now (src.fetch ctx) s unpeeked refl
                (rw (differs, after_peek) at h))
      ]

  start-IsRefreshed :
      (ctx : C) (now : ℕ) (peek : Option (C → Result E Bytes)) (s : State V E)
      → src.version ≡ peek
      → (start src ctx now peek s).1 ≡ none
      → IsRefreshed ctx now s (start src ctx now peek s).0
  unfolding start
  start-IsRefreshed ctx now none s has h =
      fetched_of_ok ctx now (src.fetch ctx) s (λ peeked. cc (sym has ∙ peeked.1)) refl h
  start-IsRefreshed ctx now (some peek) s has h = peeked_of_ok ctx now peek (peek ctx) s has refl h

  -- An attempt that reports no error has either found the current version by the peek, and then
  -- records only the attempt, so that the content's last success does not advance; or the peek is
  -- absent or found another version, and it has fetched content whose hash and version are the stored ones from then on, with both the last
  -- attempt and the last success at the attempt's time.
  pub attempt-IsRefreshed :
      (ctx : C) (now : ℕ) (s : State V E)
      → (attempt src ctx now s).1 ≡ none
      → IsRefreshed ctx now s (attempt src ctx now s).0
  unfolding attempt
  attempt-IsRefreshed ctx now s h = start-IsRefreshed ctx now src.version s refl h

  loop-append_done :
      (before after : List (Signal C)) (s : State V E)
      → loop src (before ++ done ∷ after) s ≡ loop src before s
  unfolding loop
  loop-append_done [] after s = refl
  loop-append_done (done ∷ rest) after s = refl
  loop-append_done (tick ctx now true ∷ rest) after s = refl
  loop-append_done (tick ctx now false ∷ rest) after s =
      loop-append_done rest after (attempt src ctx now s).0

  loop-append_cancelled :
      (before after : List (Signal C)) (ctx : C) (now : ℕ) (s : State V E)
      → loop src (before ++ tick ctx now true ∷ after) s
        ≡ loop src (before ++ tick ctx now true ∷ []) s
  unfolding loop
  loop-append_cancelled [] after ctx now s = refl
  loop-append_cancelled (done ∷ rest) after ctx now s = refl
  loop-append_cancelled (tick c n true ∷ rest) after ctx now s = refl
  loop-append_cancelled (tick c n false ∷ rest) after ctx now s =
      loop-append_cancelled rest after ctx now (attempt src c n s).0

  -- A refresh loop attempts nothing more once its context is seen to have ended, be it by the
  -- select or by the check behind an attempt, whatever ticks are ready by then.
  pub run_ends :
      (before after : List (Signal C)) (ctx : C) (now : ℕ) (s : State V E)
      → (run src (before ++ done ∷ after) s ≡ run src before s)
        × (run src (before ++ tick ctx now true ∷ after) s
            ≡ run src (before ++ tick ctx now true ∷ []) s)
  unfolding run
  run_ends before after ctx now s =
      (rw (loop-append_done before after s), rw (loop-append_cancelled before after ctx now s))
