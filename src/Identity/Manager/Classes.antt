-- ===== src/Identity/Manager/Classes.antt =====
-- How internal/identity/manager.go classifies exchanges and bounds the startup mint.
use copilotd.Prelude.{
  ℕ, zero, suc, ◌+◌, ◌≤◌, ◌≡◌, ◌↔◌, ◌⊎◌, inl, inr, arith, Option, none, some, err, true, false,
  ◌==◌, Bool-cases, Option-cases, Bytes, [], equal, ==_iff,
}
use copilotd.Identity.Manager.{
  exhausted, Library, Reply, not_built, transport_failed, responded, ExchangeError,
  ExchangeResponse, Manager, Attempt, exchange, read_token, accepted, failure, startup_from,
  startup_mint, mint, normalize_copilot_origin,
}

-- A failure worth another attempt: of the transport, or a status that promises no more than a delay.
abbrev pub IsRetryable : Reply → Type 0
IsRetryable not_built = ⊥
IsRetryable transport_failed = Unit
IsRetryable (responded status body) = (status ≡ 200) ⊎ (status ≡ 429) ⊎ (500 ≤ status)

-- A status that refuses the account.
abbrev pub IsDenied : Reply → Type 0
IsDenied (responded status body) = (status ≡ 401) ⊎ (status ≡ 403) ⊎ (status ≡ 404)
IsDenied _ = ⊥

-- What an exchange that failed reports of itself.
pub record IsClassified (reply : Reply) (e : ExchangeError) : Type 0 where
  pub retryable : (e.transient ≡ true) ↔ IsRetryable reply
  pub denied : (e.auth_class ≡ true) ↔ IsDenied reply

read_token_error :
    (lib : Library) (o : Option ExchangeResponse) (e : ExchangeError)
    → read_token lib o ≡ err e
    → e ≡ record { transient = true; auth_class = false; status = 200 }
unfolding read_token accepted failure
read_token_error lib none e h = cc h
read_token_error lib (some parsed) e h =
    elim (Bool-cases (equal (lib.trim_space parsed.token) [])) [
      | inl f ↦ cc (rw (f, read_token) at h)
      | inr f ↦ elim (Option-cases (normalize_copilot_origin lib parsed.endpoints_api)) [
        | inl g ↦ cc (rw (f, g, read_token) at h)
        | inr (base, g) ↦ cc (rw (f, g, read_token) at h)
      ]
    ]

IsClassified-ok :
    (body : Bytes) (status : ℕ) (e : ExchangeError)
    → status ≡ 200
    → e ≡ record { transient = true; auth_class = false; status = 200 }
    → IsClassified (responded status body) e
IsClassified-ok body status e h f =
    rw f (record { retryable = ground arith; denied = ground arith })

-- A failed exchange is transient exactly where the transport failed or the status is 200 (its body could
-- not be used), 429 or at least 500, and of the auth class exactly where the status is 401, 403 or 404.
pub exchange-IsClassified :
    (lib : Library) (reply : Reply) (e : ExchangeError)
    → exchange lib reply ≡ err e
    → IsClassified reply e
unfolding exchange failure
exchange-IsClassified lib not_built e h = record { retryable = ground arith; denied = ground arith }
exchange-IsClassified lib transport_failed e h = record {
  retryable = ground arith;
  denied = ground arith;
}
exchange-IsClassified lib (responded status body) e h = elim (Bool-cases (status == 200)) [
  | inl f ↦
      IsClassified-ok body status e ((==_iff status 200).0 f)
        (read_token_error lib (lib.unmarshal body) e (rw (f, exchange) at h))
  | inr f ↦ record { retryable = ground arith; denied = ground arith }
]

module _ {H : Type 0} (lib : Library) (headers : H) where
  startup_from_bound :
      (attempts : ℕ → Attempt) (k left : ℕ) (m : Manager)
      → (startup_from lib headers attempts k left m).1 ≤ k + left
  unfolding startup_from
  startup_from_bound attempts k zero m = omega arith
  startup_from_bound attempts k (suc left) m = ground (
    arith,
    startup_from_bound attempts (k + 1) left
        (mint lib headers (attempts k).now (attempts k).reply (attempts k).caller_left m).1,
  )

  -- The startup mint makes at most one attempt more than its retries.
  pub startup_mint_bound :
      (attempts : ℕ → Attempt) (m : Manager)
      → (startup_mint lib headers attempts m).1 ≤ m.startup_retries + 1
  unfolding startup_mint
  startup_mint_bound attempts m =
      omega (arith, startup_from_bound attempts 0 (m.startup_retries + 1) m)

  startup_from_exhausted :
      (attempts : ℕ → Attempt) (k left : ℕ) (m : Manager)
      → (startup_from lib headers attempts k left m).0 ≡ exhausted
      → (startup_from lib headers attempts k left m).1 ≡ k + left
  unfolding startup_from
  startup_from_exhausted attempts k zero m h = omega arith
  startup_from_exhausted attempts k (suc left) m h = ground (
    arith,
    startup_from_exhausted attempts (k + 1) left
        (mint lib headers (attempts k).now (attempts k).reply (attempts k).caller_left m).1,
  )

  -- A startup mint that gives up for want of attempts has made all of them: its retries and one more.
  pub startup_mint_exhausted :
      (attempts : ℕ → Attempt) (m : Manager)
      → (startup_mint lib headers attempts m).0 ≡ exhausted
      → (startup_mint lib headers attempts m).1 ≡ m.startup_retries + 1
  unfolding startup_mint
  startup_mint_exhausted attempts m h =
      omega (arith, startup_from_exhausted attempts 0 (m.startup_retries + 1) m h)
