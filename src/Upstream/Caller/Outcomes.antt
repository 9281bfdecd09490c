-- ===== src/Upstream/Caller/Outcomes.antt =====
-- What a buffered call ends with: a body within its bound, or one failure that is logged once.
use copilotd.Prelude.{
  ℕ, Bool, true, false, if◌then◌else◌, not, ◌||◌, ◌&&◌, [], ◌∷◌, ◌++◌, Option, none, some, Bytes,
  Result, ok, err, ◌≡◌, refl, inl, inr, Bool-cases,
}
use copilotd.Upstream.Caller.{
  failed_call, correlated_id, correlate, logged, request_of, Kind, Errors, Context, Failure, Log,
  warn, debug, holds, failure, classify_by_context, classify, read_bounded, read_body, failed,
  and_then, Call, Request, Response, World, request_url, prepare, with_credential, checked,
  answered, settled, Credential, execute, buffered,
}

-- A context that was cancelled and reached no deadline.
abbrev pub is_departed : {E : Type 0} → Errors E → Context E → Bool
is_departed errors c =
    holds errors.is_canceled c.ended
    && not (holds errors.is_deadline c.ended || holds errors.is_deadline c.cause)

abbrev is_left : {E : Type 0} → Errors E → Option (Context E) → Bool
is_left errors none = false
is_left errors (some c) = is_departed errors c

-- What a result adds to a log, and the context in which it may say that the client is gone.
abbrev pub Accounted :
    {E A : Type 0} → Errors E → Option (Context E) → Log E → Result (Failure E) A × Log E → Type 0
Accounted errors c log (ok a, after) = after ≡ log
Accounted errors c log (err f, after) =
    (after ≡ log ++ failed_call (if f.client_gone then debug else warn) f.cause ∷ [])
    × (f.client_gone ≡ true → is_left errors c ≡ true)

-- Where a buffered call came to: the context that its last step has, if that step asks one, and the
-- id that was correlated by then.
pub record Reached (E : Type 0) : Type 0 where
  pub context : Option (Context E)
  pub id : Option Bytes

module _ {E : Type 0} (w : World E) (call : Call) where
  abbrev after_exchange : Result E (Response E) → Reached E
  after_exchange (err e) = record { context = some w.at_exchange; id = none }
  after_exchange (ok r) = record {
    context = some w.at_body;
    id = correlated_id w.request_id r.request_id;
  }

  abbrev after_check : Credential → Option E → Reached E
  after_check c (some e) = record { context = none; id = none }
  after_check c none = after_exchange (w.exchange (request_of w call c))

  abbrev after_credential : Result E Credential → Reached E
  after_credential (err e) = record { context = some w.at_credential; id = none }
  after_credential (ok c) = after_check c (w.check call.method (request_url c call))

  abbrev pub reached : Reached E
  reached = after_credential w.credential

module _ {E : Type 0} (errors : Errors E) where
  classify_by_context-Accounted :
      (A : Type 0) (c : Context E) (k : Kind) (message : Bytes) (e : E) (log : Log E)
      → Accounted {A = A} errors
          (some c)
          log
          (failed (classify_by_context errors c k message e log))
  unfolding classify_by_context failure
  classify_by_context-Accounted A c k message e log =
      elim (Bool-cases (holds errors.is_deadline c.ended || holds errors.is_deadline c.cause)) [
        | inl late ↦ rw late (refl, (λ h. cc h))
        | inr live ↦ elim (Bool-cases (holds errors.is_canceled c.ended)) [
          | inl gone ↦ rw (live, gone) (refl, (λ h. refl))
          | inr stays ↦ rw (live, stays) (refl, (λ h. cc h))
        ]
      ]

  classify-Accounted :
      (A : Type 0) (c : Context E) (e : E) (log : Log E)
      → Accounted {A = A} errors (some c) log (failed (classify errors c e log))
  unfolding classify failure
  classify-Accounted A c e log = elim (Bool-cases (errors.is_deadline e)) [
    | inl late ↦ rw late (refl, (λ h. cc h))
    | inr other ↦ rw other (classify_by_context-Accounted A c _ _ e log)
  ]

  settled-Accounted :
      (c : Context E) (log : Log E) (read : Result (Failure E) Bytes)
      → Accounted errors (some c) log (settled errors c log read)
  unfolding failure
  settled-Accounted c log (ok contents) = refl
  settled-Accounted c log (err f) = elim (Bool-cases (errors.is_too_large f.cause)) [
    | inl large ↦ rw large (refl, (λ h. cc h))
    | inr small ↦ rw small (classify_by_context-Accounted Bytes c f.kind f.message f.cause log)
  ]

  -- A last step that cannot fail.
  map-Accounted :
      {A B : Type 0} (c : Option (Context E)) (log : Log E) (first : Result (Failure E) A × Log E)
      (f : A → B)
      → Accounted errors c log first
      → Accounted errors c log (and_then first (λ a after. (ok (f a), after)))
  map-Accounted c log (ok a, after) f h = h
  map-Accounted c log (err e, after) f h = h

  module _ (max : ℕ) (w : World E) (call : Call) (log : Log E) where
    abbrev read_response :
        Response E × Option Bytes → Log E → Result (Failure E) (ℕ × Bytes × Option Bytes) × Log E
    read_response got log' =
        and_then (read_body errors max w.at_body got.0.body log')
          (λ contents log''. (ok (got.0.status, contents, got.1), log''))

    exchange-Accounted :
        (x : Result E (Response E))
        → Accounted errors
            (after_exchange w call x).context
            (logged (after_exchange w call x).id log)
            (and_then (answered errors w log x) read_response)
    unfolding correlate read_body
    exchange-Accounted (err e) = classify-Accounted (ℕ × Bytes × Option Bytes) w.at_exchange e log
    exchange-Accounted (ok r) =
        map-Accounted (some w.at_body) _
          (settled errors w.at_body _ (read_bounded errors r.body max)) _
          (settled-Accounted w.at_body _ (read_bounded errors r.body max))

    abbrev exchange_request :
        Request → Log E → Result (Failure E) (Response E × Option Bytes) × Log E
    exchange_request request log' = answered errors w log' (w.exchange request)

    check-Accounted :
        (c : Credential) (o : Option E)
        → Accounted errors
            (after_check w call c o).context
            (logged (after_check w call c o).id log)
            (and_then (and_then (checked w call c log o) exchange_request) read_response)
    unfolding failure
    check-Accounted c (some e) = (refl, (λ h. cc h))
    check-Accounted c none = exchange-Accounted (w.exchange (request_of w call c))

    credential-Accounted :
        (o : Result E Credential)
        → Accounted errors
            (after_credential w call o).context
            (logged (after_credential w call o).id log)
            (and_then
              (and_then (with_credential errors w call log o) exchange_request)
              read_response)
    credential-Accounted (err e) =
        classify_by_context-Accounted (ℕ × Bytes × Option Bytes) w.at_credential _ _ e log
    credential-Accounted (ok c) = check-Accounted c (w.check call.method (request_url c call))

-- Takes any log. A buffered call whose response is correlated adds the record of that to the log. Besides,
-- one that returns a body logs nothing; one that fails logs its failure once, last and with its cause:
-- as a debug record where the client is gone, and else as a warning. It says that the client is gone
-- only where the context of the step that failed was cancelled and had reached no deadline.
pub buffered-Accounted :
    {E : Type 0} (errors : Errors E) (max : ℕ) (w : World E) (call : Call) (log : Log E)
    → Accounted errors
        (reached w call).context
        (logged (reached w call).id log)
        (buffered errors max w call log)
unfolding buffered execute prepare
buffered-Accounted errors max w call log = credential-Accounted errors max w call log w.credential
