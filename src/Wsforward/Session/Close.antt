-- ===== src/Wsforward/Session/Close.antt =====
-- How a session of internal/wsforward/session.go ends: the close frame and the reason it reports.
use copilotd.Prelude.{
  ◌≡◌, ◌≢◌, refl, ap, negsuc, inl, inr, some, ℤ, pos, Bool, true, false, not, ◌&&◌, Bool-cases,
  Bytes,
}
use copilotd.Wsforward.Session.{
  Stats, CloseCodes, ErrorView, Failure, Ending, pump_failed, drained, client_closed, client_peer,
  upstream_peer, Peer, is_sendable_close_code, abnormal_close_code, terminal_close, terminal_reason,
  run_session, status_of, is_abrupt_client_disconnect, closed_with, zero_failure, result_from, is,
  closer, is_write,
}
use mathlib.Core.Path.{subst}
use mathlib.Core.Option.{some-injective}

-- The numbers of RFC 6455, section 7.4.1.
pub record IsRfc6455 (cs : CloseCodes) : Type 0 where
  pub normal : cs.normal_closure ≡ pos 1000
  pub away : cs.going_away ≡ pos 1001
  pub no_status : cs.no_status_rcvd ≡ pos 1005
  pub abnormal : cs.abnormal_closure ≡ pos 1006
  pub too_big : cs.message_too_big ≡ pos 1009
  pub internal : cs.internal_error ≡ pos 1011
  pub tls : cs.tls_handshake ≡ pos 1015

-- None of the codes that a frame must not carry, nor the one for no close status.
abbrev pub IsUnreserved : ℤ → Type 0
IsUnreserved code = (code ≢ negsuc 0) × (code ≢ pos 1005) × (code ≢ pos 1006) × (code ≢ pos 1015)

sendable-IsUnreserved :
    (cs : CloseCodes) (code : ℤ)
    → IsRfc6455 cs
    → is_sendable_close_code cs code ≡ true
    → IsUnreserved code
unfolding is_sendable_close_code
sendable-IsUnreserved cs code r h =
    let numbered = rw (is_sendable_close_code, r.no_status, r.abnormal, r.tls) at h in
    (
      (λ e. cc (rw e at numbered)),
      (λ e. cc (rw e at numbered)),
      (λ e. cc (rw e at numbered)),
      (λ e. cc (rw e at numbered)),
    )

module _ {E : Type 0} (v : ErrorView E) (cs : CloseCodes) where
  sendable_constants :
      IsRfc6455 cs
      → (is_sendable_close_code cs cs.going_away ≡ true)
        × (is_sendable_close_code cs cs.message_too_big ≡ true)
        × (is_sendable_close_code cs cs.internal_error ≡ true)
  unfolding is_sendable_close_code
  sendable_constants r = (
    rw (r.away, r.no_status, r.abnormal, r.tls) refl,
    rw (r.too_big, r.no_status, r.abnormal, r.tls) refl,
    rw (r.internal, r.no_status, r.abnormal, r.tls) refl,
  )

  terminal_close-sendable :
      (f : Failure E) (shutdown : Bool)
      → IsRfc6455 cs
      → is_sendable_close_code cs (terminal_close v cs f shutdown).0 ≡ true
  unfolding terminal_close
  terminal_close-sendable f true r = (sendable_constants r).0
  terminal_close-sendable f false r = elim (Bool-cases (is v.is_message_too_big f.error)) [
    | inl e ↦ rw e (sendable_constants r).1
    | inr e ↦ rw e (elim (Bool-cases (is_abrupt_client_disconnect v cs f)) [
      | inl a ↦ rw a (sendable_constants r).0
      | inr a ↦ rw a (elim (Bool-cases (is_sendable_close_code cs (status_of v cs f.error))) [
        | inl s ↦ rw s s
        | inr s ↦ rw s (sendable_constants r).2
      ])
    ])
  ]

  closed_sendable :
      (out back : Stats) (f : Failure E) (shutdown : Bool) (code : ℤ) (reason : Bytes)
      → IsRfc6455 cs
      → (closed_with v cs out back f shutdown).0 ≡ some (code, reason)
      → (is_sendable_close_code cs code ≡ true)
        × ((closed_with v cs out back f shutdown).1.close_code ≡ code)
  unfolding closed_with result_from
  closed_sendable out back f shutdown code reason r h =
      let same = ap (λ x. x.0) (some-injective _ _ h) in
      (
        subst (λ x. is_sendable_close_code cs x ≡ true) same (terminal_close-sendable f shutdown r),
        same,
      )

  sent_only :
      (code : ℤ) (P : Type 0)
      → IsRfc6455 cs
      → (is_sendable_close_code cs code ≡ true) × P
      → IsUnreserved code × P
  sent_only code P r (sendable, rest) = (sendable-IsUnreserved cs code r sendable, rest)

  -- With the numbers of RFC 6455: a session that sends a close frame sends neither -1, which stands for
  -- an error with no close status, nor 1005, 1006 or 1015, which no frame may carry, whatever the
  -- failure carried, and reports the code that it sent.
  pub run_session_sendable :
      (out back : Stats) (ending : Ending E) (base_ended : Bool) (code : ℤ) (reason : Bytes)
      → IsRfc6455 cs
      → (run_session v cs out back ending base_ended).0 ≡ some (code, reason)
      → IsUnreserved code × ((run_session v cs out back ending base_ended).1.close_code ≡ code)
  unfolding run_session
  run_session_sendable out back ending true code reason r h = cc h
  run_session_sendable out back (pump_failed f) false code reason r h =
      sent_only code _ r (closed_sendable out back f false code reason r h)
  run_session_sendable out back drained false code reason r h =
      sent_only code _ r (closed_sendable out back zero_failure true code reason r h)

  client_closer : (p : Peer) → closer p ≡ client_closed → p ≡ client_peer
  unfolding closer
  client_closer client_peer h = refl
  client_closer upstream_peer h = cc h

  client_reason :
      (f : Failure E) (code : ℤ)
      → terminal_reason v cs f code false ≡ client_closed
      → (f.peer ≡ client_peer) × (abnormal_close_code cs code ≡ false)
  unfolding terminal_reason
  client_reason f code h =
      elim (Bool-cases (is_write f && not (is_sendable_close_code cs (status_of v cs f.error)))) [
        | inl e ↦ cc (rw (e, terminal_reason) at h)
        | inr e ↦ elim (Bool-cases (abnormal_close_code cs code)) [
          | inl a ↦ cc (rw (e, a, terminal_reason) at h)
          | inr a ↦ (client_closer f.peer (rw (e, a, terminal_reason) at h), a)
        ]
      ]

  -- A session is reported as closed by the client only where the pump that failed did so at the client,
  -- the base context had not ended, there was no drain, and the close code is a normal one or one of
  -- the application's.
  pub run_session_client_closed :
      (out back : Stats) (ending : Ending E) (base_ended : Bool)
      → (run_session v cs out back ending base_ended).1.terminal ≡ client_closed
      → (base_ended ≡ false)
        × (abnormal_close_code cs (run_session v cs out back ending base_ended).1.close_code
            ≡ false)
        × ((f : Failure E) × (ending ≡ pump_failed f) × (f.peer ≡ client_peer))
  unfolding run_session closed_with result_from terminal_reason
  run_session_client_closed out back ending true h = cc h
  run_session_client_closed out back drained false h = cc h
  run_session_client_closed out back (pump_failed f) false h =
      let (peer, normal) = client_reason f (terminal_close v cs f false).0 h in
      (refl, normal, (f, refl, peer))
