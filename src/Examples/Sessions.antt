-- ===== src/Examples/Sessions.antt =====
-- A session whose upstream fails, and pumps of two messages (internal/wsforward/session.go).
use copilotd.Prelude.{◌≡◌, refl, ℕ, some, pos, false, codes, ◌==◌}
use copilotd.Wsforward.Session.{
  CloseCodes, ErrorView, Failure, Stats, pump_failed, client_peer, upstream_peer, read_operation,
  client_closed, run_session, terminal_close, terminal_reason, is_abrupt_client_disconnect,
  is_sendable_close_code, abnormal_close_code,
}
use copilotd.Wsforward.Session.Close.{
  IsRfc6455, IsUnreserved, run_session_sendable, run_session_client_closed,
}

abbrev rfc : CloseCodes
rfc = record {
  normal_closure = pos 1000;
  going_away = pos 1001;
  no_status_rcvd = pos 1005;
  abnormal_closure = pos 1006;
  message_too_big = pos 1009;
  internal_error = pos 1011;
  tls_handshake = pos 1015;
}

rfc-IsRfc6455 : IsRfc6455 rfc
rfc-IsRfc6455 = record {
  normal = refl;
  away = refl;
  no_status = refl;
  abnormal = refl;
  too_big = refl;
  internal = refl;
  tls = refl;
}

-- An error is a close code.
abbrev codes_only : ErrorView ℕ
codes_only = record {
  close_status = λ e. pos e;
  close_reason = λ e. some (codes "bye");
  is_message_too_big = λ e. e == 9;
  is_eof = λ e. false;
  is_connection_reset = λ e. false;
  is_broken_pipe = λ e. false;
}

abbrev counts : Stats
counts = record { messages = 2; bytes = 6 }

abbrev reserved : Failure ℕ
reserved = record { peer = upstream_peer; operation = read_operation; error = some 1006 }

abbrev goodbye : Failure ℕ
goodbye = record { peer = client_peer; operation = read_operation; error = some 1000 }

reserved_close :
    (run_session codes_only rfc counts counts (pump_failed reserved) false).0
    ≡ some (pos 1011, codes "internal error")
unfolding run_session terminal_close is_abrupt_client_disconnect is_sendable_close_code
reserved_close = refl

run_session_sendable_example :
    IsUnreserved (pos 1011)
    × ((run_session codes_only rfc counts counts (pump_failed reserved) false).1.close_code
        ≡ pos 1011)
run_session_sendable_example =
    run_session_sendable codes_only rfc counts counts (pump_failed reserved) false (pos 1011)
      (codes "internal error") rfc-IsRfc6455 reserved_close

goodbye_client :
    (run_session codes_only rfc counts counts (pump_failed goodbye) false).1.terminal
    ≡ client_closed
unfolding run_session terminal_reason abnormal_close_code terminal_close is_abrupt_client_disconnect
    is_sendable_close_code
goodbye_client = refl

run_session_client_closed_example :
    (false ≡ false)
    × (abnormal_close_code rfc
          (run_session codes_only rfc counts counts (pump_failed goodbye) false).1.close_code
        ≡ false)
    × ((f : Failure ℕ) × (pump_failed goodbye ≡ pump_failed f) × (f.peer ≡ client_peer))
run_session_client_closed_example =
    run_session_client_closed codes_only rfc counts counts (pump_failed goodbye) false
      goodbye_client
