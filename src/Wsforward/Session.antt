-- ===== src/Wsforward/Session.antt =====
-- internal/wsforward/session.go. A pump runs over a script: what each read gave and what the write of
-- its message, where there is one, would answer. The websocket library's errors and close codes are
-- parameters. The counts are natural numbers: the source's int64 does not wrap within a session.
pub mod Close
pub mod Delivery
use copilotd.Prelude.{
  ℕ, zero, suc, ◌+◌, ◌≤◌, ◌≡◌, List, [], ◌∷◌, Option, none, some, ℤ, pos, negsuc, ltb_ℤ, Bool, true,
  false, not, ◌&&◌, ◌||◌, if◌then◌else◌, Bytes, codes, length, equal_ℤ,
}
use copilotd.Shim.Chain.{Message, MessageKind, text, binary}

pub data Peer : Type 0 where
  client_peer : Peer
  upstream_peer : Peer

pub data Operation : Type 0 where
  read_operation : Operation
  write_operation : Operation
  transform_operation : Operation

pub data Terminal : Type 0 where
  client_closed : Terminal
  upstream_closed : Terminal
  session_error : Terminal

pub record Stats : Type 0 where
  pub messages : ℕ
  pub bytes : ℕ

-- The constants of the websocket library that the session uses.
pub record CloseCodes : Type 0 where
  pub normal_closure : ℤ
  pub going_away : ℤ
  pub no_status_rcvd : ℤ
  pub abnormal_closure : ℤ
  pub message_too_big : ℤ
  pub internal_error : ℤ
  pub tls_handshake : ℤ

-- What the session asks of an error: `websocket.CloseStatus`, `errors.As` to a `CloseError`, `errors.Is`.
pub record ErrorView (E : Type 0) : Type 0 where
  pub close_status : E → ℤ
  pub close_reason : E → Option Bytes
  pub is_message_too_big : E → Bool
  pub is_eof : E → Bool
  pub is_connection_reset : E → Bool
  pub is_broken_pipe : E → Bool

-- `pumpFailure`: no error where the value is the zero value.
pub record Failure (E : Type 0) : Type 0 where
  pub peer : Peer
  pub operation : Operation
  pub error : Option E

pub record SessionResult : Type 0 where
  pub client_to_upstream : Stats
  pub upstream_to_client : Stats
  pub close_code : ℤ
  pub terminal : Terminal

-- What ended the wait of `runSession`: a pump that failed, or the drain.
pub data Ending (E : Type 0) : Type 0 where
  pump_failed : Failure E → Ending E
  drained : Ending E

-- What a transform of a message did: it panicked, or it answered whether to emit the message it left.
pub data Transformed (S : Type 0) : Type 0 where
  panicked : Transformed S
  answered : Bool → Message → S → Transformed S

-- One turn of a pump: what the read gave, and what a write would answer, an error with whether the
-- write's deadline had passed.
pub data Turn (E : Type 0) : Type 0 where
  read_failed : E → Turn E
  message_read : Message → Option (E × Bool) → Turn E

-- A pump so far: what it wrote, its counts, and its failure once it has returned.
pub record Pumped (E : Type 0) : Type 0 where
  pub written : List Message
  pub stats : Stats
  pub failure : Option (Failure E)

counted : Message → Stats → Stats
counted m s = record { messages = s.messages + 1; bytes = s.bytes + length m.payload }

stopped : {E : Type 0} → Stats → Peer → Operation → E → Pumped E
stopped s p op e = record {
  written = [];
  stats = s;
  failure = some (record { peer = p; operation = op; error = some e });
}

wrote : {E : Type 0} → Message → Pumped E → Pumped E
wrote m r = record r { written = m ∷ r.written }

module _ {E S : Type 0} (transform_panic deadline_exceeded : E) (source destination : Peer) where
  -- `pump`: the transform, where there is one, with its state.
  unfoldable pub pump : Option (S → Message → Transformed S) → S → Stats → List (Turn E) → Pumped E
  unfolding counted stopped wrote
  pump transform s stats [] = record { written = []; stats = stats; failure = none }
  pump transform s stats (read_failed e ∷ turns) = stopped stats source read_operation e
  pump none s stats (message_read m none ∷ turns) = wrote m (pump none s (counted m stats) turns)
  pump none s stats (message_read m (some (e, late)) ∷ turns) =
      stopped stats destination write_operation (if late then deadline_exceeded else e)
  pump (some f) s stats (message_read m outcome ∷ turns) = elim (f s m) [
    | panicked ↦ stopped stats source transform_operation transform_panic
    | answered emit m' s' ↦ elim emit [
      | false ↦ pump (some f) s' stats turns
      | true ↦ elim outcome [
        | none ↦ wrote m' (pump (some f) s' (counted m' stats) turns)
        | some (e, late) ↦
            stopped stats destination write_operation (if late then deadline_exceeded else e)
      ]
    ]
  ]

unfoldable pub is_sendable_close_code : CloseCodes → ℤ → Bool
is_sendable_close_code cs code =
    not (equal_ℤ code (negsuc 0))
    && not (equal_ℤ code cs.no_status_rcvd)
    && not (equal_ℤ code cs.abnormal_closure)
    && not (equal_ℤ code cs.tls_handshake)

unfoldable pub abnormal_close_code : CloseCodes → ℤ → Bool
abnormal_close_code cs code =
    if equal_ℤ code cs.normal_closure || equal_ℤ code cs.going_away
    then false
    else (if not (ltb_ℤ code (pos 3000)) && not (ltb_ℤ (pos 4999) code) then false else true)

result_from : Stats → Stats → ℤ → Terminal → SessionResult
result_from out back code terminal = record {
  client_to_upstream = out;
  upstream_to_client = back;
  close_code = code;
  terminal = terminal;
}

zero_failure : {E : Type 0} → Failure E
zero_failure = record { peer = client_peer; operation = read_operation; error = none }

is : {E : Type 0} → (E → Bool) → Option E → Bool
is p none = false
is p (some e) = p e

is_client_read : {E : Type 0} → Failure E → Bool
is_client_read f = elim f.peer [
  | upstream_peer ↦ false
  | client_peer ↦ elim f.operation [ read_operation ↦ true | _ ↦ false ]
]

is_write : {E : Type 0} → Failure E → Bool
is_write f = elim f.operation [ write_operation ↦ true | _ ↦ false ]

closer : Peer → Terminal
closer client_peer = client_closed
closer upstream_peer = upstream_closed

module _ {E : Type 0} (v : ErrorView E) (cs : CloseCodes) where
  -- `websocket.CloseStatus` of a nil error is -1, and nothing is nil's chain.
  unfoldable pub status_of : Option E → ℤ
  status_of none = negsuc 0
  status_of (some e) = v.close_status e

  reason_of : Option E → Bytes
  reason_of none = []
  reason_of (some e) = elim (v.close_reason e) [ none ↦ [] | some reason ↦ reason ]

  unfoldable pub is_abrupt_client_disconnect : Failure E → Bool
  unfolding status_of is is_client_read
  is_abrupt_client_disconnect f =
      if not (is_client_read f) || not (equal_ℤ (status_of f.error) (negsuc 0))
      then false
      else is v.is_eof f.error || is v.is_connection_reset f.error || is v.is_broken_pipe f.error

  unfoldable pub terminal_close : Failure E → Bool → ℤ × Bytes
  unfolding status_of is reason_of
  terminal_close f shutdown =
      if shutdown
      then (cs.going_away, codes "going away")
      else (if is v.is_message_too_big f.error
          then (cs.message_too_big, codes "message too big")
          else (if is_abrupt_client_disconnect f
              then (cs.going_away, codes "client disconnected")
              else (if is_sendable_close_code cs (status_of f.error)
                  then (status_of f.error, reason_of f.error)
                  else (cs.internal_error, codes "internal error"))))

  unfoldable pub terminal_reason : Failure E → ℤ → Bool → Terminal
  unfolding status_of is_write closer
  terminal_reason f code shutdown =
      if shutdown
      then upstream_closed
      else (if is_write f && not (is_sendable_close_code cs (status_of f.error))
          then session_error
          else (if abnormal_close_code cs code then session_error else closer f.peer))

  closed_with : Stats → Stats → Failure E → Bool → Option (ℤ × Bytes) × SessionResult
  unfolding result_from
  closed_with out back f shutdown =
      let (code, reason) = terminal_close f shutdown in
      (some (code, reason), result_from out back code (terminal_reason f code shutdown))

  -- `runSession` from the end of its wait: the close frame sent to both peers, if any, and the result.
  unfoldable pub run_session : Stats → Stats → Ending E → Bool → Option (ℤ × Bytes) × SessionResult
  unfolding closed_with zero_failure result_from
  run_session out back ending base_ended =
      if base_ended
      then (none, result_from out back cs.abnormal_closure session_error)
      else (elim ending [
        | pump_failed f ↦ closed_with out back f false
        | drained ↦ closed_with out back zero_failure true
      ])
