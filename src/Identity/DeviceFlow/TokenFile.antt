-- ===== src/Identity/DeviceFlow/TokenFile.antt =====
-- What a login stores.
use copilotd.Prelude.{
  List, [], ◌∷◌, Option, some, Bytes, ℤ, ◌≡◌, ◌≢◌, ap, ◌∙◌, arith, inl, inr, Bool-cases,
  Option-cases, Result-cases, Result, ok, err, ok_injective,
}
use copilotd.Identity.DeviceFlow.{
  DeviceCode, AccessToken, Reply, no_reply, reply, Poll, cancelled, polled, LoginError, Codec,
  token, verdict, answer, poll_from, poll_for_token, request_device_code, fetch_username, World,
  login, confirmed,
}
use copilotd.Identity.DeviceFlow.Polling.{Verdict-cases}

verdict_token :
    (interval : ℤ) (at : AccessToken) (value : Bytes)
    → verdict interval at ≡ token value
    → value ≢ []
unfolding verdict
verdict_token interval at value h = ground arith

module _ (codec : Codec) where
  answer_token :
      (interval : ℤ) (response : Reply) (value : Bytes)
      → answer codec interval response ≡ token value
      → value ≢ []
  unfolding answer
  answer_token interval no_reply value h = cc h
  answer_token interval (reply status body) value h =
      elim (Option-cases (codec.decode_access_token body)) [
        | inl d ↦ cc (rw (d, answer) at h)
        | inr (at, d) ↦ verdict_token interval at value (rw (d, answer) at h)
      ]

  poll_from_token :
      (interval : ℤ) (polls : List Poll) (value : Bytes)
      → (poll_from codec interval polls).0 ≡ ok value
      → value ≢ []
  unfolding poll_from
  poll_from_token interval [] value h = cc h
  poll_from_token interval (cancelled ∷ polls) value h = cc h
  poll_from_token interval (polled response ∷ polls) value h =
      elim (Verdict-cases (answer codec interval response)) [
        | inl (found, e) ↦
            answer_token interval response value
              (e ∙ ap token (ok_injective (rw (e, poll_from) at h)))
        | inr (inl (next, e)) ↦ poll_from_token next polls value (rw (e, poll_from) at h)
        | inr (inr (reason, e)) ↦ cc (rw (e, poll_from) at h)
      ]

  -- What became of a login: the file holds the token of the polls, which is not empty, and the user's
  -- name was read; or there is an error, and the file is as it was.
  pub data Ends (w : World) (file : Option Bytes)
      : Result LoginError Bytes × Option Bytes → Type 0 where
    stored :
        {dc : DeviceCode} {name value : Bytes}
        → request_device_code codec w.code_reply ≡ ok dc
        → (poll_for_token codec dc w.polls).0 ≡ ok value
        → fetch_username codec w.user_reply ≡ ok name
        → value ≢ []
        → Ends w file (ok value, some value)
    refused : (reason : LoginError) → Ends w file (err reason, file)

  confirmed-Ends :
      (w : World) (file : Option Bytes) (dc : DeviceCode)
      → request_device_code codec w.code_reply ≡ ok dc
      → Ends w file (confirmed codec w file (poll_for_token codec dc w.polls).0)
  unfolding confirmed poll_for_token
  confirmed-Ends w file dc h = elim (Result-cases (poll_for_token codec dc w.polls).0) [
    | inr (reason, e) ↦ rw (e, confirmed) (refused reason)
    | inl (value, e) ↦ elim (Result-cases (fetch_username codec w.user_reply)) [
      | inr (reason, f) ↦ rw (e, f, confirmed) (refused reason)
      | inl (name, f) ↦ elim (Bool-cases w.writable) [
        | inl g ↦ rw (e, f, g, confirmed) (stored h e f (poll_from_token _ w.polls value e))
        | inr g ↦ rw (e, f, g, confirmed) (refused LoginError.write_failed)
      ]
    ]
  ]

  -- Takes any answers and any token file. A login ends in one of two ways. It reads a device code, polls
  -- a token, which is not empty, reads the user's name and leaves the token in the file; or it returns
  -- an error and leaves the file as it was.
  pub login-Ends : (w : World) (file : Option Bytes) → Ends w file (login codec w file)
  unfolding login
  login-Ends w file = elim (Result-cases (request_device_code codec w.code_reply)) [
    | inl (dc, e) ↦ rw (e, login) (confirmed-Ends w file dc e)
    | inr (reason, e) ↦ rw (e, login) (refused reason)
  ]
