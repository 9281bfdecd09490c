-- ===== src/Identity/DeviceFlow.antt =====
-- internal/identity/deviceflow.go: the login device flow. What GitHub answers is a value of its own, the
-- polls' answers in the order of the polls; `Codec` is encoding/json's reading of the three bodies.
-- Durations are nanoseconds in an int64, whose wrap-around is written out.
pub mod Polling
pub mod TokenFile
use copilotd.Prelude.{
  ℕ, suc, ◌+◌, ◌-◌, ◌*◌, ◌%◌, ◌^◌, Bool, true, false, not, ◌||◌, ◌&&◌, List, [], ◌∷◌, ◌++◌, Option,
  none, some, Bytes, codes, equal, ltb, leb, ◌==◌, ℤ, pos, negsuc, ltb_ℤ, Result, ok, err, ◌>>=◌,
  if◌then◌else◌,
}

-- An int64 from its value modulo 2 ^ 64.
abbrev pub of_residue : ℕ → ℤ
of_residue r = if ltb r (2 ^ 63) then pos r else negsuc (2 ^ 64 - r - 1)

-- `time.Duration(n) * time.Second`.
unfoldable pub seconds : ℤ → ℤ
seconds (pos n) = of_residue ((n * 10 ^ 9) % 2 ^ 64)
seconds (negsuc n) = of_residue ((2 ^ 64 - ((suc n * 10 ^ 9) % 2 ^ 64)) % 2 ^ 64)

-- `minPollInterval` and `slowDownIncrement`.
abbrev pub five_seconds : ℕ
five_seconds = 5 * 10 ^ 9

-- `interval += slowDownIncrement`.
unfoldable pub increased : ℤ → ℤ
increased (pos n) = of_residue ((n + five_seconds) % 2 ^ 64)
increased (negsuc n) =
    if ltb n five_seconds then pos (five_seconds - n - 1) else negsuc (n - five_seconds)

pub record DeviceCode : Type 0 where
  pub device_code : Bytes
  pub user_code : Bytes
  pub verification_uri : Bytes
  pub interval : ℤ

pub record AccessToken : Type 0 where
  pub access_token : Bytes
  pub error : Bytes
  pub error_description : Bytes
  pub interval : ℤ

-- One request: no response, or its status and body.
pub data Reply : Type 0 where
  no_reply : Reply
  reply : ℕ → Bytes → Reply

-- One round of polling: the context ends while it sleeps, or the poll is made.
pub data Poll : Type 0 where
  cancelled : Poll
  polled : Reply → Poll

pub data LoginError : Type 0 where
  request_failed bad_status undecodable missing_fields context_done expired denied : LoginError
  authorization_failed : Bytes → LoginError
  missing_login write_failed : LoginError
  -- The answers given end while the code is still polling.
  still_polling : LoginError

pub record Codec : Type 0 where
  pub decode_device_code : Bytes → Option DeviceCode
  pub decode_access_token : Bytes → Option AccessToken
  pub decode_login : Bytes → Option Bytes

abbrev is_empty : Bytes → Bool
is_empty [] = true
is_empty (c ∷ rest) = false

-- `describeTokenError`.
unfoldable pub describe_token_error : AccessToken → Bytes
describe_token_error at =
    if not (is_empty at.error_description)
    then at.error ++ codes " (" ++ at.error_description ++ codes ")"
    else if not (is_empty at.error)
    then at.error
    else codes "no access token and no error in response"

-- The interval after a `slow_down`.
unfoldable pub slowed : ℤ → ℤ → ℤ
unfolding increased seconds
slowed interval asked =
    let next = increased interval in if ltb_ℤ next (seconds asked) then seconds asked else next

unfoldable pub first_interval : DeviceCode → ℤ
unfolding seconds
first_interval dc =
    if ltb_ℤ (seconds dc.interval) (pos five_seconds) then pos five_seconds else seconds dc.interval

-- What a decoded answer leads to: a token, another round, or an error.
pub data Verdict : Type 0 where
  token : Bytes → Verdict
  again : ℤ → Verdict
  failed : LoginError → Verdict

unfoldable pub verdict : ℤ → AccessToken → Verdict
unfolding equal slowed describe_token_error
verdict interval at =
    if not (is_empty at.access_token)
    then token at.access_token
    else if equal at.error (codes "authorization_pending")
    then again interval
    else if equal at.error (codes "slow_down")
    then again (slowed interval at.interval)
    else if equal at.error (codes "expired_token")
    then failed expired
    else if equal at.error (codes "access_denied")
    then failed denied
    else failed (authorization_failed (describe_token_error at))

abbrev ok_status : ℕ → Bool
ok_status status = status == 200

-- What a login meets: the three kinds of answers, and whether the token file can be written.
pub record World : Type 0 where
  pub code_reply : Reply
  pub polls : List Poll
  pub user_reply : Reply
  pub writable : Bool

module _ (codec : Codec) where
  abbrev decoded : {A : Type 0} → Option A → Result LoginError A
  decoded none = err undecodable
  decoded (some value) = ok value

  abbrev with_fields : DeviceCode → Result LoginError DeviceCode
  with_fields dc =
      if is_empty dc.device_code || is_empty dc.user_code || is_empty dc.verification_uri
      then err missing_fields
      else ok dc

  -- `requestDeviceCode`.
  unfoldable pub request_device_code : Reply → Result LoginError DeviceCode
  request_device_code no_reply = err request_failed
  request_device_code (reply status body) =
      if ok_status status
      then decoded (codec.decode_device_code body) >>= with_fields
      else err bad_status

  -- A poll's answer; its status is not looked at.
  unfoldable pub answer : ℤ → Reply → Verdict
  unfolding verdict
  answer interval no_reply = failed request_failed
  answer interval (reply status body) = elim (codec.decode_access_token body) [
    | none ↦ failed undecodable
    | some at ↦ verdict interval at
  ]

  -- The loop of `pollForToken`: its result, and the intervals slept.
  unfoldable pub poll_from : ℤ → List Poll → Result LoginError Bytes × List ℤ
  unfolding answer
  poll_from interval [] = (err still_polling, [])
  poll_from interval (cancelled ∷ polls) = (err context_done, interval ∷ [])
  poll_from interval (polled response ∷ polls) = elim (answer interval response) [
    | token value ↦ (ok value, interval ∷ [])
    | again next ↦ let later = poll_from next polls in (later.0, interval ∷ later.1)
    | failed reason ↦ (err reason, interval ∷ [])
  ]

  -- `pollForToken`.
  unfoldable pub poll_for_token : DeviceCode → List Poll → Result LoginError Bytes × List ℤ
  unfolding poll_from first_interval
  poll_for_token dc polls = poll_from (first_interval dc) polls

  abbrev with_login : Bytes → Result LoginError Bytes
  with_login name = if is_empty name then err missing_login else ok name

  -- `fetchUsername`.
  unfoldable pub fetch_username : Reply → Result LoginError Bytes
  fetch_username no_reply = err request_failed
  fetch_username (reply status body) =
      if ok_status status then decoded (codec.decode_login body) >>= with_login else err bad_status

  abbrev pub write_token : Bool → Bytes → Option Bytes → Result LoginError Bytes × Option Bytes
  write_token true value file = (ok value, some value)
  write_token false value file = (err write_failed, file)

  unfoldable pub confirmed :
      World → Option Bytes → Result LoginError Bytes → Result LoginError Bytes × Option Bytes
  unfolding fetch_username
  confirmed w file (err reason) = (err reason, file)
  confirmed w file (ok value) = elim (fetch_username w.user_reply) [
    | err reason ↦ (err reason, file)
    | ok name ↦ write_token w.writable value file
  ]

  -- `Login`: the token that it stores, or the error; and the token file after it.
  unfoldable pub login : World → Option Bytes → Result LoginError Bytes × Option Bytes
  unfolding request_device_code poll_for_token confirmed
  login w file = elim (request_device_code w.code_reply) [
    | err reason ↦ (err reason, file)
    | ok dc ↦ confirmed w file (poll_for_token dc w.polls).0
  ]
