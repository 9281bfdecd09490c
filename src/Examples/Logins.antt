-- ===== src/Examples/Logins.antt =====
-- A login that is slowed down once (internal/identity/deviceflow.go).
use copilotd.Prelude.{
  ◌≡◌, refl, ◌*◌, ◌^◌, List, [], ◌∷◌, Option, none, some, true, codes, equal, pos, arith,
  if◌then◌else◌, All,
}
use mathlib.Core.Option.{some-injective}
use mathlib.Core.Path.{subst}
use copilotd.Identity.DeviceFlow.{
  DeviceCode, AccessToken, reply, Poll, polled, Codec, World, login, poll_for_token, seconds,
  five_seconds,
}
use copilotd.Identity.DeviceFlow.Polling.{Paced, IsModest, IsModestPoll, poll_for_token-Paced}
use copilotd.Identity.DeviceFlow.TokenFile.{Ends, login-Ends}

abbrev code : DeviceCode
code = record {
  device_code = codes "d";
  user_code = codes "u";
  verification_uri = codes "v";
  interval = pos 1;
}

abbrev slow_down : AccessToken
slow_down = record {
  access_token = [];
  error = codes "slow_down";
  error_description = [];
  interval = pos 12;
}

abbrev authorized : AccessToken
authorized = record {
  access_token = codes "gho";
  error = [];
  error_description = [];
  interval = pos 0;
}

abbrev codec : Codec
codec = record {
  decode_device_code = λ body. some code;
  decode_access_token =
      λ body. if equal body (codes "slow") then some slow_down else some authorized;
  decode_login = λ body. some (codes "octocat");
}

abbrev polls : List Poll
polls = polled (reply 400 (codes "slow")) ∷ polled (reply 200 (codes "done")) ∷ []

abbrev world : World
world = record {
  code_reply = reply 200 [];
  polls = polls;
  user_reply = reply 200 [];
  writable = true;
}

slow_down-IsModest : IsModest (seconds slow_down.interval)
unfolding seconds
slow_down-IsModest = refl

code-IsModest : IsModest (seconds code.interval)
unfolding seconds
code-IsModest = refl

answered-IsModest :
    (answered at : AccessToken)
    → IsModest (seconds answered.interval)
    → Path (Option AccessToken) (some answered) (some at)
    → IsModest (seconds at.interval)
answered-IsModest answered at h e =
    subst (λ t. IsModest (seconds (AccessToken.interval t))) (some-injective _ _ e) h

polls-IsModest : All (IsModestPoll codec) polls
unfolding seconds equal
polls-IsModest = (
  λ at e. answered-IsModest slow_down at slow_down-IsModest e,
  (λ at e. answered-IsModest authorized at refl e, tt),
)

poll_for_token-Paced_example : Paced five_seconds (poll_for_token codec code polls).1
poll_for_token-Paced_example =
    poll_for_token-Paced codec code polls code-IsModest (omega arith) polls-IsModest

-- The second poll waits for the twelve seconds that GitHub asks for.
slept : (poll_for_token codec code polls).1 ≡ pos five_seconds ∷ pos (12 * 10 ^ 9) ∷ []
unfolding poll_for_token equal
slept = refl

login-Ends_example : Ends codec world none (login codec world none)
login-Ends_example = login-Ends codec world none
