-- ===== src/Examples/Buffered.antt =====
-- Buffered calls at concrete answers (internal/upstream/caller.go, read_bounded.go).
use copilotd.Prelude.{◌≡◌, refl, ℕ, ◌==◌, [], ◌∷◌, none, some, true, false, codes, equal, ok}
use mathlib.Core.Logic.{◌↔◌}
use copilotd.Upstream.Caller.{
  Record, correlation, correlated_id, logged, failed_call, Errors, Context, Body, Call, Credential,
  World, buffered, read_bounded, debug, warn, limited, read_body, failure, classify_by_context,
  classify, prepare, execute, correlate, trim_slashes,
}
use copilotd.Upstream.Caller.Outcomes.{Accounted, reached, buffered-Accounted}
use copilotd.Upstream.Caller.Bounded.{Whole, read_bounded_iff}

-- Errors by number: 0 is a deadline, 1 a cancellation, 2 an oversized body.
abbrev errors : Errors ℕ
errors = record {
  is_deadline = λ e. e == 0;
  is_canceled = λ e. e == 1;
  is_too_large = λ e. e == 2;
  too_large = 2;
}

abbrev live : Context ℕ
live = record { ended = none; cause = none }

abbrev cancelled : Context ℕ
cancelled = record { ended = some 1; cause = some 1 }

abbrev timed_out : Context ℕ
timed_out = record { ended = some 1; cause = some 0 }

abbrev abc : Body ℕ
abc = record { contents = codes "abc"; ends = none; with_last = false }

abbrev broken : Body ℕ
broken = record { contents = codes "ab"; ends = some 1; with_last = false }

abbrev call : Call
call = record {
  route = codes "/models";
  method = codes "GET";
  query = [];
  force_query = false;
  client_header = [];
  accept_identity_encoding = true;
}

abbrev origin : Credential
origin = record { base_url = codes "https://h/"; token = codes "t"; headers = [] }

abbrev meeting : Context ℕ → Body ℕ → World ℕ
meeting context body = record {
  credential = ok origin;
  check = λ method url. none;
  exchange = λ request. ok (record { status = 200; request_id = codes "theirs"; body = body });
  request_id = some (codes "ours");
  at_credential = live;
  at_exchange = live;
  at_body = context;
}

abbrev correlated : Record ℕ
correlated = correlation (codes "theirs")

buffered-Accounted_example :
    Accounted errors
      (reached (meeting cancelled broken) call).context
      (logged (reached (meeting cancelled broken) call).id [])
      (buffered errors 3 (meeting cancelled broken) call [])
buffered-Accounted_example = buffered-Accounted errors 3 (meeting cancelled broken) call []

reached_body :
    reached (meeting cancelled broken) call
    ≡ record { context = some cancelled; id = some (codes "theirs") }
unfolding correlated_id equal
reached_body = refl

whole_body :
    buffered errors 3 (meeting live abc) call []
    ≡ (ok (200, codes "abc", some (codes "theirs")), correlated ∷ [])
unfolding equal limited read_bounded read_body failure classify_by_context classify prepare execute
    correlated_id correlate trim_slashes buffered
whole_body = refl

client_left :
    (buffered errors 3 (meeting cancelled broken) call []).1 ≡ correlated ∷ failed_call debug 1 ∷ []
unfolding equal limited read_bounded read_body failure classify_by_context classify prepare execute
    correlated_id correlate trim_slashes buffered
client_left = refl

oversized_anyway :
    (buffered errors 2 (meeting cancelled abc) call []).1 ≡ correlated ∷ failed_call warn 2 ∷ []
unfolding equal limited read_bounded read_body failure classify_by_context classify prepare execute
    correlated_id correlate trim_slashes buffered
oversized_anyway = refl

timer_fired :
    (buffered errors 3 (meeting timed_out broken) call []).1 ≡ correlated ∷ failed_call warn 1 ∷ []
unfolding equal limited read_bounded read_body failure classify_by_context classify prepare execute
    correlated_id correlate trim_slashes buffered
timer_fired = refl

read_bounded_iff_example :
    (read_bounded errors abc 3 ≡ ok (codes "abc")) ↔ Whole abc 3 (codes "abc")
read_bounded_iff_example = read_bounded_iff errors abc 3 (codes "abc")
