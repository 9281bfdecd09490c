-- ===== src/Upstream/Caller.antt =====
-- internal/upstream/caller.go, call.go, read_bounded.go: a buffered call, from its credential to its
-- body or its one failure. Errors are values of a type whose errors.Is tests are parameters. The
-- request's body and its length, the closing of the response, and the request summary that Correlate
-- also tells are left out.
pub mod Outcomes
pub mod Bounded
use copilotd.Prelude.{
  ℕ, suc, ◌-◌, ◌^◌, Bool, true, false, ◌||◌, ◌&&◌, List, [], ◌∷◌, ◌++◌, Option, none, some, Bytes,
  codes, equal, ltb, ◌==◌, if◌then◌else◌, reverse, take, length, Result, ok, err,
}
use copilotd.Upstream.Headers.{Header, authenticated_outbound_headers}

pub data Kind : Type 0 where
  unauthorized not_ready background_unsupported not_a_web_socket_upgrade payload_too_large : Kind
  bad_gateway gateway_timeout shim_error invalid_request : Kind

-- errors.Is against the sentinels, and `errResponseBodyTooLarge`.
pub record Errors (E : Type 0) : Type 0 where
  pub is_deadline : E → Bool
  pub is_canceled : E → Bool
  pub is_too_large : E → Bool
  pub too_large : E

-- What `ctx.Err()` and `context.Cause(ctx)` return.
pub record Context (E : Type 0) : Type 0 where
  pub ended : Option E
  pub cause : Option E

pub record Failure (E : Type 0) : Type 0 where
  pub kind : Kind
  pub message : Bytes
  pub client_gone : Bool
  pub cause : E

pub data Level : Type 0 where
  warn debug : Level

-- A log record: a failed call with its cause, or the upstream's request id of a correlated response,
-- which is a debug record.
pub data Record (E : Type 0) : Type 0 where
  failed_call : Level → E → Record E
  correlation : Bytes → Record E

abbrev pub Log : Type 0 → Type 0
Log E = List (Record E)

-- A body's bytes and the error that a read ends with, none for io.EOF. The error may come with the last
-- bytes or by a read of its own.
pub record Body (E : Type 0) : Type 0 where
  pub contents : Bytes
  pub ends : Option E
  pub with_last : Bool

abbrev pub holds : {E : Type 0} → (E → Bool) → Option E → Bool
holds is none = false
holds is (some e) = is e

abbrev pub level_of : Bool → Level
level_of client_gone = if client_gone then debug else warn

-- `failure`: the failure, and its log record behind those before it.
unfoldable pub failure : {E : Type 0} → Kind → Bytes → Bool → E → Log E → Failure E × Log E
failure kind message client_gone cause log = (
  record { kind = kind; message = message; client_gone = client_gone; cause = cause },
  log ++ failed_call (level_of client_gone) cause ∷ [],
)

unfoldable pub classify_by_context :
    {E : Type 0} → Errors E → Context E → Kind → Bytes → E → Log E → Failure E × Log E
unfolding failure
classify_by_context errors context fallback message e log =
    if holds errors.is_deadline context.ended || holds errors.is_deadline context.cause
    then failure gateway_timeout (codes "the upstream request timed out") false e log
    else if holds errors.is_canceled context.ended
    then failure unauthorized [] true e log
    else failure fallback message false e log

unfoldable pub classify : {E : Type 0} → Errors E → Context E → E → Log E → Failure E × Log E
unfolding classify_by_context
classify errors context e log =
    if errors.is_deadline e
    then failure gateway_timeout (codes "the upstream request timed out") false e log
    else classify_by_context errors context bad_gateway (codes "could not reach the upstream") e log

-- `io.ReadAll` of a body, and of `io.LimitReader(body, n)` with n positive.
abbrev pub read_all : {E : Type 0} → Body E → Bytes × Option E
read_all body = (body.contents, body.ends)

unfoldable pub limited : {E : Type 0} → ℕ → Body E → Bytes × Option E
limited n body =
    if ltb (length body.contents) n || (length body.contents == n && body.with_last)
    then (body.contents, body.ends)
    else (take n body.contents, none)

abbrev pub max_int64 : ℕ
max_int64 = 2 ^ 63 - 1

abbrev pub read_contents : {E : Type 0} → Errors E → ℕ → Bytes × Option E → Result (Failure E) Bytes
read_contents errors max (contents, some e) = err (record {
  kind = bad_gateway;
  message = codes "could not read the upstream response";
  client_gone = false;
  cause = e;
})
read_contents errors max (contents, none) =
    if ltb max (length contents)
    then err (record {
      kind = bad_gateway;
      message = codes "upstream response body exceeds the maximum allowed size";
      client_gone = false;
      cause = errors.too_large;
    })
    else ok contents

-- The function `ReadBounded`, at a bound that is not negative.
unfoldable pub read_bounded : {E : Type 0} → Errors E → Body E → ℕ → Result (Failure E) Bytes
unfolding limited
read_bounded errors body max =
    read_contents errors max (if ltb max max_int64 then limited (suc max) body else read_all body)

abbrev failed : {E A : Type 0} → Failure E × Log E → Result (Failure E) A × Log E
failed out = (err out.0, out.1)

-- The method `ReadBounded`.
abbrev pub settled :
    {E : Type 0}
    → Errors E
    → Context E
    → Log E
    → Result (Failure E) Bytes
    → Result (Failure E) Bytes × Log E
settled errors context log (ok contents) = (ok contents, log)
settled errors context log (err f) = failed (
    if errors.is_too_large f.cause
    then failure f.kind f.message false f.cause log
    else classify_by_context errors context f.kind f.message f.cause log)

unfoldable pub read_body :
    {E : Type 0} → Errors E → ℕ → Context E → Body E → Log E → Result (Failure E) Bytes × Log E
unfolding read_bounded classify_by_context
read_body errors max context body log = settled errors context log (read_bounded errors body max)

pub record Credential : Type 0 where
  pub base_url : Bytes
  pub token : Bytes
  pub headers : Header

pub record Call : Type 0 where
  pub route : Bytes
  pub method : Bytes
  pub query : Bytes
  pub force_query : Bool
  pub client_header : Header
  pub accept_identity_encoding : Bool

pub record Request : Type 0 where
  pub method : Bytes
  pub url : Bytes
  pub query : Bytes
  pub force_query : Bool
  pub header : Header

-- `strings.TrimRight(url, "/")`.
unfoldable pub trim_slashes : Bytes → Bytes
trim_slashes [] = []
trim_slashes (c ∷ rest) = let later = trim_slashes rest in if c == b'/' then later else c ∷ rest

abbrev pub request_url : Credential → Call → Bytes
request_url credential call = reverse (trim_slashes (reverse credential.base_url)) ++ call.route

pub record Response (E : Type 0) : Type 0 where
  pub status : ℕ
  pub request_id : Bytes
  pub body : Body E

-- What a call meets: the credential, the library's check of method and URL, the exchange, and the
-- context at each of the places that may classify it.
pub record World (E : Type 0) : Type 0 where
  pub credential : Result E Credential
  pub check : Bytes → Bytes → Option E
  pub exchange : Request → Result E (Response E)
  pub request_id : Option Bytes
  pub at_credential : Context E
  pub at_exchange : Context E
  pub at_body : Context E

-- The request that is built of a call and a credential.
abbrev pub request_of : {E : Type 0} → World E → Call → Credential → Request
request_of w call c = record {
  method = call.method;
  url = request_url c call;
  query = call.query;
  force_query = call.force_query;
  header =
      authenticated_outbound_headers call.client_header c.token c.headers w.request_id
        call.accept_identity_encoding;
}

abbrev pub checked :
    {E : Type 0}
    → World E
    → Call
    → Credential
    → Log E
    → Option E
    → Result (Failure E) Request × Log E
checked w call c log (some e) =
    failed (failure bad_gateway (codes "could not build the upstream request") false e log)
checked w call c log none = (ok (request_of w call c), log)

abbrev pub with_credential :
    {E : Type 0}
    → Errors E
    → World E
    → Call
    → Log E
    → Result E Credential
    → Result (Failure E) Request × Log E
with_credential errors w call log (err e) = failed (
    classify_by_context errors w.at_credential not_ready (codes "no upstream credential available")
      e log)
with_credential errors w call log (ok c) =
    checked w call c log (w.check call.method (request_url c call))

-- `Prepare`.
unfoldable pub prepare :
    {E : Type 0} → Errors E → World E → Call → Log E → Result (Failure E) Request × Log E
unfolding classify_by_context authenticated_outbound_headers trim_slashes
prepare errors w call log = with_credential errors w call log w.credential

-- The id that `Correlate` finds to differ.
unfoldable pub correlated_id : Option Bytes → Bytes → Option Bytes
unfolding equal
correlated_id none upstream = none
correlated_id (some id) upstream =
    if equal upstream [] || equal upstream id then none else some upstream

-- `Correlate`: the id that joins the log of the response path, and the record of that.
abbrev pub logged : {E : Type 0} → Option Bytes → Log E → Log E
logged none log = log
logged (some id) log = log ++ correlation id ∷ []

unfoldable pub correlate : {E : Type 0} → Option Bytes → Bytes → Log E → Option Bytes × Log E
unfolding correlated_id
correlate own upstream log = (correlated_id own upstream, logged (correlated_id own upstream) log)

-- A step that a failure skips.
abbrev pub and_then :
    {E A B : Type 0}
    → Result (Failure E) A × Log E
    → (A → Log E → Result (Failure E) B × Log E)
    → Result (Failure E) B × Log E
and_then (err f, log) next = (err f, log)
and_then (ok a, log) next = next a log

-- `Do`.
abbrev pub answered :
    {E : Type 0}
    → Errors E
    → World E
    → Log E
    → Result E (Response E)
    → Result (Failure E) (Response E × Option Bytes) × Log E
answered errors w log (err e) = failed (classify errors w.at_exchange e log)
answered errors w log (ok response) =
    let (id, log') = correlate w.request_id response.request_id log in (ok (response, id), log')

unfoldable pub execute :
    {E : Type 0}
    → Errors E
    → World E
    → Call
    → Log E
    → Result (Failure E) (Response E × Option Bytes) × Log E
unfolding prepare classify correlate
execute errors w call log =
    and_then (prepare errors w call log)
      (λ request log'. answered errors w log' (w.exchange request))

-- `Buffered`; its timer shows in `at_body`.
unfoldable pub buffered :
    {E : Type 0}
    → Errors E
    → ℕ
    → World E
    → Call
    → Log E
    → Result (Failure E) (ℕ × Bytes × Option Bytes) × Log E
unfolding execute read_body
buffered errors max w call log = and_then (execute errors w call log) (λ got log'.
    and_then (read_body errors max w.at_body got.0.body log')
      (λ contents log''. (ok (got.0.status, contents, got.1), log'')))
