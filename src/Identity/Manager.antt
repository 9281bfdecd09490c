-- ===== src/Identity/Manager.antt =====
-- internal/identity/manager.go. The flights of the single key run one after the other, so the model
-- takes them in turn; a caller that leaves does not stop its flight. The functions of Go's libraries
-- are parameters. `refreshIn`, which is only logged, is left out, and instants and durations are
-- integers in one unit.
pub mod Published
pub mod Classes
use copilotd.Prelude.{
  ℕ, zero, suc, ◌+◌, List, [], ◌∷◌, ◌++◌, Option, none, some, ℤ, pos, ltb_ℤ, ◌-ℤ◌, leb, ◌==◌,
  if◌then◌else◌, Result, ok, err, Bool, true, false, not, ◌&&◌, ◌||◌, Bytes, codes, equal,
}

pub record Token : Type 0 where
  pub raw : Bytes
  pub expires_at : ℤ
  pub base_url : Bytes

pub record ExchangeResponse : Type 0 where
  pub token : Bytes
  pub expires_at : ℤ
  pub endpoints_api : Bytes

pub record ExchangeError : Type 0 where
  pub transient : Bool
  pub auth_class : Bool
  pub status : ℕ

-- What `url.Parse` gives, as far as it is read here.
pub record Url : Type 0 where
  pub scheme : Bytes
  pub host : Bytes
  pub hostname : Bytes
  pub has_user : Bool
  pub escaped_path : Bytes
  pub raw_query : Bytes
  pub force_query : Bool
  pub fragment : Bytes
  pub raw_fragment : Bytes

-- `strings.TrimSpace`, `strings.ToLower`, `url.Parse`, `json.Unmarshal` and `time.Unix`.
pub record Library : Type 0 where
  pub trim_space : Bytes → Bytes
  pub to_lower : Bytes → Bytes
  pub parse_url : Bytes → Option Url
  pub unmarshal : Bytes → Option ExchangeResponse
  pub unix : ℤ → ℤ

-- What came of the request of an exchange.
pub data Reply : Type 0 where
  not_built : Reply
  transport_failed : Reply
  responded : ℕ → Bytes → Reply

pub data MintError : Type 0 where
  exchange_failed : ExchangeError → MintError
  context_ended : MintError

pub record Credential (H : Type 0) : Type 0 where
  pub base_url : Bytes
  pub token : Bytes
  pub headers : H

pub record Manager : Type 0 where
  pub cached : Option Token
  pub safety_margin : ℤ
  pub startup_retries : ℕ
  pub local_ready : Bool

default_upstream_base : Bytes
default_upstream_base = codes "https://api.githubcopilot.com"

unfoldable pub fresh : Token → ℤ → ℤ → Bool
fresh t now margin = ltb_ℤ now (t.expires_at -ℤ margin)

unfoldable pub fresh_cached : Manager → ℤ → Option Token
fresh_cached m now = elim m.cached [
  | none ↦ none
  | some t ↦ if fresh t now m.safety_margin then some t else none
]

store : Token → Manager → Manager
store t m = record m { cached = some t }

unfoldable pub credential_from : {H : Type 0} → H → Token → Credential H
unfolding default_upstream_base
credential_from headers t = record {
  base_url = if equal t.base_url [] then default_upstream_base else t.base_url;
  token = t.raw;
  headers = headers;
}

is_in : ℕ → Bytes → Bool
is_in b [] = false
is_in b (c ∷ cs) = b == c || is_in b cs

-- `normalizeCopilotOrigin`: none where it answers an error.
unfoldable pub normalize_copilot_origin : Library → Bytes → Option Bytes
unfolding is_in
normalize_copilot_origin lib raw = if equal raw [] then some [] else (elim (lib.parse_url raw) [
  | none ↦ none
  | some u ↦
      let scheme = lib.to_lower u.scheme in
      if not (equal scheme (codes "http")) && not (equal scheme (codes "https"))
      then none
      else (if equal u.host [] || equal u.hostname []
          then none
          else (if u.has_user
              then none
              else (if not (equal u.escaped_path []) && not (equal u.escaped_path (codes "/"))
                  then none
                  else (if not (equal u.raw_query []) || u.force_query
                      then none
                      else (if not (equal u.fragment [])
                            || not (equal u.raw_fragment [])
                            || is_in b'#' raw
                          then none
                          else some (scheme ++ codes "://" ++ u.host))))))
])

failure : Bool → Bool → ℕ → Result ExchangeError Token
failure transient auth_class status =
    err (record { transient = transient; auth_class = auth_class; status = status })

accepted : Library → ExchangeResponse → Option Bytes → Result ExchangeError Token
unfolding failure
accepted lib parsed none = failure true false 200
accepted lib parsed (some base) =
    ok (record { raw = parsed.token; expires_at = lib.unix parsed.expires_at; base_url = base })

-- The branch of status 200.
read_token : Library → Option ExchangeResponse → Result ExchangeError Token
unfolding failure accepted
read_token lib none = failure true false 200
read_token lib (some parsed) =
    if equal (lib.trim_space parsed.token) []
    then failure true false 200
    else accepted lib parsed (normalize_copilot_origin lib parsed.endpoints_api)

unfoldable pub exchange : Library → Reply → Result ExchangeError Token
unfolding failure read_token accepted
exchange lib not_built = failure false false 0
exchange lib transport_failed = failure true false 0
exchange lib (responded status body) =
    if status == 200
    then read_token lib (lib.unmarshal body)
    else (if status == 401 || status == 403 || status == 404
        then failure false true status
        else (if status == 429 || leb 500 status
            then failure true false status
            else failure false false status))

unfoldable pub is_transient : MintError → Bool
is_transient (exchange_failed e) = e.transient
is_transient context_ended = false

pub data FailureClass : Type 0 where
  transient_class : FailureClass
  auth_failure_class : FailureClass
  non_transient_class : FailureClass

pub data Level : Type 0 where
  debug_level : Level
  warn_level : Level
  error_level : Level

-- The class and the level that `logMint` records of a failed exchange.
unfoldable pub log_class : Bool → ExchangeError → FailureClass × Level
log_class is_startup e =
    if e.auth_class
    then (auth_failure_class, error_level)
    else (if e.transient
        then (transient_class, if is_startup then debug_level else warn_level)
        else (non_transient_class, error_level))

flight : Library → ℤ → Reply → Manager → Result ExchangeError Token × Manager
unfolding store
flight lib now reply m = elim (fresh_cached m now) [
  | some t ↦ (ok t, m)
  | none ↦ elim (exchange lib reply) [ ok t ↦ (ok t, store t m) | err e ↦ (err e, m) ]
]

outcome_of : {H : Type 0} → H → Bool → Result ExchangeError Token → Result MintError (Credential H)
outcome_of headers true r = err context_ended
outcome_of headers false (ok t) = ok (credential_from headers t)
outcome_of headers false (err e) = err (exchange_failed e)

-- `mint`: the time that the flight reads, what its exchange gets, and whether the caller left first.
unfoldable pub mint :
    {H : Type 0}
    → Library
    → H
    → ℤ
    → Reply
    → Bool
    → Manager
    → Result MintError (Credential H) × Manager
unfolding flight store outcome_of
mint lib headers now reply caller_left m =
    let (r, m') = flight lib now reply m in (outcome_of headers caller_left r, m')

-- `Current`: the caller's own reading of the clock, and those of its flight.
unfoldable pub current :
    {H : Type 0}
    → Library
    → H
    → ℤ
    → ℤ
    → Reply
    → Bool
    → Manager
    → Result MintError (Credential H) × Manager
current lib headers now flight_now reply caller_left m = elim (fresh_cached m now) [
  | some t ↦ (ok (credential_from headers t), m)
  | none ↦ mint lib headers flight_now reply caller_left m
]

-- One attempt of the startup mint: whether the backoff before it was cut short, what its flight saw,
-- and whether the context had ended when the mint failed.
pub record Attempt : Type 0 where
  pub sleep_cut : Bool
  pub now : ℤ
  pub reply : Reply
  pub caller_left : Bool
  pub context_ended_after : Bool

pub data StartupEnd : Type 0 where
  minted : StartupEnd
  shutting_down : StartupEnd
  cancelled : StartupEnd
  permanent : StartupEnd
  exhausted : StartupEnd

-- `StartupMint`: its attempts from number `k` on, `left` of them; how it ended, and the attempts made.
unfoldable pub startup_from :
    {H : Type 0} → Library → H → (ℕ → Attempt) → ℕ → ℕ → Manager → StartupEnd × ℕ × Manager
startup_from lib headers attempts k zero m = (exhausted, k, m)
startup_from lib headers attempts k (suc left) m =
    let a = attempts k in
    let (outcome, m') = mint lib headers a.now a.reply a.caller_left m in
    let rest = startup_from lib headers attempts (k + 1) left m' in
    if leb 1 k && a.sleep_cut then (shutting_down, k, m) else (elim outcome [
      | ok c ↦ (minted, k + 1, m')
      | err e ↦
          if a.context_ended_after
          then (cancelled, k + 1, m')
          else (if not (is_transient e) then (permanent, k + 1, m') else rest)
    ])

unfoldable pub startup_mint :
    {H : Type 0} → Library → H → (ℕ → Attempt) → Manager → StartupEnd × ℕ × Manager
startup_mint lib headers attempts m = startup_from lib headers attempts 0 (m.startup_retries + 1) m
