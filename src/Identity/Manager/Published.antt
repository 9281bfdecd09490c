-- ===== src/Identity/Manager/Published.antt =====
-- What a credential of internal/identity/manager.go carries.
use copilotd.Prelude.{
  ℕ, ◌∷◌, All, arith, ◌≡◌, ◌≢◌, refl, sym, ap, ◌∙◌, ◌⊎◌, inl, inr, [], ◌++◌, Option, none, some, ℤ,
  ok, ok_injective, Result-cases, Bool, true, false, not, ◌&&◌, ◌||◌, Bool-cases, Option-cases,
  Bytes, codes, equal, equal_sound, ne_of_equal, if◌then◌else◌, ◌==◌, leb,
}
use copilotd.Identity.Manager.{
  Token, fresh, Library, Url, Reply, not_built, transport_failed, responded, Credential, Manager,
  ExchangeResponse, fresh_cached, store, credential_from, normalize_copilot_origin, read_token,
  accepted, exchange, flight, mint, current, outcome_of, failure, default_upstream_base, is_in,
}
use mathlib.Core.Path.{subst}
use mathlib.Core.Option.{some-injective}

-- What a text must parse to for its origin: HTTP or HTTPS, with a host and nothing of userinfo, path (but
-- for one slash), query or fragment.
pub record IsBare (lib : Library) (raw : Bytes) (u : Url) : Type 0 where
  pub parsed : lib.parse_url raw ≡ some u
  pub scheme : (lib.to_lower u.scheme ≡ codes "http") ⊎ (lib.to_lower u.scheme ≡ codes "https")
  pub host : (u.host ≢ []) × (u.hostname ≢ [])
  pub no_user : u.has_user ≡ false
  pub no_path : (u.escaped_path ≡ []) ⊎ (u.escaped_path ≡ codes "/")
  pub no_query : (u.raw_query ≡ []) × (u.force_query ≡ false)
  pub no_fragment : (u.fragment ≡ []) × (u.raw_fragment ≡ []) × All (λ c. c ≢ b'#') raw

-- The scheme and host of such a text, and no more.
abbrev pub IsOrigin : Library → Bytes → Type 0
IsOrigin lib b =
    (raw : Bytes) × (u : Url) × IsBare lib raw u
    × (b ≡ lib.to_lower u.scheme ++ codes "://" ++ u.host)

abbrev pub IsAbsentOrOrigin : Library → Bytes → Type 0
IsAbsentOrOrigin lib b = (b ≡ []) ⊎ IsOrigin lib b

-- Every cached token has an origin that the exchange validated, or none.
pub record IsValidated (lib : Library) (m : Manager) : Type 0 where
  pub origin : (t : Token) → m.cached ≡ some t → IsAbsentOrOrigin lib t.base_url

passed :
    {A : Type 0} (b : Bool) (x : Option A) (y : A)
    → (if b then none else x) ≡ some y
    → (b ≡ false) × (x ≡ some y)
passed true x y h = cc h
passed false x y h = (refl, h)

or_false : (a b : Bool) → (a || b) ≡ false → (a ≡ false) × (b ≡ false)
or_false true b h = cc h
or_false false b h = (refl, h)

-- Of two texts that may be, one is.
equal_either : (s a b : Bytes) → (not (equal s a) && not (equal s b)) ≡ false → (s ≡ a) ⊎ (s ≡ b)
equal_either s a b h = elim (Bool-cases (equal s a)) [
  | inl e ↦ inl (equal_sound s a e)
  | inr e ↦ elim (Bool-cases (equal s b)) [
    | inl f ↦ inr (equal_sound s b f)
    | inr f ↦ cc (rw (e, f) at h)
  ]
]

equal_of_not : (s a : Bytes) → not (equal s a) ≡ false → s ≡ a
equal_of_not s a h = elim (Bool-cases (equal s a)) [
  | inl e ↦ equal_sound s a e
  | inr e ↦ cc (rw e at h)
]

absent_of_is_in : (b : ℕ) (text : Bytes) → is_in b text ≡ false → All (λ c. c ≢ b) text
unfolding is_in
absent_of_is_in b [] h = tt
absent_of_is_in b (c ∷ text) h =
    let (differs, later) = or_false (b == c) (is_in b text) h in
    ((λ e. ground (arith, e, differs)), absent_of_is_in b text later)

normalize-IsOrigin :
    (lib : Library) (raw b : Bytes)
    → normalize_copilot_origin lib raw ≡ some b
    → IsAbsentOrOrigin lib b
unfolding normalize_copilot_origin
normalize-IsOrigin lib raw b h = elim (Bool-cases (equal raw [])) [
  | inl e ↦ inl (sym (some-injective _ _ (rw (e, normalize_copilot_origin) at h)))
  | inr e ↦ elim (Option-cases (lib.parse_url raw)) [
    | inl f ↦ cc (rw (e, f, normalize_copilot_origin) at h)
    | inr (u, f) ↦
        let (scheme, h1) = passed _ _ b (rw (e, f, normalize_copilot_origin) at h) in
        let (hosts, h2) = passed _ _ b h1 in
        let (user, h3) = passed u.has_user _ b h2 in
        let (path, h4) =
          passed (not (equal u.escaped_path []) && not (equal u.escaped_path (codes "/"))) _ b h3 in
        let (query, h5) = passed (not (equal u.raw_query []) || u.force_query) _ b h4 in
        let (fragment, h6) =
          passed (not (equal u.fragment []) || not (equal u.raw_fragment []) || is_in b'#' raw) _ b
            h5 in
        let (host, hostname) = or_false _ _ hosts in
        let (raw_query, force_query) = or_false _ _ query in
        let (fragments, no_hash) = or_false _ (is_in b'#' raw) fragment in
        let (plain, raw_plain) = or_false _ _ fragments in
        inr (
          raw,
          u,
          record {
            parsed = f;
            scheme = equal_either (lib.to_lower u.scheme) (codes "http") (codes "https") scheme;
            host = (ne_of_equal u.host [] host, ne_of_equal u.hostname [] hostname);
            no_user = user;
            no_path = equal_either u.escaped_path [] (codes "/") path;
            no_query = (equal_of_not u.raw_query [] raw_query, force_query);
            no_fragment = (
              equal_of_not u.fragment [] plain,
              equal_of_not u.raw_fragment [] raw_plain,
              absent_of_is_in b'#' raw no_hash,
            );
          },
          sym (some-injective _ _ h6),
        )
  ]
]

read_token-IsOrigin :
    (lib : Library) (o : Option ExchangeResponse) (t : Token)
    → read_token lib o ≡ ok t
    → IsAbsentOrOrigin lib t.base_url
unfolding read_token accepted failure
read_token-IsOrigin lib none t h = cc h
read_token-IsOrigin lib (some parsed) t h =
    elim (Bool-cases (equal (lib.trim_space parsed.token) [])) [
      | inl e ↦ cc (rw (e, read_token) at h)
      | inr e ↦ elim (Option-cases (normalize_copilot_origin lib parsed.endpoints_api)) [
        | inl f ↦ cc (rw (e, f, read_token) at h)
        | inr (base, f) ↦
            subst (λ x. IsAbsentOrOrigin lib x.base_url) (ok_injective (rw (e, f, read_token) at h))
              (normalize-IsOrigin lib parsed.endpoints_api base f)
      ]
    ]

exchange-IsOrigin :
    (lib : Library) (reply : Reply) (t : Token)
    → exchange lib reply ≡ ok t
    → IsAbsentOrOrigin lib t.base_url
unfolding exchange failure
exchange-IsOrigin lib not_built t h = cc h
exchange-IsOrigin lib transport_failed t h = cc h
exchange-IsOrigin lib (responded status body) t h = elim (Bool-cases (status == 200)) [
  | inl e ↦ read_token-IsOrigin lib (lib.unmarshal body) t (rw (e, exchange) at h)
  | inr e ↦ elim (Bool-cases (status == 401 || status == 403 || status == 404)) [
    | inl f ↦ cc (rw (e, f, exchange) at h)
    | inr f ↦ elim (Bool-cases (status == 429 || leb 500 status)) [
      | inl g ↦ cc (rw (e, f, g, exchange) at h)
      | inr g ↦ cc (rw (e, f, g, exchange) at h)
    ]
  ]
]

-- The base of a credential: the built-in one where the token names none, or else the token's origin.
abbrev pub IsBase : Library → Token → Bytes → Type 0
IsBase lib t b =
    ((t.base_url ≡ []) × (b ≡ codes "https://api.githubcopilot.com"))
    ⊎ ((b ≡ t.base_url) × IsOrigin lib b)

credential_from-IsBase :
    {H : Type 0} (lib : Library) (headers : H) (t : Token)
    → IsAbsentOrOrigin lib t.base_url
    → IsBase lib t (credential_from headers t).base_url
unfolding credential_from default_upstream_base
credential_from-IsBase lib headers t h = elim (Bool-cases (equal t.base_url [])) [
  | inl e ↦ rw (e, IsBase) (inl (equal_sound t.base_url [] e, refl))
  | inr e ↦ elim h [
    | inl f ↦ absurd (ne_of_equal t.base_url [] e f)
    | inr f ↦ rw (e, IsBase) (inr (refl, f))
  ]
]

-- What a caller has been given: a credential of the token that is cached now, with its base.
pub record IsServed {H : Type 0} (lib : Library) (headers : H) (m : Manager) (c : Credential H)
    : Type 0 where
  pub token : Token
  pub cached : m.cached ≡ some token
  pub raw : c.token ≡ token.raw
  pub sent_headers : c.headers ≡ headers
  pub base : IsBase lib token c.base_url

served :
    {H : Type 0} (lib : Library) (headers : H) (m : Manager) (t : Token)
    → m.cached ≡ some t
    → IsAbsentOrOrigin lib t.base_url
    → IsServed lib headers m (credential_from headers t)
unfolding credential_from
served lib headers m t e h = record {
  token = t;
  cached = e;
  raw = refl;
  sent_headers = refl;
  base = credential_from-IsBase lib headers t h;
}

fresh_cached-cached :
    (m : Manager) (now : ℤ) (t : Token) → fresh_cached m now ≡ some t → m.cached ≡ some t
unfolding fresh_cached
fresh_cached-cached m now t h = elim (Option-cases m.cached) [
  | inl e ↦ cc (rw (e, fresh_cached) at h)
  | inr (u, e) ↦ elim (Bool-cases (fresh u now m.safety_margin)) [
    | inl f ↦ e ∙ rw (e, f, fresh_cached) at h
    | inr f ↦ cc (rw (e, f, fresh_cached) at h)
  ]
]

module _ {H : Type 0} (lib : Library) (headers : H) where
  -- A flight's answer is what the cache holds afterwards.
  flight_caches :
      (now : ℤ) (reply : Reply) (m : Manager) (t : Token)
      → (flight lib now reply m).0 ≡ ok t
      → (flight lib now reply m).1.cached ≡ some t
  unfolding flight store
  flight_caches now reply m t h = elim (Option-cases (fresh_cached m now)) [
    | inr (u, e) ↦
        rw (e, flight)
          (fresh_cached-cached m now u e ∙ ap (λ x. some x) (ok_injective (rw (e, flight) at h)))
    | inl e ↦ elim (Result-cases (exchange lib reply)) [
      | inl (u, f) ↦ rw (e, f, flight) (ap (λ x. some x) (ok_injective (rw (e, f, flight) at h)))
      | inr (x, f) ↦ cc (rw (e, f, flight) at h)
    ]
  ]

  flight-IsValidated :
      (now : ℤ) (reply : Reply) (m : Manager)
      → IsValidated lib m
      → IsValidated lib (flight lib now reply m).1
  unfolding flight store
  flight-IsValidated now reply m v = elim (Option-cases (fresh_cached m now)) [
    | inr (u, e) ↦ rw (e, flight) v
    | inl e ↦ elim (Result-cases (exchange lib reply)) [
      | inl (u, f) ↦
          rw (e, f, flight)
            (record {
              origin = λ t h.
                  subst (λ x. IsAbsentOrOrigin lib x.base_url) (some-injective _ _ h)
                    (exchange-IsOrigin lib reply u f);
            })
      | inr (x, f) ↦ rw (e, f, flight) v
    ]
  ]

  -- Whatever the exchange gets, the cache goes on holding only tokens whose base is empty or the scheme
  -- and host of a text that the library parses to an HTTP or HTTPS URL with a host, and with no
  -- userinfo, path but one slash, query or fragment.
  pub current-IsValidated :
      (now flight_now : ℤ) (reply : Reply) (caller_left : Bool) (m : Manager)
      → IsValidated lib m
      → IsValidated lib (current lib headers now flight_now reply caller_left m).1
  unfolding current mint
  current-IsValidated now flight_now reply caller_left m v =
      elim (Option-cases (fresh_cached m now)) [
        | inr (u, e) ↦ rw (e, current) v
        | inl e ↦ rw (e, current) (flight-IsValidated flight_now reply m v)
      ]

  mint-IsServed :
      (now : ℤ) (reply : Reply) (left : Bool) (m : Manager) (c : Credential H)
      → IsValidated lib m
      → (mint lib headers now reply left m).0 ≡ ok c
      → IsServed lib headers (mint lib headers now reply left m).1 c
  unfolding mint outcome_of
  mint-IsServed now reply true m c v h = cc h
  mint-IsServed now reply false m c v h = elim (Result-cases (flight lib now reply m).0) [
    | inl (t, e) ↦
        let kept = flight_caches now reply m t e in
        subst (IsServed lib headers (flight lib now reply m).1)
          (ok_injective (rw (e, mint, outcome_of) at h))
          (served lib headers (flight lib now reply m).1 t kept
            ((flight-IsValidated now reply m v).origin t kept))
    | inr (x, e) ↦ cc (rw (e, mint, outcome_of) at h)
  ]

  -- From a cache whose token, if any, has an empty base or the scheme and host of a text that the library
  -- parses to an HTTP or HTTPS URL with a host, and with no userinfo, path but one slash, query or
  -- fragment: a credential that `Current` gives out carries the raw token of the one that is cached when
  -- it returns and the headers of the edge. Its base is the built-in one where that token names none,
  -- and else the token's own, which is such a scheme and host.
  pub current-IsServed :
      (now flight_now : ℤ) (reply : Reply) (caller_left : Bool) (m : Manager) (c : Credential H)
      → IsValidated lib m
      → (current lib headers now flight_now reply caller_left m).0 ≡ ok c
      → IsServed lib headers (current lib headers now flight_now reply caller_left m).1 c
  unfolding current
  current-IsServed now flight_now reply left m c v h = elim (Option-cases (fresh_cached m now)) [
    | inr (t, e) ↦
        let kept = fresh_cached-cached m now t e in
        rw (e, current)
          (subst (IsServed lib headers m) (ok_injective (rw (e, current) at h))
            (served lib headers m t kept (v.origin t kept)))
    | inl e ↦ rw (e, current) (mint-IsServed flight_now reply left m c v (rw (e, current) at h))
  ]
