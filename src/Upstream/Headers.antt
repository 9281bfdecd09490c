-- ===== src/Upstream/Headers.antt =====
-- internal/upstream/header_policy.go: which headers go upstream and which come back. Go's header map is
-- a list of names with their values; its iteration takes the list's order.
pub mod Stripped
use copilotd.Prelude.{
  ℕ, ◌+◌, ◌-◌, Bool, true, false, not, ◌||◌, ◌&&◌, List, [], ◌∷◌, ◌++◌, Option, none, some, Bytes,
  codes, equal, leb, ◌==◌, if◌then◌else◌, reverse, cut_prefix,
}

abbrev pub Header : Type 0
Header = List (Bytes × List Bytes)

abbrev is_upper : ℕ → Bool
is_upper c = leb b'A' c && leb c b'Z'

abbrev is_lower : ℕ → Bool
is_lower c = leb b'a' c && leb c b'z'

abbrev pub to_lower : ℕ → ℕ
to_lower c = if is_upper c then c + 32 else c

abbrev to_upper : ℕ → ℕ
to_upper c = if is_lower c then c - 32 else c

unfoldable pub is_among : ℕ → Bytes → Bool
is_among c [] = false
is_among c (d ∷ rest) = c == d || is_among c rest

unfoldable pub is_token : ℕ → Bool
unfolding is_among
is_token c =
    is_upper c || is_lower c || (leb b'0' c && leb c b'9') || is_among c (codes "!#$%&'*+-.^_`|~")

unfoldable pub are_tokens : Bytes → Bool
unfolding is_token
are_tokens [] = true
are_tokens (c ∷ rest) = is_token c && are_tokens rest

-- A letter is a capital at the start and behind each dash.
unfoldable pub capitalized : Bool → Bytes → Bytes
capitalized start [] = []
capitalized start (c ∷ rest) =
    (if start then to_upper c else to_lower c) ∷ capitalized (c == b'-') rest

-- `http.CanonicalHeaderKey`; a name that is no token stays as it is.
unfoldable pub canonical_header_key : Bytes → Bytes
unfolding are_tokens capitalized
canonical_header_key name = if are_tokens name then capitalized true name else name

-- `header[name]`.
unfoldable pub values_at : Header → Bytes → Option (List Bytes)
unfolding equal
values_at [] name = none
values_at ((n, values) ∷ rest) name =
    let later = values_at rest name in if equal n name then some values else later

-- `header[name] = values`.
unfoldable pub assign : Header → Bytes → List Bytes → Header
unfolding equal
assign [] name values = (name, values) ∷ []
assign ((n, old) ∷ rest) name values =
    let later = assign rest name values in
    if equal n name then (n, values) ∷ rest else (n, old) ∷ later

-- `Header.Set`, of which every name here is a canonical constant.
abbrev pub set : Header → Bytes → Bytes → Header
set h name value = assign h name (value ∷ [])

unfoldable pub is_named : Bytes → List Bytes → Bool
unfolding equal
is_named name [] = false
is_named name (n ∷ rest) = let later = is_named name rest in if equal n name then true else later

abbrev pub request_id_header : Bytes
request_id_header = codes "X-Request-Id"

abbrev pub hop_by_hop : List Bytes
hop_by_hop =
    codes "Connection"
    ∷ codes "Keep-Alive"
    ∷ codes "Proxy-Authenticate"
    ∷ codes "Proxy-Authorization"
    ∷ codes "Te"
    ∷ codes "Trailer"
    ∷ codes "Transfer-Encoding"
    ∷ codes "Upgrade"
    ∷ []

abbrev pub request_strip : List Bytes
request_strip =
    hop_by_hop
    ++ codes "Authorization" ∷ codes "X-Api-Key" ∷ codes "Host" ∷ codes "Content-Length" ∷ []

abbrev pub response_strip : List Bytes
response_strip = hop_by_hop ++ request_id_header ∷ []

unfoldable pub lowered : Bytes → Bytes
lowered [] = []
lowered (c ∷ rest) = to_lower c ∷ lowered rest

abbrev is_some : Option Bytes → Bool
is_some none = false
is_some (some rest) = true

unfoldable pub strip_request_header : Bytes → Bool
unfolding is_named lowered cut_prefix
strip_request_header name =
    is_named name request_strip || is_some (cut_prefix (codes "sec-websocket-") (lowered name))

-- `strings.Split(value, ",")`.
abbrev push : ℕ → List Bytes → List Bytes
push c [] = (c ∷ []) ∷ []
push c (part ∷ rest) = (c ∷ part) ∷ rest

unfoldable pub split_commas : Bytes → List Bytes
split_commas [] = [] ∷ []
split_commas (c ∷ rest) = let cut = split_commas rest in if c == b',' then [] ∷ cut else push c cut

abbrev is_space : ℕ → Bool
is_space c = c == b' ' || c == b'\t' || c == b'\n' || c == b'\r' || c == 11 || c == 12

unfoldable pub trim_left : Bytes → Bytes
trim_left [] = []
trim_left (c ∷ rest) = let later = trim_left rest in if is_space c then later else c ∷ rest

-- `strings.TrimSpace` on ASCII space.
abbrev trim_space : Bytes → Bytes
trim_space text = reverse (trim_left (reverse (trim_left text)))

abbrev named_token : Bytes → List Bytes → List Bytes
named_token [] found = found
named_token (c ∷ rest) found = canonical_header_key (c ∷ rest) ∷ found

unfoldable pub tokens_of : List Bytes → List Bytes
unfolding trim_left canonical_header_key
tokens_of [] = []
tokens_of (token ∷ rest) = named_token (trim_space token) (tokens_of rest)

unfoldable pub value_tokens : List Bytes → List Bytes
unfolding split_commas tokens_of
value_tokens [] = []
value_tokens (value ∷ rest) = tokens_of (split_commas value) ++ value_tokens rest

-- `connectionTokens`: the names, as a list.
unfoldable pub connection_tokens : Header → List Bytes
unfolding canonical_header_key value_tokens equal
connection_tokens [] = []
connection_tokens ((name, values) ∷ rest) =
    let later = connection_tokens rest in
    if equal (canonical_header_key name) (codes "Connection")
    then value_tokens values ++ later
    else later

-- A client's header that may go upstream, under the names that its Connection header lists.
unfoldable pub may_pass : List Bytes → Bytes → Bool
unfolding strip_request_header is_named
may_pass connection name = not (strip_request_header name || is_named name connection)

-- The loop over the client's headers.
unfoldable pub permitted : List Bytes → Header → Header → Header
unfolding may_pass assign canonical_header_key
permitted connection [] result = result
permitted connection ((name, values) ∷ rest) result =
    let taken = permitted connection rest (assign result (canonical_header_key name) values) in
    let skipped = permitted connection rest result in
    if may_pass connection (canonical_header_key name) then taken else skipped

-- The overlay of the credential's headers.
unfoldable pub overlaid : Header → Header → Header
unfolding assign canonical_header_key
overlaid [] result = result
overlaid ((name, values) ∷ rest) result =
    overlaid rest (assign result (canonical_header_key name) values)

abbrev pub with_request_id : Option Bytes → Header → Header
with_request_id none result = result
with_request_id (some id) result = set result request_id_header id

abbrev pub with_identity : Bool → Header → Header
with_identity false result = result
with_identity true result = set result (codes "Accept-Encoding") (codes "identity")

-- `authenticatedOutboundHeaders`: the client's headers, the token, the credential's headers, the request
-- id of the context, and `AcceptIdentityEncoding`.
unfoldable pub authenticated_outbound_headers :
    Header → Bytes → Header → Option Bytes → Bool → Header
unfolding permitted connection_tokens overlaid assign
authenticated_outbound_headers client token credential id accept_identity =
    with_identity accept_identity (
      with_request_id id (
        overlaid credential (
          set (permitted (connection_tokens client) client []) (codes "Authorization")
            (codes "Bearer " ++ token))))

-- `Header.Add` of each value.
unfoldable pub add_all : Header → Bytes → List Bytes → Header
unfolding equal
add_all h name [] = h
add_all [] name (value ∷ values) = (name, value ∷ values) ∷ []
add_all ((n, old) ∷ rest) name (value ∷ values) =
    let later = add_all rest name (value ∷ values) in
    if equal n name then (n, old ++ value ∷ values) ∷ rest else (n, old) ∷ later

unfoldable pub copied : List Bytes → Header → Header → Header
unfolding is_named add_all canonical_header_key
copied connection [] destination = destination
copied connection ((name, values) ∷ rest) destination =
    let taken = copied connection rest (add_all destination (canonical_header_key name) values) in
    let skipped = copied connection rest destination in
    if is_named (canonical_header_key name) response_strip
      || is_named (canonical_header_key name) connection
    then skipped
    else taken

-- `CopyResponseHeaders`.
unfoldable pub copy_response_headers : Header → Header → Header
unfolding copied connection_tokens
copy_response_headers destination source = copied (connection_tokens source) source destination
