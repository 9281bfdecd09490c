-- ===== src/Examples/Calls.antt =====
-- A request and a response whose Connection headers list a name (internal/upstream/header_policy.go).
use copilotd.Prelude.{◌≡◌, refl, ◌||◌, [], ◌∷◌, some, true, Bytes, codes, equal, cut_prefix}
use copilotd.Upstream.Headers.{
  Header, values_at, is_among, is_token, are_tokens, capitalized, canonical_header_key,
  connection_tokens, value_tokens, split_commas, trim_left, tokens_of, may_pass,
  strip_request_header, is_named, lowered, permitted, assign, overlaid,
  authenticated_outbound_headers, add_all, copied, copy_response_headers,
}
use copilotd.Upstream.Headers.Stripped.{outbound_stripped, copy_response_headers_stripped}

abbrev hop : Bytes
hop = codes "X-Hop"

abbrev client : Header
client =
    (codes "connection", codes "close, x-hop" ∷ [])
    ∷ (codes "x-hop", codes "1" ∷ [])
    ∷ (codes "accept", codes "*/*" ∷ [])
    ∷ (codes "x-api-key", codes "secret" ∷ [])
    ∷ []

abbrev credential : Header
credential = (codes "editor-version", codes "v" ∷ []) ∷ []

hop_withheld : strip_request_header hop || is_named hop (connection_tokens client) ≡ true
unfolding equal cut_prefix values_at is_among is_token are_tokens capitalized canonical_header_key
    connection_tokens value_tokens split_commas trim_left tokens_of may_pass strip_request_header
    is_named lowered permitted assign overlaid authenticated_outbound_headers add_all copied
    copy_response_headers
hop_withheld = refl

outbound_stripped_example :
    values_at
      (authenticated_outbound_headers client (codes "t") credential (some (codes "id")) true)
      hop
    ≡ values_at
        (authenticated_outbound_headers [] (codes "t") credential (some (codes "id")) true)
        hop
outbound_stripped_example =
    outbound_stripped client (codes "t") credential (some (codes "id")) true hop hop_withheld

requested :
    authenticated_outbound_headers client (codes "t") credential (some (codes "id")) true
    ≡ (codes "Accept", codes "*/*" ∷ [])
      ∷ (codes "Authorization", codes "Bearer t" ∷ [])
      ∷ (codes "Editor-Version", codes "v" ∷ [])
      ∷ (codes "X-Request-Id", codes "id" ∷ [])
      ∷ (codes "Accept-Encoding", codes "identity" ∷ [])
      ∷ []
unfolding equal cut_prefix values_at is_among is_token are_tokens capitalized canonical_header_key
    connection_tokens value_tokens split_commas trim_left tokens_of may_pass strip_request_header
    is_named lowered permitted assign overlaid authenticated_outbound_headers add_all copied
    copy_response_headers
requested = refl

abbrev response : Header
response =
    (codes "connection", codes "x-hop" ∷ [])
    ∷ (codes "x-hop", codes "1" ∷ [])
    ∷ (codes "x-request-id", codes "theirs" ∷ [])
    ∷ (codes "content-type", codes "text/plain" ∷ [])
    ∷ []

abbrev ours : Header
ours = (codes "X-Request-Id", codes "ours" ∷ []) ∷ []

answered :
    copy_response_headers ours response
    ≡ (codes "X-Request-Id", codes "ours" ∷ [])
      ∷ (codes "Content-Type", codes "text/plain" ∷ [])
      ∷ []
unfolding equal cut_prefix values_at is_among is_token are_tokens capitalized canonical_header_key
    connection_tokens value_tokens split_commas trim_left tokens_of may_pass strip_request_header
    is_named lowered permitted assign overlaid authenticated_outbound_headers add_all copied
    copy_response_headers
answered = refl

copy_response_headers_stripped_example :
    values_at (copy_response_headers ours response) hop ≡ values_at ours hop
unfolding equal cut_prefix values_at is_among is_token are_tokens capitalized canonical_header_key
    connection_tokens value_tokens split_commas trim_left tokens_of may_pass strip_request_header
    is_named lowered permitted assign overlaid authenticated_outbound_headers add_all copied
    copy_response_headers
copy_response_headers_stripped_example = copy_response_headers_stripped ours response hop refl
