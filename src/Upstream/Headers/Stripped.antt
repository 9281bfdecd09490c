-- ===== src/Upstream/Headers/Stripped.antt =====
-- What a proxy must not pass on, in either direction.
use copilotd.Prelude.{
  Bool, true, false, not, ◌||◌, List, [], ◌∷◌, ◌++◌, Option, none, some, Bytes, codes, equal,
  equal_sound, equal_refl, ◌≡◌, refl, sym, ap, ◌∙◌, inl, inr, Bool-cases,
}
use copilotd.Upstream.Headers.{
  Header, values_at, assign, canonical_header_key, may_pass, strip_request_header, permitted,
  overlaid, with_request_id, with_identity, connection_tokens, authenticated_outbound_headers,
  request_id_header, is_named, response_strip, add_all, copied, copy_response_headers,
}

values_at-assign_same :
    (h : Header) (name : Bytes) (values : List Bytes)
    → values_at (assign h name values) name ≡ some values
unfolding values_at assign
values_at-assign_same [] name values = rw (equal_refl name) refl
values_at-assign_same ((n, old) ∷ rest) name values = elim (Bool-cases (equal n name)) [
  | inl e ↦ rw (e, e) refl
  | inr e ↦ rw (e, e) (values_at-assign_same rest name values)
]

values_at-assign_other :
    (h : Header) (name other : Bytes) (values : List Bytes)
    → equal name other ≡ false
    → values_at (assign h name values) other ≡ values_at h other
unfolding values_at assign
values_at-assign_other [] name other values h = rw h refl
values_at-assign_other ((n, old) ∷ rest) name other values h = elim (Bool-cases (equal n name)) [
  | inl e ↦
      let differs : equal n other ≡ false = ap (λ t. equal t other) (equal_sound n name e) ∙ h in
      rw (e, differs) refl
  | inr e ↦ rw (e, values_at-assign_other rest name other values h) refl
]

-- Two headers that agree on a name.
abbrev Agree : Bytes → Header → Header → Type 0
Agree k h h' = values_at h k ≡ values_at h' k

assign-Agree :
    (k name : Bytes) (values : List Bytes) (h h' : Header)
    → Agree k h h'
    → Agree k (assign h name values) (assign h' name values)
assign-Agree k name values h h' same = elim (Bool-cases (equal name k)) [
  | inl e ↦
      ap (values_at (assign h name values)) (sym (equal_sound name k e))
      ∙ values_at-assign_same h name values
      ∙ sym (values_at-assign_same h' name values)
      ∙ ap (values_at (assign h' name values)) (equal_sound name k e)
  | inr e ↦
      values_at-assign_other h name k values e
      ∙ same
      ∙ sym (values_at-assign_other h' name k values e)
]

overlaid-Agree :
    (k : Bytes) (credential h h' : Header)
    → Agree k h h'
    → Agree k (overlaid credential h) (overlaid credential h')
unfolding overlaid
overlaid-Agree k [] h h' same = same
overlaid-Agree k ((name, values) ∷ rest) h h' same =
    overlaid-Agree k rest _ _ (assign-Agree k (canonical_header_key name) values h h' same)

with_request_id-Agree :
    (k : Bytes) (id : Option Bytes) (h h' : Header)
    → Agree k h h'
    → Agree k (with_request_id id h) (with_request_id id h')
with_request_id-Agree k none h h' same = same
with_request_id-Agree k (some id) h h' same = assign-Agree k request_id_header (id ∷ []) h h' same

with_identity-Agree :
    (k : Bytes) (on : Bool) (h h' : Header)
    → Agree k h h'
    → Agree k (with_identity on h) (with_identity on h')
with_identity-Agree k false h h' same = same
with_identity-Agree k true h h' same =
    assign-Agree k (codes "Accept-Encoding") (codes "identity" ∷ []) h h' same

permitted-Agree :
    (connection : List Bytes) (client result : Header) (k : Bytes)
    → may_pass connection k ≡ false
    → Agree k (permitted connection client result) result
unfolding permitted
permitted-Agree connection [] result k h = refl
permitted-Agree connection ((name, values) ∷ rest) result k h =
    let key = canonical_header_key name in
    elim (Bool-cases (may_pass connection key)) [
      | inl e ↦ elim (Bool-cases (equal key k)) [
        | inl same ↦ cc (ap (may_pass connection) (equal_sound key k same), e, h)
        | inr differs ↦ rw e (
            permitted-Agree connection rest (assign result key values) k h
            ∙ values_at-assign_other result key k values differs)
      ]
      | inr e ↦ rw e (permitted-Agree connection rest result k h)
    ]

-- Takes any client headers and a name that is stripped from requests (a hop-by-hop name, a credential
-- of the client, Host, Content-Length, a WebSocket handshake name) or that the client's Connection
-- header lists. What goes upstream under that name is what goes upstream with no client headers.
pub outbound_stripped :
    (client : Header) (token : Bytes) (credential : Header) (id : Option Bytes) (identity : Bool)
    (k : Bytes)
    → strip_request_header k || is_named k (connection_tokens client) ≡ true
    → values_at (authenticated_outbound_headers client token credential id identity) k
      ≡ values_at (authenticated_outbound_headers [] token credential id identity) k
unfolding authenticated_outbound_headers permitted may_pass
outbound_stripped client token credential id identity k h = with_identity-Agree k identity _ _ (
    with_request_id-Agree k id _ _ (
      overlaid-Agree k credential _ _ (
        assign-Agree k (codes "Authorization") ((codes "Bearer " ++ token) ∷ []) _ _
          (permitted-Agree (connection_tokens client) client [] k (ap not h)))))

values_at-add_all :
    (h : Header) (name other : Bytes) (values : List Bytes)
    → equal name other ≡ false
    → values_at (add_all h name values) other ≡ values_at h other
unfolding values_at add_all
values_at-add_all [] name other [] h = refl
values_at-add_all ((n, old) ∷ rest) name other [] h = refl
values_at-add_all [] name other (value ∷ values) h = rw h refl
values_at-add_all ((n, old) ∷ rest) name other (value ∷ values) h =
    elim (Bool-cases (equal n name)) [
      | inl e ↦
          let differs : equal n other ≡ false =
            ap (λ t. equal t other) (equal_sound n name e) ∙ h in
          rw (e, differs) refl
      | inr e ↦ rw (e, values_at-add_all rest name other (value ∷ values) h) refl
    ]

-- A response header that is not copied.
abbrev pub is_withheld : List Bytes → Bytes → Bool
is_withheld connection name = is_named name response_strip || is_named name connection

copied-Agree :
    (connection : List Bytes) (source destination : Header) (k : Bytes)
    → is_withheld connection k ≡ true
    → Agree k (copied connection source destination) destination
unfolding copied
copied-Agree connection [] destination k h = refl
copied-Agree connection ((name, values) ∷ rest) destination k h =
    let key = canonical_header_key name in
    elim (Bool-cases (is_withheld connection key)) [
      | inl e ↦ rw e (copied-Agree connection rest destination k h)
      | inr e ↦ elim (Bool-cases (equal key k)) [
        | inl same ↦ cc (ap (is_withheld connection) (equal_sound key k same), e, h)
        | inr differs ↦ rw e (
            copied-Agree connection rest (add_all destination key values) k h
            ∙ values_at-add_all destination key k values differs)
      ]
    ]

-- Takes any response headers and a name that is stripped from responses (a hop-by-hop name or the
-- request id's) or that the upstream Connection header lists. Copying leaves the destination's
-- values for that name as they were.
pub copy_response_headers_stripped :
    (destination source : Header) (k : Bytes)
    → is_withheld (connection_tokens source) k ≡ true
    → values_at (copy_response_headers destination source) k ≡ values_at destination k
unfolding copy_response_headers
copy_response_headers_stripped destination source k h =
    copied-Agree (connection_tokens source) source destination k h
