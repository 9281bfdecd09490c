-- ===== src/Shim/ModelOverride/Scanned.antt =====
-- What the scan of an override finds (internal/shim/model_override.go): the spans of a member's values.
use copilotd.Prelude.{
  ℕ, ◌+◌, true, false, List, [], ◌∷◌, Option, none, some, Bytes, codes, equal, equal_sound, length,
  take, drop, ◌-◌, ◌≡◌, refl, ap, ◌∙◌, inl, inr, Bool-cases, if◌then◌else◌, ==_iff, ◌==◌, arith,
}
use copilotd.Shim.ModelOverride.{
  Round, member_read, read_failed, Member, Members, seen, noted, scan_rounds, unseen, Json,
  Decoding, decode, scan_members, ended,
}

-- The spans of the values under a name, in order.
abbrev pub spans : Bytes → List Round → List (ℕ × ℕ)
spans name [] = []
spans name (read_failed ∷ rest) = spans name rest
spans name (member_read n start finish ∷ rest) =
    let later = spans name rest in if equal n name then (start, finish) ∷ later else later

-- No round fails.
abbrev pub AllRead : List Round → Type 0
AllRead [] = Unit
AllRead (read_failed ∷ rest) = ⊥
AllRead (member_read n start finish ∷ rest) = AllRead rest

-- A member after more values were read for it.
abbrev counted : Member → List (ℕ × ℕ) → Member
counted m [] = m
counted m ((start, finish) ∷ rest) = counted (seen m start finish) rest

scan_rounds-counted :
    (members : Members) (rounds : List Round)
    → AllRead rounds
    → scan_rounds members rounds
      ≡ some (record {
        model = counted members.model (spans (codes "model") rounds);
        event_type = counted members.event_type (spans (codes "type") rounds);
      })
unfolding scan_rounds noted
scan_rounds-counted members [] read = refl
scan_rounds-counted members (read_failed ∷ rest) read = absurd read
scan_rounds-counted members (member_read n start finish ∷ rest) read =
    elim (Bool-cases (equal n (codes "model"))) [
      | inl model ↦
          let other : equal n (codes "type") ≡ false =
            ap (λ t. equal t (codes "type")) (equal_sound n (codes "model") model) in
          rw (model, other) (scan_rounds-counted _ rest read)
      | inr other ↦ elim (Bool-cases (equal n (codes "type"))) [
        | inl event ↦ rw (other, event) (scan_rounds-counted _ rest read)
        | inr neither ↦ rw (other, neither) (scan_rounds-counted _ rest read)
      ]
    ]

scan_rounds-AllRead :
    (members : Members) (rounds : List Round) {out : Members}
    → scan_rounds members rounds ≡ some out
    → AllRead rounds
unfolding scan_rounds
scan_rounds-AllRead members [] h = tt
scan_rounds-AllRead members (read_failed ∷ rest) h = cc h
scan_rounds-AllRead members (member_read n start finish ∷ rest) h =
    scan_rounds-AllRead (noted members n start finish) rest h

occurrences-counted :
    (m : Member) (found : List (ℕ × ℕ))
    → (counted m found).occurrences ≡ m.occurrences + length found
occurrences-counted m [] = omega arith
occurrences-counted m ((start, finish) ∷ rest) =
    occurrences-counted (seen m start finish) rest ∙ omega arith

-- A member that was counted once stands at the one span.
pub counted_once :
    (found : List (ℕ × ℕ))
    → (counted unseen found).occurrences ≡ 1
    → found ≡ ((counted unseen found).start, (counted unseen found).finish) ∷ []
counted_once [] h = cc h
counted_once ((start, finish) ∷ []) h = refl
counted_once ((start, finish) ∷ second ∷ rest) h =
    absurd (omega (arith, h, occurrences-counted unseen ((start, finish) ∷ second ∷ rest)))

abbrev pub scanned : List Round → Members
scanned rounds = record {
  model = counted unseen (spans (codes "model") rounds);
  event_type = counted unseen (spans (codes "type") rounds);
}

-- A payload is UTF-8, and one object of which every member is read, with nothing behind it.
pub record IsObject (json : Json) (payload : Bytes) : Type 0 where
  pub is_text : json.is_utf8 payload ≡ true
  pub opens : (json.decoding payload).opens ≡ true
  pub all_read : AllRead (json.decoding payload).rounds
  pub closes : (json.decoding payload).closes ≡ true
  pub at_end : (json.decoding payload).at_end ≡ true

pub scan_members-of :
    (json : Json) (payload : Bytes)
    → IsObject json payload
    → scan_members json payload ≡ some (scanned (json.decoding payload).rounds)
unfolding scan_members
scan_members-of json payload o =
    rw
      (
        o.is_text,
        o.opens,
        scan_rounds-counted (record { model = unseen; event_type = unseen }) _ o.all_read,
      )
      (rw (o.closes, o.at_end) refl)

ended_some :
    (d : Decoding) (found : Option Members) {out : Members}
    → ended d found ≡ some out
    → (found ≡ some out) × (d.closes ≡ true) × (d.at_end ≡ true)
ended_some d none h = cc h
ended_some d (some members) h = elim (Bool-cases d.closes) [
  | inr unclosed ↦ cc (rw (unclosed, ended) at h)
  | inl closed ↦ elim (Bool-cases d.at_end) [
    | inr more ↦ cc (rw (closed, more, ended) at h)
    | inl end ↦ (rw (closed, end, ended) at h, closed, end)
  ]
]

pub scan_members-IsObject :
    (json : Json) (payload : Bytes) {out : Members}
    → scan_members json payload ≡ some out
    → IsObject json payload
unfolding scan_members
scan_members-IsObject json payload h = elim (Bool-cases (json.is_utf8 payload)) [
  | inr other ↦ cc (rw (other, scan_members) at h)
  | inl text ↦ elim (Bool-cases (json.decoding payload).opens) [
    | inr shut ↦ cc (rw (text, shut, scan_members) at h)
    | inl opens ↦
        let (found, closes, at_end) =
          ended_some (json.decoding payload) _ (rw (text, opens, scan_members) at h) in
        record {
          is_text = text;
          opens = opens;
          all_read = scan_rounds-AllRead _ (json.decoding payload).rounds found;
          closes = closes;
          at_end = at_end;
        }
  ]
]

-- A name stands once in the object, and the bytes of its value are read as a text.
abbrev pub Named : Json → Bytes → Bytes → ℕ → ℕ → Bytes → Type 0
Named json payload name start finish text =
    (spans name (json.decoding payload).rounds ≡ (start, finish) ∷ [])
    × (json.unquote (take (finish - start) (drop start payload)) ≡ some text)

pub decode-of :
    (json : Json) (payload name : Bytes) (start finish : ℕ) (text : Bytes)
    → Named json payload name start finish text
    → decode json (counted unseen (spans name (json.decoding payload).rounds)) payload ≡ some text
unfolding decode
decode-of json payload name start finish text (once, read) = rw once read

pub decode-Named :
    (json : Json) (payload : Bytes) (found : List (ℕ × ℕ)) (text : Bytes)
    → decode json (counted unseen found) payload ≡ some text
    → let m = counted unseen found in
      (found ≡ (m.start, m.finish) ∷ [])
      × (json.unquote (take (m.finish - m.start) (drop m.start payload)) ≡ some text)
unfolding decode
decode-Named json payload found text h =
    elim (Bool-cases ((counted unseen found).occurrences == 1)) [
      | inl once ↦ (counted_once found ((==_iff _ _).0 once), rw (once, decode) at h)
      | inr other ↦ cc (rw (other, decode) at h)
    ]
