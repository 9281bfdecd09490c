-- ===== src/Shim/ItemIds/Stable.antt =====
-- One id for one output item, from its first event to the end of the turn.
use copilotd.Prelude.{
  true, false, List, [], ◌∷◌, none, some, Bytes, codes, ℤ, pos, negsuc, equal_ℤ, ◌≡◌, refl, sym, ap,
  ◌∙◌, arith, inl, inr, Bool-cases, Option-cases, All, if◌then◌else◌,
}
use copilotd.Prelude.Options.{>>=-eq-some}
use mathlib.Core.Option.{some-injective}
use mathlib.Core.Path.{subst}
use copilotd.Shim.Json.{Json, Object, member}
use copilotd.Shim.ItemIds.{
  Pins, pinned_at, Rewrite, unchanged, changed, uncertain, Ids, marshal_raw_object, decode_raw_int,
  ids_of, first_id, rewrite_per_item, rewrite_object, parse_payload, payload_of, rewrite,
  is_turn_terminal, optional_raw_string, kind_of,
}
use copilotd.Shim.ItemIds.Pinned.{ShowsOnly, IsObject, sent, repin-ShowsOnly, no_ids-ShowsOnly}

equal_ℤ_refl : (i : ℤ) → equal_ℤ i i ≡ true
equal_ℤ_refl (pos n) = ground arith
equal_ℤ_refl (negsuc n) = ground arith

equal_ℤ_sound : (i j : ℤ) → equal_ℤ i j ≡ true → i ≡ j
equal_ℤ_sound (pos m) (pos n) h = ap pos (ground arith)
equal_ℤ_sound (pos m) (negsuc n) h = ground arith
equal_ℤ_sound (negsuc m) (pos n) h = ground arith
equal_ℤ_sound (negsuc m) (negsuc n) h = ap negsuc (ground arith)

pinned_at_same : (pins : Pins) (i : ℤ) (id : Bytes) → pinned_at ((i, id) ∷ pins) i ≡ some id
unfolding pinned_at
pinned_at_same pins i id = rw (equal_ℤ_refl i) refl

pinned_at_other :
    (pins : Pins) (i j : ℤ) (id : Bytes) {old : Bytes}
    → pinned_at pins j ≡ none
    → pinned_at pins i ≡ some old
    → pinned_at ((j, id) ∷ pins) i ≡ some old
unfolding pinned_at
pinned_at_other pins i j id free taken = elim (Bool-cases (equal_ℤ j i)) [
  | inl e ↦ cc (ap (pinned_at pins) (equal_ℤ_sound j i e), free, taken)
  | inr e ↦ rw e taken
]

module _ (json : Json) where
  -- An event of a payload for an output index, with its ids read.
  pub record IsEvent (payload : Bytes) (i : ℤ) (ids : Ids) : Type 0 where
    pub top : Object
    pub kind : Bytes
    pub index : Bytes
    pub parsed : parse_payload json payload ≡ some (top, kind)
    pub placed : member top (codes "output_index") ≡ some index
    pub decoded : decode_raw_int json index ≡ some i
    pub read : ids_of json top ≡ some ids

  -- The payload ends no turn.
  abbrev pub Continues : Bytes → Type 0
  Continues payload =
      (top : Object) (kind : Bytes)
      → parse_payload json payload ≡ some (top, kind)
      → is_turn_terminal kind ≡ false

  rewrite_per_item-keeps :
      (top : Object) (j i : ℤ) (pins : Pins) {old : Bytes}
      → pinned_at pins i ≡ some old
      → pinned_at (rewrite_per_item json top j pins).1 i ≡ some old
  unfolding rewrite_per_item
  rewrite_per_item-keeps top j i pins {old} h = elim (Option-cases (ids_of json top)) [
    | inl e ↦ rw (e, rewrite_per_item) h
    | inr (ids, e) ↦ elim (Option-cases (first_id json ids.item_id ids.top_id)) [
      | inl f ↦ rw (e, f, rewrite_per_item) h
      | inr (id, f) ↦ elim (Option-cases (pinned_at pins j)) [
        | inl free ↦ rw (e, f, free, rewrite_per_item) (pinned_at_other pins i j id free h)
        | inr (pinned, g) ↦ rw (e, f, g, rewrite_per_item) h
      ]
    ]
  ]

  rewrite_object-keeps :
      (top : Object) (i : ℤ) (pins : Pins) {old : Bytes}
      → pinned_at pins i ≡ some old
      → pinned_at (rewrite_object json top pins).1 i ≡ some old
  unfolding rewrite_object
  rewrite_object-keeps top i pins {old} h =
      elim (Option-cases (member top (codes "output_index"))) [
        | inl e ↦ rw (e, rewrite_object) h
        | inr (raw, e) ↦ elim (Option-cases (decode_raw_int json raw)) [
          | inl f ↦ rw (e, f, rewrite_object) h
          | inr (j, f) ↦ rw (e, f, rewrite_object) (rewrite_per_item-keeps top j i pins h)
        ]
      ]

  rewrite-keeps :
      (payload : Bytes) (i : ℤ) (pins : Pins) {old : Bytes}
      → Continues payload
      → pinned_at pins i ≡ some old
      → pinned_at (rewrite json payload pins).1 i ≡ some old
  unfolding rewrite
  rewrite-keeps payload i pins goes_on h = elim (Option-cases (parse_payload json payload)) [
    | inl e ↦ rw (e, rewrite) h
    | inr ((top, kind), e) ↦ rw (e, rewrite, goes_on top kind e) (rewrite_object-keeps top i pins h)
  ]

  -- The pins after a list of payloads.
  abbrev pub pins_after : List Bytes → Pins → Pins
  pins_after [] pins = pins
  pins_after (payload ∷ later) pins = pins_after later (rewrite json payload pins).1

  pins_after-keeps :
      (payloads : List Bytes) (i : ℤ) (pins : Pins) {old : Bytes}
      → All Continues payloads
      → pinned_at pins i ≡ some old
      → pinned_at (pins_after payloads pins) i ≡ some old
  pins_after-keeps [] i pins go_on h = h
  pins_after-keeps (payload ∷ later) i pins go_on h =
      pins_after-keeps later i (rewrite json payload pins).1 go_on.1
        (rewrite-keeps payload i pins go_on.0 h)

  rewrite_object-event :
      {payload : Bytes} {i : ℤ} {ids : Ids} (e : IsEvent payload i ids) (pins : Pins)
      → rewrite_object json e.top pins ≡ rewrite_per_item json e.top i pins
  unfolding rewrite_object
  rewrite_object-event e pins = rw (e.placed, e.decoded, rewrite_object) refl

  -- The first id of an item is pinned, whether or not it was before.
  rewrite_per_item-first :
      (top : Object) (i : ℤ) (pins : Pins) {ids : Ids} {id : Bytes}
      → ids_of json top ≡ some ids
      → first_id json ids.item_id ids.top_id ≡ some id
      → pinned_at pins i ≡ none
      → pinned_at (rewrite_per_item json top i pins).1 i ≡ some id
  unfolding rewrite_per_item
  rewrite_per_item-first top i pins {id = id} read first free =
      rw (read, first, free, rewrite_per_item) (pinned_at_same pins i id)

  rewrite_per_item-ShowsOnly :
      (top : Object) (i : ℤ) (pins : Pins) {ids : Ids} {pinned : Bytes}
      → ids_of json top ≡ some ids
      → pinned_at pins i ≡ some pinned
      → ShowsOnly json pinned (sent json top (rewrite_per_item json top i pins).0)
  unfolding rewrite_per_item
  rewrite_per_item-ShowsOnly top i pins {ids} {pinned} read taken =
      elim (Option-cases (first_id json ids.item_id ids.top_id)) [
        | inl e ↦ rw (read, e, rewrite_per_item) (no_ids-ShowsOnly json pinned ids top read e)
        | inr (id, e) ↦
            rw (read, e, taken, rewrite_per_item) (repin-ShowsOnly json pinned ids top read)
      ]

  payload_of-IsObject :
      (payload : Bytes) (top : Object) (r : Rewrite)
      → json.unmarshal_object payload ≡ some top
      → IsObject json (sent json top r) (payload_of json payload r)
  unfolding marshal_raw_object
  payload_of-IsObject payload top unchanged h = inl h
  payload_of-IsObject payload top uncertain h = inl h
  payload_of-IsObject payload top (changed new) h = inr refl

  parse_payload-object :
      (payload : Bytes) {top : Object} {kind : Bytes}
      → parse_payload json payload ≡ some (top, kind)
      → json.unmarshal_object payload ≡ some top
  unfolding parse_payload
  parse_payload-object payload h =
      let (found, e, h1) = >>=-eq-some (json.unmarshal_object payload) _ h in
      let (kind, e1, h2) =
        >>=-eq-some (optional_raw_string json found (codes "type"))
          (λ kind. some (found, kind_of json kind)) h1 in
      e ∙ ap (λ t. some t.0) (some-injective _ _ h2)

  rewrite-parsed :
      (payload : Bytes) (pins : Pins) {top : Object} {kind : Bytes}
      → parse_payload json payload ≡ some (top, kind)
      → rewrite json payload pins ≡ (
        payload_of json payload (rewrite_object json top pins).0,
        if is_turn_terminal kind then [] else (rewrite_object json top pins).1,
      )
  unfolding rewrite
  rewrite-parsed payload pins h = rw (h, rewrite) refl

  -- Takes a stabilizer that has no id for an output index, an event for that index that has an id and
  -- ends no turn, payloads that end no turn, and another event for the index. What is sent for the
  -- second event is an object in which the item's id and the event's `item_id`, where they are there,
  -- are the first event's id.
  pub rewrite-stable :
      (payload : Bytes) (between : List Bytes) (later : Bytes) (i : ℤ) (pins : Pins)
      {ids ids' : Ids} {id : Bytes}
      → IsEvent payload i ids
      → first_id json ids.item_id ids.top_id ≡ some id
      → pinned_at pins i ≡ none
      → All Continues (payload ∷ between)
      → IsEvent later i ids'
      → (sent_object : Object) × IsObject json sent_object
          (rewrite json later (pins_after (payload ∷ between) pins)).0
        × ShowsOnly json id sent_object
  rewrite-stable payload between later i pins {id = id} first has_id free go_on event =
      let pins' = pins_after (payload ∷ between) pins in
      let taken : pinned_at (rewrite json payload pins).1 i ≡ some id =
        rw (rewrite-parsed payload pins first.parsed, go_on.0 first.top first.kind first.parsed)
          (ap (λ t. pinned_at t.1 i) (rewrite_object-event first pins)
            ∙ rewrite_per_item-first first.top i pins first.read has_id free) in
      let kept = pins_after-keeps between i (rewrite json payload pins).1 go_on.1 taken in
      let r = (rewrite_object json event.top pins').0 in
      (
        sent json event.top r,
        subst (λ t. IsObject json (sent json event.top r) t)
            (sym (ap (λ t. t.0) (rewrite-parsed later pins' event.parsed)))
            (payload_of-IsObject later event.top r (parse_payload-object later event.parsed)),
        subst (λ t. ShowsOnly json id (sent json event.top t.0))
            (sym (rewrite_object-event event pins'))
            (rewrite_per_item-ShowsOnly event.top i pins' event.read kept),
      )
