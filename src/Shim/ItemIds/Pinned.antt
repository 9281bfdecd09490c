-- ===== src/Shim/ItemIds/Pinned.antt =====
-- Once an output index has an id, every event for that index shows it, until the turn ends.
use copilotd.Prelude.{
  true, false, [], ◌∷◌, Option, none, some, Bytes, codes, equal, equal_sound, equal_refl, ◌≡◌, refl,
  sym, ap, ◌∙◌, ◌⊎◌, inl, inr, Bool-cases, Option-cases,
}
use copilotd.Prelude.Options.{>>=-eq-some}
use mathlib.Core.Option.{some-injective}
use mathlib.Core.Path.{subst}
use copilotd.Shim.Json.{Json, Object, member, put}
use copilotd.Shim.ItemIds.{
  Rewrite, unchanged, changed, uncertain, Ids, present_string, marshal_raw_object,
  decode_raw_string, optional_raw_string, item_of, ids_of, repin_item, repin_top, repin, first_id,
}

pub member-put-same : (o : Object) (key raw : Bytes) → member (put o key raw) key ≡ some raw
unfolding member put
member-put-same [] key raw = rw (equal_refl key) refl
member-put-same ((k, old) ∷ rest) key raw = elim (Bool-cases (equal k key)) [
  | inl e ↦ rw (e, e) refl
  | inr e ↦ rw (e, e) (member-put-same rest key raw)
]

pub member-put-other :
    (o : Object) (key other raw : Bytes)
    → equal key other ≡ false
    → member (put o key raw) other ≡ member o other
unfolding member put
member-put-other [] key other raw h = rw h refl
member-put-other ((k, old) ∷ rest) key other raw h = elim (Bool-cases (equal k key)) [
  | inl e ↦
      let differs : equal k other ≡ false = ap (λ t. equal t other) (equal_sound k key e) ∙ h in
      rw (e, differs) refl
  | inr e ↦ rw (e, member-put-other rest key other raw h) refl
]

module _ (json : Json) where
  -- A raw member that is the id: it decodes to it, or is its text.
  abbrev pub IsId : Bytes → Bytes → Type 0
  IsId pinned raw = (decode_raw_string json raw ≡ some pinned) ⊎ (raw ≡ json.marshal_string pinned)

  -- A raw member that is the object: it decodes to it, or is its text.
  abbrev pub IsObject : Object → Bytes → Type 0
  IsObject o raw = (json.unmarshal_object raw ≡ some o) ⊎ (raw ≡ marshal_raw_object json o)

  -- Every id that the event's object shows is the pinned one.
  pub record ShowsOnly (pinned : Bytes) (top : Object) : Type 0 where
    pub own : (raw : Bytes) → member top (codes "item_id") ≡ some raw → IsId pinned raw
    pub item :
        (raw : Bytes)
        → member top (codes "item") ≡ some raw
        → (o : Object) × IsObject o raw
          × ((id : Bytes) → member o (codes "id") ≡ some id → IsId pinned id)

  -- The object of the event that is sent on.
  abbrev pub sent : Object → Rewrite → Object
  sent top unchanged = top
  sent top uncertain = top
  sent top (changed new) = new

  optional_cases :
      (o : Object) (key : Bytes) (raw : Bytes) {found : Option Bytes}
      → optional_raw_string json o key ≡ some found
      → member o key ≡ some raw
      → (value : Bytes) × (found ≡ some value) × (decode_raw_string json raw ≡ some value)
  unfolding optional_raw_string
  optional_cases o key raw h e = elim (Option-cases (decode_raw_string json raw)) [
    | inl d ↦ cc (rw (e, optional_raw_string, d) at h)
    | inr (value, d) ↦ (value, sym (some-injective _ _ (rw (e, optional_raw_string, d) at h)), d)
  ]

  item_cases :
      (top : Object) (raw : Bytes) {o : Object}
      → item_of json top ≡ some o
      → member top (codes "item") ≡ some raw
      → json.unmarshal_object raw ≡ some o
  item_cases top raw h e = rw (e, item_of) at h

  parts :
      (top : Object) {ids : Ids}
      → ids_of json top ≡ some ids
      → (item_of json top ≡ some ids.item)
        × (optional_raw_string json ids.item (codes "id") ≡ some ids.item_id)
        × (optional_raw_string json top (codes "item_id") ≡ some ids.top_id)
  unfolding ids_of
  parts top h =
      let (item, e, h1) = >>=-eq-some _ _ h in
      let (item_id, e1, h2) = >>=-eq-some _ _ h1 in
      let (top_id, e2, h3) = >>=-eq-some _ _ h2 in
      let same = some-injective _ _ h3 in
      (
        e ∙ ap (λ t. some t.item) same,
        ap (λ t. optional_raw_string json t.item (codes "id")) (sym same)
            ∙ e1
            ∙ ap (λ t. some t.item_id) same,
        e2 ∙ ap (λ t. some t.top_id) same,
      )

  -- What a member `item` must be.
  abbrev ItemShows : Bytes → Object → Type 0
  ItemShows pinned top =
      (raw : Bytes)
      → member top (codes "item") ≡ some raw
      → (o : Object) × IsObject o raw
        × ((id : Bytes) → member o (codes "id") ≡ some id → IsId pinned id)

  abbrev OwnShows : Bytes → Object → Type 0
  OwnShows pinned top = (raw : Bytes) → member top (codes "item_id") ≡ some raw → IsId pinned raw

  -- An id member that is left alone is the pinned id already.
  abbrev Settled : Bytes → Option Bytes → Type 0
  Settled pinned found = (id : Bytes) → found ≡ some id → id ≡ pinned

  repin_item_cases :
      (pinned : Bytes) (ids : Ids) (top : Object)
      → ((repin_item json pinned ids top ≡ (top, false)) × Settled pinned ids.item_id)
        ⊎ (repin_item json pinned ids top ≡ (
          put top
              (codes "item")
              (marshal_raw_object json (put ids.item (codes "id") (json.marshal_string pinned))),
          true,
        ))
  unfolding repin_item
  repin_item_cases pinned ids top = elim (Option-cases ids.item_id) [
    | inl e ↦ inl (rw (e, repin_item) refl, λ id found. cc (e, found))
    | inr (id, e) ↦ elim (Bool-cases (equal id pinned)) [
      | inl same ↦ inl (
        rw (e, repin_item, same) refl,
        λ other found. some-injective _ _ (sym found ∙ e) ∙ equal_sound id pinned same,
      )
      | inr differs ↦ inr (rw (e, repin_item, differs) refl)
    ]
  ]

  repin_top_cases :
      (pinned : Bytes) (ids : Ids) (top : Object)
      → ((repin_top json pinned ids top ≡ (top, false)) × Settled pinned ids.top_id)
        ⊎ (repin_top json pinned ids top
            ≡ (put top (codes "item_id") (json.marshal_string pinned), true))
  unfolding repin_top
  repin_top_cases pinned ids top = elim (Option-cases ids.top_id) [
    | inl e ↦ inl (rw (e, repin_top) refl, λ id found. cc (e, found))
    | inr (id, e) ↦ elim (Bool-cases (equal id pinned)) [
      | inl same ↦ inl (
        rw (e, repin_top, same) refl,
        λ other found. some-injective _ _ (sym found ∙ e) ∙ equal_sound id pinned same,
      )
      | inr differs ↦ inr (rw (e, repin_top, differs) refl)
    ]
  ]

  decodes :
      (pinned : Bytes) (o : Object) (key raw : Bytes) {found : Option Bytes}
      → optional_raw_string json o key ≡ some found
      → Settled pinned found
      → member o key ≡ some raw
      → IsId pinned raw
  decodes pinned o key raw h settled e =
      let (value, is_value, decoded) = optional_cases o key raw h e in
      inl (decoded ∙ ap some (settled value is_value))

  put-IsId :
      (pinned : Bytes) (o : Object) (key raw : Bytes)
      → member (put o key (json.marshal_string pinned)) key ≡ some raw
      → IsId pinned raw
  put-IsId pinned o key raw e =
      inr (sym (some-injective _ _ (sym (member-put-same o key (json.marshal_string pinned)) ∙ e)))

  repin_item-shows :
      (pinned : Bytes) (ids : Ids) (top : Object)
      → ids_of json top ≡ some ids
      → ItemShows pinned (repin_item json pinned ids top).0
        × (member (repin_item json pinned ids top).0 (codes "item_id")
            ≡ member top (codes "item_id"))
  unfolding equal
  repin_item-shows pinned ids top h =
      let (item, id_of, own) = parts top h in
      elim (repin_item_cases pinned ids top) [
        | inl (e, settled) ↦ rw e (
          λ raw found. (
            ids.item,
            inl (item_cases top raw item found),
            λ id shown. decodes pinned ids.item (codes "id") id id_of settled shown,
          ),
          refl,
        )
        | inr e ↦
            let new = put ids.item (codes "id") (json.marshal_string pinned) in
            rw e (
              λ raw found. (
                new,
                inr (
                    some-injective _ _ (
                      sym found
                      ∙ member-put-same top (codes "item") (marshal_raw_object json new))),
                λ id shown. put-IsId pinned ids.item (codes "id") id shown,
              ),
              member-put-other top (codes "item") (codes "item_id") (marshal_raw_object json new)
                  refl,
            )
      ]

  repin_top-shows :
      (pinned : Bytes) (ids : Ids) (top : Object)
      → optional_raw_string json top (codes "item_id") ≡ some ids.top_id
      → OwnShows pinned (repin_top json pinned ids top).0
        × (member (repin_top json pinned ids top).0 (codes "item") ≡ member top (codes "item"))
  unfolding equal
  repin_top-shows pinned ids top own = elim (repin_top_cases pinned ids top) [
    | inl (e, settled) ↦
        rw e (λ raw found. decodes pinned top (codes "item_id") raw own settled found, refl)
    | inr e ↦ rw e (
      λ raw found. put-IsId pinned top (codes "item_id") raw found,
      member-put-other top (codes "item_id") (codes "item") (json.marshal_string pinned) refl,
    )
  ]

  optional-member :
      (o o' : Object) (key : Bytes)
      → member o key ≡ member o' key
      → optional_raw_string json o key ≡ optional_raw_string json o' key
  unfolding optional_raw_string
  optional-member o o' key h =
      ap
        (λ t. elim t [
          | none ↦ some none
          | some raw ↦ present_string json (decode_raw_string json raw)
        ])
        h

  sent-repin :
      (pinned : Bytes) (ids : Ids) (top : Object)
      → sent top (repin json pinned ids top)
        ≡ (repin_top json pinned ids (repin_item json pinned ids top).0).0
  unfolding repin
  sent-repin pinned ids top = elim (repin_item_cases pinned ids top) [
    | inl (e, settled) ↦ elim (repin_top_cases pinned ids top) [
      | inl (e', settled') ↦ rw (e, e') refl
      | inr e' ↦ rw (e, e') refl
    ]
    | inr e ↦ rw e refl
  ]

  pub repin-ShowsOnly :
      (pinned : Bytes) (ids : Ids) (top : Object)
      → ids_of json top ≡ some ids
      → ShowsOnly pinned (sent top (repin json pinned ids top))
  repin-ShowsOnly pinned ids top h =
      let first = (repin_item json pinned ids top).0 in
      let (item, kept) = repin_item-shows pinned ids top h in
      let own = optional-member first top (codes "item_id") kept ∙ (parts top h).2 in
      let (shown, kept') = repin_top-shows pinned ids first own in
      subst (λ t. ShowsOnly pinned t) (sym (sent-repin pinned ids top))
        (record { own = shown; item = λ raw found. item raw (sym kept' ∙ found) })

  first_id-none : (a b : Option Bytes) → first_id json a b ≡ none → (a ≡ none) × (b ≡ none)
  first_id-none none b h = (refl, h)
  first_id-none (some id) b h = cc h

  -- An event without an id shows none.
  pub no_ids-ShowsOnly :
      (pinned : Bytes) (ids : Ids) (top : Object)
      → ids_of json top ≡ some ids
      → first_id json ids.item_id ids.top_id ≡ none
      → ShowsOnly pinned top
  no_ids-ShowsOnly pinned ids top h missing =
      let (item, id_of, own) = parts top h in
      let absent = first_id-none ids.item_id ids.top_id missing in
      record {
        own = λ raw found.
            decodes pinned top (codes "item_id") raw own (λ id e. cc (absent.1, e)) found;
        item = λ raw found. (
          ids.item,
          inl (item_cases top raw item found),
          λ id shown.
              decodes pinned ids.item (codes "id") id id_of (λ id e. cc (absent.0, e)) shown,
        );
      }
