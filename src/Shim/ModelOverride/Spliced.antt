-- ===== src/Shim/ModelOverride/Spliced.antt =====
-- What an override changes: one value, by one rule.
use copilotd.Prelude.{
  ℕ, Bool, true, false, List, [], ◌∷◌, ◌++◌, Option, none, some, Bytes, codes, equal, equal_sound,
  equal_refl, ne_of_equal, ◌≡◌, ◌≢◌, refl, sym, ap, ◌∙◌, inl, inr, Bool-cases, Option-cases, take,
  drop,
}
use mathlib.Core.Path.{subst}
use mathlib.Core.Option.{some-injective}
use mathlib.Core.Logic.{◌⊎◌}
use copilotd.Shim.ModelOverride.{
  Json, Members, decode, scan_members, target_of, substituted, is_admitted, is_create, with_members,
  rewrite,
}
use copilotd.Shim.ModelOverride.Scanned.{
  spans, scanned, IsObject, Named, scan_members-of, scan_members-IsObject, decode-of, decode-Named,
}

-- Over HTTP every payload is admitted; over WebSocket the one "type" must be "response.create".
abbrev pub IsCreate : Json → Bytes → Bool → Type 0
IsCreate json payload create =
    create ≡ true
    → (start : ℕ) × (finish : ℕ) × Named json payload (codes "type") start finish
        (codes "response.create")

-- The one model of an object, which a rule maps to another one.
pub record Matched (json : Json) (rules : List (Bytes × Bytes)) (payload : Bytes) (create : Bool)
    (start finish : ℕ) (model target : Bytes) : Type 0 where
  pub object : IsObject json payload
  pub created : IsCreate json payload create
  pub named : Named json payload (codes "model") start finish model
  pub mapped : target_of rules model ≡ some target
  pub changed : target ≢ model

-- Whether the payload is rewritten, and to what.
abbrev pub Rewritten : Json → List (Bytes × Bytes) → Bytes → Bool → Bytes → Type 0
Rewritten json rules payload create out =
    (((start finish : ℕ) (model target : Bytes)
        → ¬ Matched json rules payload create start finish model target)
      × (out ≡ payload))
    ⊎ ((start : ℕ) × (finish : ℕ) × (model : Bytes) × (target : Bytes) × Matched json rules payload
          create start finish model target
        × (out ≡ take start payload ++ json.quote target ++ drop finish payload))

admitted-of :
    (json : Json) (payload : Bytes) (create : Bool)
    → IsCreate json payload create
    → is_admitted json (scanned (json.decoding payload).rounds) payload create ≡ true
admitted-of json payload false created = refl
admitted-of json payload true created =
    let (start, finish, named) = created refl in
    rw (decode-of json payload (codes "type") start finish _ named)
      (equal_refl (codes "response.create"))

is_create_only : (o : Option Bytes) → is_create o ≡ true → o ≡ some (codes "response.create")
is_create_only none h = cc h
is_create_only (some event_type) h = ap some (equal_sound event_type (codes "response.create") h)

admitted-IsCreate :
    (json : Json) (payload : Bytes) (create : Bool)
    → is_admitted json (scanned (json.decoding payload).rounds) payload create ≡ true
    → IsCreate json payload create
admitted-IsCreate json payload false h = λ e. cc e
admitted-IsCreate json payload true h = λ e. (
  _,
  _,
  decode-Named json payload (spans (codes "type") (json.decoding payload).rounds) _
      (is_create_only _ h),
)

module _ (json : Json) (rules : List (Bytes × Bytes)) (payload : Bytes) (create : Bool) where
  abbrev found : Members
  found = scanned (json.decoding payload).rounds

  -- From a model that is read.
  substituted-Rewritten :
      (model : Bytes)
      → IsObject json payload
      → IsCreate json payload create
      → decode json found.model payload ≡ some model
      → Rewritten json rules payload create
          (substituted json found.model payload model (target_of rules model))
  substituted-Rewritten model object created read =
      let same_model : (start finish : ℕ) (model' target' : Bytes)
          → Matched json rules payload create start finish model' target'
          → model ≡ model' =
        λ start finish model' target' m.
          some-injective _ _
            (sym read ∙ decode-of json payload (codes "model") start finish model' m.named) in
      elim (Option-cases (target_of rules model)) [
        | inl unmapped ↦ inl (
          (λ start finish model' target' m.
              cc (same_model start finish model' target' m, unmapped, m.mapped)),
          rw unmapped refl,
        )
        | inr (target, mapped) ↦ elim (Bool-cases (equal target model)) [
          | inl same ↦ inl (
            (λ start finish model' target' m. m.changed (
                cc (
                  same_model start finish model' target' m,
                  mapped,
                  m.mapped,
                  equal_sound target model same,
                ))),
            rw (mapped, same) refl,
          )
          | inr new ↦ inr (
            found.model.start,
            found.model.finish,
            model,
            target,
            record {
              object = object;
              created = created;
              named =
                  decode-Named json payload (spans (codes "model") (json.decoding payload).rounds)
                    model read;
              mapped = mapped;
              changed = ne_of_equal target model new;
            },
            rw (mapped, new) refl,
          )
        ]
      ]

  -- From the members of an object.
  with_members-Rewritten :
      IsObject json payload
      → Rewritten json rules payload create (with_members json rules payload create (some found))
  with_members-Rewritten object = elim (Bool-cases (is_admitted json found payload create)) [
    | inr other ↦ inl (
      (λ start finish model target m. cc (other, admitted-of json payload create m.created)),
      rw other refl,
    )
    | inl admitted ↦ elim (Option-cases (decode json found.model payload)) [
      | inl unread ↦ inl (
        (λ start finish model target m.
            cc (unread, decode-of json payload (codes "model") start finish model m.named)),
        rw (admitted, unread) refl,
      )
      | inr (model, read) ↦
          let opened : substituted json found.model payload model (target_of rules model)
              ≡ with_members json rules payload create (some found) =
            rw (admitted, read) refl in
          subst (Rewritten json rules payload create) opened (
            substituted-Rewritten model object (admitted-IsCreate json payload create admitted)
              read)
    ]
  ]

  scanned-Rewritten :
      (o : Option Members)
      → scan_members json payload ≡ o
      → Rewritten json rules payload create (with_members json rules payload create o)
  scanned-Rewritten none e =
      inl ((λ start finish model target m. cc (e, scan_members-of json payload m.object)), refl)
  scanned-Rewritten (some members) e =
      let object = scan_members-IsObject json payload e in
      subst (λ o. Rewritten json rules payload create (with_members json rules payload create o))
        (sym (scan_members-of json payload object) ∙ e) (with_members-Rewritten object)

-- A rewrite replaces the bytes of the one top-level model by the quoted target of a rule, and no other
-- byte. It does so exactly where the payload is UTF-8 and one JSON object with nothing behind it, the
-- model stands in it once and is a text that a rule maps to another one, and, for a client message, the
-- one type is "response.create". Otherwise it leaves the payload as it is.
pub rewrite-Rewritten :
    (json : Json) (rules : List (Bytes × Bytes)) (payload : Bytes) (create : Bool)
    → Rewritten json rules payload create (rewrite json rules payload create)
unfolding rewrite target_of
rewrite-Rewritten json [] payload create = inl ((λ start finish model target m. cc m.mapped), refl)
rewrite-Rewritten json (rule ∷ rules) payload create =
    scanned-Rewritten json (rule ∷ rules) payload create (scan_members json payload) refl
