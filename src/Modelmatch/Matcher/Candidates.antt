-- ===== src/Modelmatch/Matcher/Candidates.antt =====
-- What the indexes of `New` (internal/usage/modelmatch/matcher.go) say of the candidates.
use copilotd.Prelude.{
  ℕ, ◌≡◌, ◌≢◌, refl, sym, ap, ◌∙◌, ◌⊎◌, inl, inr, arith, List, [], ◌∷◌, Option, none, some, ℤ, pos,
  ltb_ℤ, ◌-ℤ◌, ok, ok_injective, true, false, Bool-cases, Option-cases, Bytes, equal, equal_refl,
  equal_sound, ne_of_equal, length,
}
use copilotd.Modelmatch.Matcher.{
  Identity, Selection, Index, lookup, assign, same_identity, add_selection,
}
use mathlib.Core.List.{Memᴰ}
use mathlib.Core.List.Memᴰ
use mathlib.Core.Path.{subst}
use mathlib.Core.Option.{some-injective}

identity_ext : (a b : Identity) → a.provider ≡ b.provider → a.model ≡ b.model → a ≡ b
identity_ext a b p m = λ i. record { provider = p i; model = m i }

same_identity_sound : (a b : Identity) → same_identity a b ≡ true → a ≡ b
unfolding same_identity
same_identity_sound a b h = elim (Bool-cases (equal a.provider b.provider)) [
  | inl p ↦ elim (Bool-cases (equal a.model b.model)) [
    | inl m ↦ identity_ext a b (equal_sound a.provider b.provider p) (equal_sound a.model b.model m)
    | inr m ↦ ground arith
  ]
  | inr p ↦ ground arith
]

same_identity_refl : (a : Identity) → same_identity a a ≡ true
unfolding same_identity
same_identity_refl a = rw (equal_refl a.provider, equal_refl a.model) refl

ne_of_same_identity : (a b : Identity) → same_identity a b ≡ false → a ≢ b
ne_of_same_identity a b h e = cc (ap (λ x. same_identity a x) e, same_identity_refl a)

lookup-assign-same :
    (ix : Index) (key : Bytes) (s t : Selection)
    → lookup ix key ≡ some t
    → lookup (assign ix key s) key ≡ some s
unfolding lookup assign
lookup-assign-same [] key s t h = cc
lookup-assign-same ((k, u) ∷ rest) key s t h = elim (Bool-cases (equal k key)) [
  | inl e ↦ rw (e, e) refl
  | inr e ↦ rw (e, e) (lookup-assign-same rest key s t (rw e at h))
]

lookup-assign-other :
    (ix : Index) (key k : Bytes) (s : Selection)
    → equal key k ≡ false
    → lookup (assign ix key s) k ≡ lookup ix k
unfolding lookup assign
lookup-assign-other [] key k s h = refl
lookup-assign-other ((k0, u) ∷ rest) key k s h = elim (Bool-cases (equal k0 key)) [
  | inl e ↦ rw e (rw (subst (λ x. equal x k ≡ false) (sym (equal_sound k0 key e)) h) refl)
  | inr e ↦ rw e (rw (lookup-assign-other rest key k s h) refl)
]

-- The additions made to an index, as pairs of a key and a candidate.
abbrev pub Additions : Type 0
Additions = List (Bytes × Identity)

-- What an index says of a key: a candidate added under it, and whether another one was.
pub record Shows (k : Bytes) (es : Additions) (o : Option Selection) : Type 0 where
  pub added : (s : Selection) → o ≡ some s → Memᴰ (k, s.identity) es
  pub reached :
      (c : Identity)
      → Memᴰ (k, c) es
      → (s : Selection) × (o ≡ some s) × ((s.is_ambiguous ≡ true) ⊎ (s.identity ≡ c))
  pub rival :
      (s : Selection)
      → o ≡ some s
      → s.is_ambiguous ≡ true
      → (d : Identity) × Memᴰ (k, d) es × (d ≢ s.identity)

abbrev pub Represents : Index → Additions → Type 0
Represents ix es = (k : Bytes) → Shows k es (lookup ix k)

tail_of :
    (k key : Bytes) (c d : Identity) (es : Additions)
    → key ≢ k
    → Memᴰ (k, d) ((key, c) ∷ es)
    → Memᴰ (k, d) es
tail_of k key c d es h (Memᴰ.head e) = absurd (h (sym (ap (λ x. x.0) e)))
tail_of k key c d es h (Memᴰ.tail m) = m

Shows-other :
    (k key : Bytes) (c : Identity) (es : Additions) (o : Option Selection)
    → key ≢ k
    → Shows k es o
    → Shows k ((key, c) ∷ es) o
Shows-other k key c es o h w = record {
  added = λ s e. Memᴰ.tail (w.added s e);
  reached = λ d m. w.reached d (tail_of k key c d es h m);
  rival = λ s e a. let (d, m, n) = w.rival s e a in (d, Memᴰ.tail m, n);
}

first_reached :
    (k : Bytes) (c d : Identity) (es : Additions)
    → Shows k es none
    → Memᴰ (k, d) ((k, c) ∷ es)
    → c ≡ d
first_reached k c d es w (Memᴰ.head e) = sym (ap (λ x. x.1) e)
first_reached k c d es w (Memᴰ.tail m) = let (s, e, r) = w.reached d m in cc e

Shows-first :
    (k : Bytes) (c : Identity) (es : Additions)
    → Shows k es none
    → Shows k ((k, c) ∷ es) (some (record { identity = c; is_ambiguous = false }))
Shows-first k c es w = record {
  added = λ s e. Memᴰ.head (ap (λ x. (k, x.identity)) (sym (some-injective _ _ e)));
  reached = λ d m.
      (record { identity = c; is_ambiguous = false }, refl, inr (first_reached k c d es w m));
  rival = λ s e a. cc (ap (λ x. x.is_ambiguous) (some-injective _ _ e));
}

again_reached :
    (k : Bytes) (c d : Identity) (es : Additions) (s : Selection)
    → Shows k es (some s)
    → s.identity ≡ c
    → Memᴰ (k, d) ((k, c) ∷ es)
    → (t : Selection) × (some s ≡ some t) × ((t.is_ambiguous ≡ true) ⊎ (t.identity ≡ d))
again_reached k c d es s w h (Memᴰ.head e) = (s, refl, inr (h ∙ sym (ap (λ x. x.1) e)))
again_reached k c d es s w h (Memᴰ.tail m) = w.reached d m

Shows-again :
    (k : Bytes) (c : Identity) (es : Additions) (s : Selection)
    → Shows k es (some s)
    → s.identity ≡ c
    → Shows k ((k, c) ∷ es) (some s)
Shows-again k c es s w h = record {
  added = λ t e. Memᴰ.tail (w.added t e);
  reached = λ d m. again_reached k c d es s w h m;
  rival = λ t e a. let (d, m, n) = w.rival t e a in (d, Memᴰ.tail m, n);
}

Shows-clash :
    (k : Bytes) (c : Identity) (es : Additions) (s : Selection)
    → Shows k es (some s)
    → s.identity ≢ c
    → Shows k ((k, c) ∷ es) (some (record s { is_ambiguous = true }))
Shows-clash k c es s w h = record {
  added = λ t e.
      Memᴰ.tail (
        subst (λ x. Memᴰ (k, x) es) (ap (λ x. x.identity) (some-injective _ _ e)) (w.added s refl));
  reached = λ d m. (record s { is_ambiguous = true }, refl, inl refl);
  rival = λ t e a.
      (c, Memᴰ.head refl, λ same. h (ap (λ x. x.identity) (some-injective _ _ e) ∙ sym same));
}

-- An index with an addition under one key, from what it says of that key and of each other one.
by_key :
    (ix jx : Index) (key : Bytes) (c : Identity) (es : Additions)
    → Represents ix es
    → Shows key ((key, c) ∷ es) (lookup jx key)
    → ((k : Bytes) → equal key k ≡ false → lookup jx k ≡ lookup ix k)
    → Represents jx ((key, c) ∷ es)
by_key ix jx key c es w at_key elsewhere k = elim (Bool-cases (equal key k)) [
  | inl e ↦ subst (λ x. Shows x ((key, c) ∷ es) (lookup jx x)) (equal_sound key k e) at_key
  | inr e ↦ rw (elsewhere k e) (Shows-other k key c es (lookup ix k) (ne_of_equal key k e) (w k))
]

first_addition :
    (ix : Index) (key : Bytes) (c : Identity) (es : Additions)
    → Represents ix es
    → lookup ix key ≡ none
    → Represents ((key, record { identity = c; is_ambiguous = false }) ∷ ix) ((key, c) ∷ es)
unfolding lookup
first_addition ix key c es w e =
    by_key ix ((key, record { identity = c; is_ambiguous = false }) ∷ ix) key c es w
      (rw (equal_refl key) (Shows-first key c es (rw e at (w key)))) (λ k h. rw h refl)

addition_again :
    (ix : Index) (key : Bytes) (c : Identity) (es : Additions) (s : Selection)
    → Represents ix es
    → lookup ix key ≡ some s
    → s.identity ≡ c
    → Represents ix ((key, c) ∷ es)
addition_again ix key c es s w e same =
    by_key ix ix key c es w (rw e (Shows-again key c es s (rw e at (w key)) same)) (λ k h. refl)

addition_clash :
    (ix : Index) (key : Bytes) (c : Identity) (es : Additions) (s : Selection)
    → Represents ix es
    → lookup ix key ≡ some s
    → s.identity ≢ c
    → Represents (assign ix key (record s { is_ambiguous = true })) ((key, c) ∷ es)
addition_clash ix key c es s w e other =
    by_key ix (assign ix key (record s { is_ambiguous = true })) key c es w
      (rw (lookup-assign-same ix key (record s { is_ambiguous = true }) s e)
        (Shows-clash key c es s (rw e at (w key)) other))
      (λ k h. lookup-assign-other ix key k (record s { is_ambiguous = true }) h)

pub add_selection-Represents :
    {C : Type 0} (limit : ℤ) (ix : Index) (n : ℕ) (key : Bytes) (c : Identity) (es : Additions)
    (r : Index × ℕ)
    → Represents ix es
    → add_selection {C = C} limit ix n key c ≡ ok r
    → Represents r.0 ((key, c) ∷ es)
unfolding add_selection
add_selection-Represents limit ix n key c es r w h = elim (Option-cases (lookup ix key)) [
  | inl e ↦ elim (Bool-cases (ltb_ℤ (limit -ℤ pos n) (pos (length key)))) [
    | inl over ↦ cc (rw (e, over, add_selection) at h)
    | inr fits ↦
        becomes (ok_injective (rw (e, fits, add_selection) at h)) (first_addition ix key c es w e)
  ]
  | inr (s, e) ↦ elim (Bool-cases (same_identity s.identity c)) [
    | inl same ↦
        becomes (ok_injective (rw (e, same, add_selection) at h))
          (addition_again ix key c es s w e (same_identity_sound s.identity c same))
    | inr other ↦
        becomes (ok_injective (rw (e, other, add_selection) at h))
          (addition_clash ix key c es s w e (ne_of_same_identity s.identity c other))
  ]
]
  where
    becomes :
        {jx : Index} {m : ℕ}
        → (jx, m) ≡ r
        → Represents jx ((key, c) ∷ es)
        → Represents r.0 ((key, c) ∷ es)
    becomes e v = subst (λ x. Represents x.0 ((key, c) ∷ es)) e v

pub empty-Represents : Represents [] []
unfolding lookup
empty-Represents k = record {
  added = λ s e. cc e;
  reached = λ c m. absurd (Memᴰ.not-nil m);
  rival = λ s e a. cc e;
}
