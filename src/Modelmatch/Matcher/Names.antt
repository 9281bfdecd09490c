-- ===== src/Modelmatch/Matcher/Names.antt =====
-- Which candidates a lookup key of internal/usage/modelmatch/matcher.go names.
use copilotd.Prelude.{
  ℕ, ◌≡◌, refl, sym, ap, ◌⊎◌, inl, inr, arith, List, [], ◌∷◌, ◌++◌, Option, none, some, Bool, true,
  false, not, ◌&&◌, ◌==◌, Bool-cases, Bytes, leb, length, take, drop, equal, equal_sound, codes,
  if◌then◌else◌,
}
use copilotd.Modelmatch.Matcher.{
  Identity, is_one_of, recognized, recognized_providers, lookup_key, scope_in, reported_scope,
  strip_date,
}
use copilotd.Modelmatch.Matcher.Candidates.{Additions}
use copilotd.Modelmatch.Matcher.Built.{
  Ledger, enter, enter_both, enter_dated, enter_candidate, enter_candidates,
}
use mathlib.Core.List.{Memᴰ}
use mathlib.Core.Path.{subst}

-- No byte of the text is the separator of a key.
unfoldable pub is_plain : Bytes → Bool
is_plain [] = true
is_plain (b ∷ bs) = not (b == 0) && is_plain bs

one_of_is_plain :
    (ps : List Bytes) (p : Bytes)
    → ((q : Bytes) → Memᴰ q ps → is_plain q ≡ true)
    → is_one_of ps p ≡ true
    → is_plain p ≡ true
unfolding is_one_of
one_of_is_plain [] p a h = cc h
one_of_is_plain (q ∷ qs) p a h = elim (Bool-cases (equal q p)) [
  | inl e ↦ subst (λ x. is_plain x ≡ true) (equal_sound q p e) (a q (Memᴰ.head refl))
  | inr e ↦ one_of_is_plain qs p (λ r m. a r (Memᴰ.tail m)) (rw (e, is_one_of) at h)
]

providers_plain : (q : Bytes) → Memᴰ q recognized_providers → is_plain q ≡ true
unfolding is_plain
providers_plain q (Memᴰ.head e) = rw e refl
providers_plain q (Memᴰ.tail (Memᴰ.head e)) = rw e refl
providers_plain q (Memᴰ.tail (Memᴰ.tail (Memᴰ.head e))) = rw e refl
providers_plain q (Memᴰ.tail (Memᴰ.tail (Memᴰ.tail (Memᴰ.head e)))) = rw e refl
providers_plain q (Memᴰ.tail (Memᴰ.tail (Memᴰ.tail (Memᴰ.tail m)))) = elim m [ ]

pub recognized-is_plain : (p : Bytes) → recognized p ≡ true → is_plain p ≡ true
unfolding recognized
recognized-is_plain p h = one_of_is_plain recognized_providers p providers_plain h

plain_tail : (b : ℕ) (bs : Bytes) → is_plain (b ∷ bs) ≡ true → is_plain bs ≡ true
unfolding is_plain
plain_tail b bs h = ground arith

tail_injective : {a b : ℕ} {xs ys : Bytes} → Path Bytes (a ∷ xs) (b ∷ ys) → xs ≡ ys
tail_injective h = cc h

head_injective : {a b : ℕ} {xs ys : Bytes} → Path Bytes (a ∷ xs) (b ∷ ys) → a ≡ b
head_injective h = cc h

pub lookup_key-injective :
    (p q x y : Bytes)
    → is_plain p ≡ true
    → is_plain q ≡ true
    → lookup_key p x ≡ lookup_key q y
    → (p ≡ q) × (x ≡ y)
unfolding lookup_key is_plain
lookup_key-injective [] [] x y hp hq e = (refl, cc e)
lookup_key-injective [] (b ∷ q) x y hp hq e = ground arith
lookup_key-injective (a ∷ p) [] x y hp hq e = ground arith
lookup_key-injective (a ∷ p) (b ∷ q) x y hp hq e =
    let (same, rest) =
      lookup_key-injective p q x y (plain_tail a p hp) (plain_tail b q hq) (tail_injective e) in
    (cc (head_injective e, same), rest)

either_plain :
    (b : Bool) (r t : Bytes × Bytes)
    → is_plain r.0 ≡ true
    → is_plain t.0 ≡ true
    → is_plain (if b then r else t).0 ≡ true
either_plain true r t h g = h
either_plain false r t h g = g

scope_in_plain :
    (ps : List Bytes) (name : Bytes)
    → ((q : Bytes) → Memᴰ q ps → is_plain q ≡ true)
    → is_plain (scope_in ps name).0 ≡ true
unfolding scope_in is_plain
scope_in_plain [] name a = refl
scope_in_plain (p ∷ ps) name a =
    let prefix = p ++ codes "/" in
    either_plain (leb (length prefix) (length name) && equal (take (length prefix) name) prefix)
      (p, drop (length prefix) name) (scope_in ps name) (a p (Memᴰ.head refl))
      (scope_in_plain ps name (λ q m. a q (Memᴰ.tail m)))

pub reported_scope_plain : (name : Bytes) → is_plain (reported_scope name).0 ≡ true
unfolding reported_scope
reported_scope_plain name = scope_in_plain recognized_providers name providers_plain

-- A candidate that a reported scope names: its model, in no namespace or in the candidate's own.
pub record IsNamed (scope : Bytes × Bytes) (c : Identity) : Type 0 where
  pub provider_recognized : recognized c.provider ≡ true
  pub model_same : scope.1 ≡ c.model
  pub provider_fits : (scope.0 ≡ []) ⊎ (scope.0 ≡ c.provider)

module _ (time_parse : Bytes → Bytes → Option ℕ) where
  dated_exacts :
      (o : Option Bytes) (c : Identity) (l : Ledger)
      → (enter_dated time_parse o c l).exacts ≡ l.exacts
  unfolding enter_dated enter_both enter
  dated_exacts none c l = refl
  dated_exacts (some stem) c l = refl

  candidate_exacts :
      (c : Identity) (l : Ledger)
      → (enter_candidate time_parse c l).exacts ≡ (
          if not (recognized c.provider)
          then l.exacts
          else (lookup_key c.provider c.model, c) ∷ (lookup_key [] c.model, c) ∷ l.exacts)
  unfolding enter_candidate enter_both enter
  candidate_exacts c l = elim (Bool-cases (recognized c.provider)) [
    | inl e ↦ rw e (dated_exacts (strip_date time_parse c.model) c _)
    | inr e ↦ rw e refl
  ]

  -- What is entered stays entered.
  stays :
      (cs : List Identity) (l : Ledger) (x : Bytes × Identity)
      → Memᴰ x l.exacts
      → Memᴰ x (enter_candidates time_parse cs l).exacts
  unfolding enter_candidates
  stays [] l x m = m
  stays (c ∷ cs) l x m = stays cs (enter_candidate time_parse c l) x (
      rw (candidate_exacts c l) (elim (Bool-cases (recognized c.provider)) [
        | inl e ↦ rw e (Memᴰ.tail (Memᴰ.tail m))
        | inr e ↦ rw e m
      ]))

  key_of :
      (p x : Bytes) (c : Identity) (es : Additions)
      → (p ≡ []) ⊎ (p ≡ c.provider)
      → x ≡ c.model
      → Memᴰ
          (lookup_key p x, c)
          ((lookup_key c.provider c.model, c) ∷ (lookup_key [] c.model, c) ∷ es)
  key_of p x c es (inl e) f = Memᴰ.tail (Memᴰ.head (rw (e, f) refl))
  key_of p x c es (inr e) f = Memᴰ.head (rw (e, f) refl)

  pub named_entered :
      (cs : List Identity) (l : Ledger) (scope : Bytes × Bytes) (c : Identity)
      → Memᴰ c cs
      → IsNamed scope c
      → Memᴰ (lookup_key scope.0 scope.1, c) (enter_candidates time_parse cs l).exacts
  unfolding enter_candidates
  named_entered [] l scope c m n = elim m [ ]
  named_entered (d ∷ cs) l scope c (Memᴰ.head e) n = stays cs (enter_candidate time_parse d l) _ (
      rw (← e, candidate_exacts c l, n.provider_recognized)
        (key_of scope.0 scope.1 c l.exacts n.provider_fits n.model_same))
  named_entered (d ∷ cs) l scope c (Memᴰ.tail m) n =
      named_entered cs (enter_candidate time_parse d l) scope c m n

  IsNamed-key :
      (scope : Bytes × Bytes) (c d : Identity) (es : Additions)
      → is_plain scope.0 ≡ true
      → recognized c.provider ≡ true
      → Memᴰ
          (lookup_key scope.0 scope.1, d)
          ((lookup_key c.provider c.model, c) ∷ (lookup_key [] c.model, c) ∷ es)
      → ((d ≡ c) × IsNamed scope d) ⊎ Memᴰ (lookup_key scope.0 scope.1, d) es
  unfolding is_plain
  IsNamed-key scope c d es plain r (Memᴰ.head e) =
      let (p, x) =
        lookup_key-injective scope.0 c.provider scope.1 c.model plain
          (recognized-is_plain c.provider r) (ap (λ y. y.0) e) in
      let same = ap (λ y. y.1) e in
      inl (
        same,
        subst (IsNamed scope) (sym same)
            (record { provider_recognized = r; model_same = x; provider_fits = inr p }),
      )
  IsNamed-key scope c d es plain r (Memᴰ.tail (Memᴰ.head e)) =
      let (p, x) = lookup_key-injective scope.0 [] scope.1 c.model plain refl (ap (λ y. y.0) e) in
      let same = ap (λ y. y.1) e in
      inl (
        same,
        subst (IsNamed scope) (sym same)
            (record { provider_recognized = r; model_same = x; provider_fits = inl p }),
      )
  IsNamed-key scope c d es plain r (Memᴰ.tail (Memᴰ.tail m)) = inr m

  pub entered-IsNamed :
      (cs : List Identity) (l : Ledger) (scope : Bytes × Bytes) (d : Identity)
      → is_plain scope.0 ≡ true
      → Memᴰ (lookup_key scope.0 scope.1, d) (enter_candidates time_parse cs l).exacts
      → (Memᴰ d cs × IsNamed scope d) ⊎ Memᴰ (lookup_key scope.0 scope.1, d) l.exacts
  unfolding enter_candidates
  entered-IsNamed [] l scope d plain m = inr m
  entered-IsNamed (c ∷ cs) l scope d plain m =
      elim (entered-IsNamed cs (enter_candidate time_parse c l) scope d plain m) [
        | inl (here, named) ↦ inl (Memᴰ.tail here, named)
        | inr before ↦ elim (Bool-cases (recognized c.provider)) [
          | inr e ↦ inr (rw (candidate_exacts c l, e) at before)
          | inl e ↦
              elim (IsNamed-key scope c d l.exacts plain e
                (rw (candidate_exacts c l, e) at before)) [
                  | inl (same, named) ↦ inl (Memᴰ.head same, named)
                  | inr older ↦ inr older
                ]
        ]
      ]
