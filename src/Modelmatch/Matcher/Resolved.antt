-- ===== src/Modelmatch/Matcher/Resolved.antt =====
-- What `Resolve` (internal/usage/modelmatch/matcher.go) answers a name that some candidate has.
use copilotd.Prelude.{
  ℕ, ◌≡◌, ◌≢◌, refl, sym, ap, ◌∙◌, ◌⊎◌, inl, inr, List, Option, some, ℤ, ok, true, Bool-cases,
  Bytes,
}
use copilotd.Modelmatch.Matcher.{
  Identity, Selection, Matcher, matched, ambiguous, exact, lookup, lookup_key, found, resolution,
  reported_scope, resolve, new,
}
use copilotd.Modelmatch.Matcher.Candidates.{Shows}
use copilotd.Modelmatch.Matcher.Built.{new-IsLedger, no_additions, enter_candidates}
use copilotd.Modelmatch.Matcher.Names.{
  IsNamed, named_entered, entered-IsNamed, reported_scope_plain,
}
use mathlib.Core.List.{Memᴰ}
use mathlib.Core.List.Memᴰ
use mathlib.Core.Option.{some-injective}

module _ (time_parse : Bytes → Bytes → Option ℕ) where
  -- The selection of a reported name, as the candidates determine it.
  shown :
      {C : Type 0} (ctx_err : ℕ → Option C) (limit : ℤ) (cs : List Identity) (m : Matcher)
      (name : Bytes)
      → new time_parse ctx_err cs limit ≡ ok m
      → Shows
          (lookup_key (reported_scope name).0 (reported_scope name).1)
          (enter_candidates time_parse cs no_additions).exacts
          (lookup m.exact_index (lookup_key (reported_scope name).0 (reported_scope name).1))
  shown ctx_err limit cs m name h = (new-IsLedger time_parse ctx_err limit cs m h).exacts _

  IsNamed-by :
      (cs : List Identity) (name : Bytes) (d : Identity)
      → Memᴰ
          (lookup_key (reported_scope name).0 (reported_scope name).1, d)
          (enter_candidates time_parse cs no_additions).exacts
      → Memᴰ d cs × IsNamed (reported_scope name) d
  IsNamed-by cs name d m =
      elim (entered-IsNamed time_parse cs no_additions (reported_scope name) d
        (reported_scope_plain name) m) [ inl named ↦ named | inr e ↦ absurd (Memᴰ.not-nil e) ]

  resolve_selected :
      (m : Matcher) (name : Bytes) (s : Selection)
      → lookup m.exact_index (lookup_key (reported_scope name).0 (reported_scope name).1) ≡ some s
      → resolve time_parse m name ≡ resolution exact s
  unfolding resolve found
  resolve_selected m name s h = rw (h, resolve, found) refl

  -- A reported model that names one candidate exactly resolves to it by the exact method, whatever the
  -- other candidates' normalized spellings and dates: the candidate is recognized and reported with
  -- its own provider or with none, and every other candidate so named is equal to it.
  pub resolve_unique :
      {C : Type 0} (ctx_err : ℕ → Option C) (limit : ℤ) (cs : List Identity) (m : Matcher)
      (name : Bytes) (c : Identity)
      → new time_parse ctx_err cs limit ≡ ok m
      → Memᴰ c cs
      → IsNamed (reported_scope name) c
      → ((d : Identity) → Memᴰ d cs → IsNamed (reported_scope name) d → d ≡ c)
      → resolve time_parse m name ≡ record { status = matched; identity = c; method = some exact }
  unfolding resolution
  resolve_unique ctx_err limit cs m name c h here named unique =
      let w = shown ctx_err limit cs m name h in
      let (s, e, r) =
        w.reached c (named_entered time_parse cs no_additions (reported_scope name) c here named) in
      let (s_here, s_named) = IsNamed-by cs name s.identity (w.added s e) in
      let same = unique s.identity s_here s_named in
      elim (Bool-cases s.is_ambiguous) [
        | inl a ↦
            let (d, d_in, other) = w.rival s e a in
            let (d_here, d_named) = IsNamed-by cs name d d_in in
            absurd (other (unique d d_here d_named ∙ sym same))
        | inr a ↦ resolve_selected m name s e ∙ rw (a, same) refl
      ]

  -- A reported model that names two different candidates exactly is ambiguous, never settled by order.
  pub resolve_rivals :
      {C : Type 0} (ctx_err : ℕ → Option C) (limit : ℤ) (cs : List Identity) (m : Matcher)
      (name : Bytes) (c d : Identity)
      → new time_parse ctx_err cs limit ≡ ok m
      → Memᴰ c cs
      → IsNamed (reported_scope name) c
      → Memᴰ d cs
      → IsNamed (reported_scope name) d
      → c ≢ d
      → (resolve time_parse m name).status ≡ ambiguous
  unfolding resolution
  resolve_rivals ctx_err limit cs m name c d h c_here c_named d_here d_named other =
      let w = shown ctx_err limit cs m name h in
      let (s, e, r) =
        w.reached c
          (named_entered time_parse cs no_additions (reported_scope name) c c_here c_named) in
      let (t, f, q) =
        w.reached d
          (named_entered time_parse cs no_additions (reported_scope name) d d_here d_named) in
      rw (resolve_selected m name s e)
        (rw (ambiguous_of s t r q (some-injective _ _ (sym e ∙ f))) refl)
    where
      ambiguous_of :
          (s t : Selection)
          → (s.is_ambiguous ≡ true) ⊎ (s.identity ≡ c)
          → (t.is_ambiguous ≡ true) ⊎ (t.identity ≡ d)
          → s ≡ t
          → s.is_ambiguous ≡ true
      ambiguous_of s t (inl a) q e = a
      ambiguous_of s t (inr a) (inl b) e = ap (λ x. x.is_ambiguous) e ∙ b
      ambiguous_of s t (inr a) (inr b) e = absurd (other (sym a ∙ ap (λ x. x.identity) e ∙ b))
