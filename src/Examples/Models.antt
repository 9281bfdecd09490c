-- ===== src/Examples/Models.antt =====
-- Three candidates and their resolution (internal/usage/modelmatch/matcher.go). The dates that parse
-- here are those whose year begins with the century 20.
use copilotd.Prelude.{
  ◌≡◌, ◌≢◌, refl, sym, ap, ◌∙◌, ◌-ℤ◌, ne_of_equal, ℕ, inl, List, [], ◌∷◌, Option, none, some, pos,
  Bytes, codes, Result, ok, err, if◌then◌else◌, equal, take,
}
use copilotd.Modelmatch.Matcher.{
  Identity, Matcher, Failure, add_candidates, add_candidate, recognized, is_one_of, add_both, add,
  add_selection, lookup, index_of, lookup_key, with_index, normalize, add_dated, strip_date,
  same_identity, assign, dash, fold, is_ascii_digit, strip_fast, scope_in, matched, ambiguous,
  exact, new, resolve, reported_scope,
}
use copilotd.Modelmatch.Matcher.Names.{IsNamed}
use copilotd.Modelmatch.Matcher.Resolved.{resolve_unique, resolve_rivals}
use copilotd.Modelmatch.Matcher.Retention.{IsWithin, new-IsWithin}
use mathlib.Core.List.{Memᴰ}

abbrev parse : Bytes → Bytes → Option ℕ
parse layout text = if equal (take 2 text) (codes "20") then some 2025 else none

abbrev never : ℕ → Option ℕ
never k = none

abbrev gpt : Identity
gpt = record { provider = codes "openai"; model = codes "gpt-5" }

abbrev grok : Identity
grok = record { provider = codes "xai"; model = codes "gpt-5" }

abbrev claude : Identity
claude = record { provider = codes "anthropic"; model = codes "claude-4.5" }

abbrev candidates : List Identity
candidates = gpt ∷ grok ∷ claude ∷ []

-- The matcher that `New` returns, or an empty one.
abbrev returned : Result (Failure ℕ) Matcher → Matcher
returned (ok m) = m
returned (err e) = record {
  exact_index = [];
  normalized_index = [];
  dated_index = [];
  retained_identity_bytes = 0;
}

abbrev built : Matcher
built = returned (new parse never candidates (pos 500))

built_ok : new parse never candidates (pos 500) ≡ ok built
unfolding new add_candidates add_candidate recognized is_one_of equal add_both add add_selection
    lookup index_of ◌-ℤ◌ lookup_key with_index normalize add_dated strip_date same_identity assign
    dash fold is_ascii_digit strip_fast
built_ok = refl

new-IsWithin_example : IsWithin 500 built
new-IsWithin_example = new-IsWithin parse never 500 candidates built built_ok

scope_claude : reported_scope (codes "claude-4.5") ≡ ([], codes "claude-4.5")
unfolding reported_scope scope_in equal
scope_claude = refl

claude-IsNamed : IsNamed (reported_scope (codes "claude-4.5")) claude
unfolding reported_scope recognized is_one_of equal scope_in
claude-IsNamed = record { provider_recognized = refl; model_same = refl; provider_fits = inl refl }

not_gpt : codes "claude-4.5" ≢ codes "gpt-5"
unfolding equal
not_gpt = ne_of_equal (codes "claude-4.5") (codes "gpt-5") refl

only_claude :
    (d : Identity)
    → Memᴰ d candidates
    → IsNamed (reported_scope (codes "claude-4.5")) d
    → d ≡ claude
only_claude d (Memᴰ.head e) n =
    absurd (not_gpt (sym (ap (λ s. s.1) scope_claude) ∙ n.model_same ∙ ap (λ c. c.model) e))
only_claude d (Memᴰ.tail (Memᴰ.head e)) n =
    absurd (not_gpt (sym (ap (λ s. s.1) scope_claude) ∙ n.model_same ∙ ap (λ c. c.model) e))
only_claude d (Memᴰ.tail (Memᴰ.tail (Memᴰ.head e))) n = e
only_claude d (Memᴰ.tail (Memᴰ.tail (Memᴰ.tail m))) n = elim m [ ]

resolve_unique_example :
    resolve parse built (codes "claude-4.5")
    ≡ record { status = matched; identity = claude; method = some exact }
resolve_unique_example =
    resolve_unique parse never (pos 500) candidates built (codes "claude-4.5") claude built_ok
      (Memᴰ.tail (Memᴰ.tail (Memᴰ.head refl))) claude-IsNamed only_claude

gpt-IsNamed : IsNamed (reported_scope (codes "gpt-5")) gpt
unfolding reported_scope recognized is_one_of equal scope_in
gpt-IsNamed = record { provider_recognized = refl; model_same = refl; provider_fits = inl refl }

grok-IsNamed : IsNamed (reported_scope (codes "gpt-5")) grok
unfolding reported_scope recognized is_one_of equal scope_in
grok-IsNamed = record { provider_recognized = refl; model_same = refl; provider_fits = inl refl }

gpt-grok : gpt ≢ grok
unfolding equal
gpt-grok e = ne_of_equal gpt.provider grok.provider refl (ap (λ c. c.provider) e)

resolve_rivals_example : (resolve parse built (codes "gpt-5")).status ≡ ambiguous
resolve_rivals_example =
    resolve_rivals parse never (pos 500) candidates built (codes "gpt-5") gpt grok built_ok
      (Memᴰ.head refl) gpt-IsNamed (Memᴰ.tail (Memᴰ.head refl)) grok-IsNamed gpt-grok
