-- ===== src/Shim/UsageMeter/Anthropic/Counts.antt =====
-- The counts that a message's reports leave.
use copilotd.Prelude.{
  ℕ, zero, suc, ◌<◌, List, [], ◌∷◌, Option, none, some, ℤ, length, replicate, get_elem?, ◌≡◌, refl,
  ap, ◌∙◌, arith,
}
use mathlib.Core.Option.{some-injective}
use copilotd.Usage.Projection.{anthropic_projection}
use copilotd.Shim.UsageMeter.Anthropic.{apply, latest}

abbrev pub report : List (Option ℤ) → ℕ → Option ℤ
report update i = elim (get_elem? update i) [ none ↦ none | some value ↦ value ]

-- The last of the reports for the count at a position.
abbrev pub last_report : List (List (Option ℤ)) → ℕ → Option ℤ
last_report [] i = none
last_report (update ∷ later) i = latest (report update i) (last_report later i)

abbrev pub gather : List (Option ℤ) → List (List (Option ℤ)) → List (Option ℤ)
gather counts [] = counts
gather counts (update ∷ later) = gather (apply counts update) later

length-apply : (counts update : List (Option ℤ)) → length (apply counts update) ≡ length counts
length-apply [] update = refl
length-apply (old ∷ counts) [] = refl
length-apply (old ∷ counts) (value ∷ update) = ap suc (length-apply counts update)

pub length-gather :
    (counts : List (Option ℤ)) (updates : List (List (Option ℤ)))
    → length (gather counts updates) ≡ length counts
length-gather counts [] = refl
length-gather counts (update ∷ later) =
    length-gather (apply counts update) later ∙ length-apply counts update

get_elem?-apply :
    (counts update : List (Option ℤ)) (i : ℕ) {old : Option ℤ}
    → get_elem? counts i ≡ some old
    → get_elem? (apply counts update) i ≡ some (latest old (report update i))
get_elem?-apply [] update i h = cc h
get_elem?-apply (c ∷ counts) [] i h = h
get_elem?-apply (c ∷ counts) (value ∷ update) zero {old} h =
    ap (λ t. some (latest t value)) (some-injective _ _ h)
get_elem?-apply (c ∷ counts) (value ∷ update) (suc i) h = get_elem?-apply counts update i h

latest-none : (a : Option ℤ) → latest none a ≡ a
latest-none none = refl
latest-none (some a) = refl

latest-latest : (a b c : Option ℤ) → latest (latest a b) c ≡ latest a (latest b c)
latest-latest a b none = refl
latest-latest a b (some c) = refl

get_elem?-gather :
    (counts : List (Option ℤ)) (updates : List (List (Option ℤ))) (i : ℕ) {old : Option ℤ}
    → get_elem? counts i ≡ some old
    → get_elem? (gather counts updates) i ≡ some (latest old (last_report updates i))
get_elem?-gather counts [] i h = h
get_elem?-gather counts (update ∷ later) i {old} h =
    get_elem?-gather (apply counts update) later i (get_elem?-apply counts update i h)
    ∙ ap some (latest-latest old (report update i) (last_report later i))

-- The counts of a message, from what its start and its deltas report.
abbrev pub message_counts : List (Option ℤ) → List (List (Option ℤ)) → List (Option ℤ)
message_counts first updates =
    gather (replicate (length anthropic_projection) none) (first ∷ updates)

get_elem?-replicate : (n i : ℕ) → i < n → get_elem? {A = Option ℤ} (replicate n none) i ≡ some none
get_elem?-replicate zero i h = absurd (omega arith)
get_elem?-replicate (suc n) zero h = refl
get_elem?-replicate (suc n) (suc i) h = get_elem?-replicate n i (omega arith)

get_elem?-message_counts :
    (first : List (Option ℤ)) (updates : List (List (Option ℤ))) (i : ℕ)
    → i < 7
    → get_elem? (message_counts first updates) i ≡ some (last_report (first ∷ updates) i)
get_elem?-message_counts first updates i h =
    get_elem?-gather (replicate 7 none) (first ∷ updates) i (get_elem?-replicate 7 i h)
    ∙ ap some (latest-none (last_report (first ∷ updates) i))

-- The values of a function at the numbers below one.
abbrev pub tabulate : {A : Type 0} → ℕ → (ℕ → A) → List A
tabulate zero f = []
tabulate (suc n) f = f 0 ∷ tabulate n (λ i. f (suc i))

tabulate-get_elem? :
    {A : Type 0} (n : ℕ) (xs : List A) (f : ℕ → A)
    → length xs ≡ n
    → ((i : ℕ) → i < n → get_elem? xs i ≡ some (f i))
    → xs ≡ tabulate n f
tabulate-get_elem? zero [] f e h = refl
tabulate-get_elem? zero (x ∷ xs) f e h = ground arith
tabulate-get_elem? (suc n) [] f e h = ground arith
tabulate-get_elem? (suc n) (x ∷ xs) f e h =
    let first : x ≡ f 0 = some-injective _ _ (h 0 (omega arith)) in
    let later =
      tabulate-get_elem? n xs (λ i. f (suc i)) (omega arith) (λ i small. h (suc i) (omega arith)) in
    ap (λ t. t ∷ xs) first ∙ ap (◌∷◌ (f 0)) later

-- The seven counts of a message: the last report for each.
abbrev pub last_reports : List (List (Option ℤ)) → List (Option ℤ)
last_reports reports = tabulate 7 (last_report reports)

pub message_counts-last_reports :
    (first : List (Option ℤ)) (updates : List (List (Option ℤ)))
    → message_counts first updates ≡ last_reports (first ∷ updates)
message_counts-last_reports first updates =
    tabulate-get_elem? 7 (message_counts first updates) (last_report (first ∷ updates))
      (length-gather (replicate 7 none) (first ∷ updates))
      (λ i small. get_elem?-message_counts first updates i small)
