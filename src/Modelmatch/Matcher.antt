-- ===== src/Modelmatch/Matcher.antt =====
-- internal/usage/modelmatch/matcher.go. A map is an association list, `time.Parse` is a parameter that
-- answers the year of a date that parses, and `ctx.Err` one that answers each poll in turn.
pub mod Candidates
pub mod Built
pub mod Retention
pub mod Names
pub mod Resolved
use copilotd.Prelude.{
  ℕ, zero, suc, ◌+◌, ◌-◌, List, [], ◌∷◌, ◌++◌, map, Option, none, some, ℤ, pos, ltb_ℤ, ◌-ℤ◌, leb,
  ltb, ◌==◌, if◌then◌else◌, Result, ok, err, ◌>>=◌, Bool, true, false, ◌||◌, ◌&&◌, not, Bytes,
  codes, length, get_elem?, take, drop, equal,
}

pub record Identity : Type 0 where
  pub provider : Bytes
  pub model : Bytes

pub data Status : Type 0 where
  matched : Status
  unknown : Status
  ambiguous : Status

pub data Method : Type 0 where
  exact : Method
  normalized : Method
  suffix : Method
  dated : Method

-- `method` is none where the source leaves the empty string.
pub record Resolution : Type 0 where
  pub status : Status
  pub identity : Identity
  pub method : Option Method

pub record Selection : Type 0 where
  pub identity : Identity
  pub is_ambiguous : Bool

abbrev pub Index : Type 0
Index = List (Bytes × Selection)

pub record Matcher : Type 0 where
  pub exact_index : Index
  pub normalized_index : Index
  pub dated_index : Index
  pub retained_identity_bytes : ℕ

pub data Failure (C : Type 0) : Type 0 where
  retention_limit : Failure C
  context_ended : C → Failure C

-- `recognizedProviders`.
abbrev pub recognized_providers : List Bytes
recognized_providers = codes "anthropic" ∷ codes "google" ∷ codes "openai" ∷ codes "xai" ∷ []

unfoldable pub is_one_of : List Bytes → Bytes → Bool
is_one_of [] p = false
is_one_of (q ∷ qs) p = equal q p || is_one_of qs p

unfoldable pub recognized : Bytes → Bool
recognized p = is_one_of recognized_providers p

unfoldable pub lookup_key : Bytes → Bytes → Bytes
lookup_key p m = p ++ 0 ∷ m

unfoldable pub is_ascii_digit : ℕ → Bool
is_ascii_digit b = leb b'0' b && leb b b'9'

unfoldable pub fold : ℕ → ℕ
fold b = if leb b'A' b && leb b b'Z' then b + 32 else b

-- The loop of `normalize`: `prev` is the byte before, as the loop has left it.
unfoldable pub dash : ℕ → Bytes → Bytes
unfolding is_ascii_digit
dash prev [] = []
dash prev (b ∷ []) = b ∷ []
dash prev (b ∷ c ∷ rest) =
    let b' = if b == b'.' && is_ascii_digit prev && is_ascii_digit c then b'-' else b in
    b' ∷ dash b' (c ∷ rest)

dash_all : Bytes → Bytes
unfolding dash
dash_all [] = []
dash_all (b ∷ rest) = b ∷ dash b rest

unfoldable pub normalize : Bytes → Bytes
unfolding fold dash_all
normalize model =
    let folded = map fold model in
    let prefix = codes "claude-" in
    if leb (length prefix) (length folded) && equal (take (length prefix) folded) prefix
    then dash_all folded
    else folded

-- `stripFast`: none where it answers false.
unfoldable pub strip_fast : Bytes → Option Bytes
unfolding fold
strip_fast model =
    let suffix_text = codes "-fast" in
    let start = length model - length suffix_text in
    if ltb (length model) (length suffix_text)
    then none
    else (if equal (map fold (drop start model)) suffix_text then some (take start model) else none)

or_else : {A : Type 0} → Option A → Option A → Option A
or_else none b = b
or_else (some a) b = some a

has_dash_at : Bytes → ℕ → Bool
has_dash_at model k = elim (get_elem? model k) [ none ↦ false | some b ↦ b == b'-' ]

date_forms : List (ℕ × Bytes)
date_forms =
    (length (codes "YYYYMMDD"), codes "20060102")
    ∷ (length (codes "YYYY-MM-DD"), codes "2006-01-02")
    ∷ []

unfoldable pub lookup : Index → Bytes → Option Selection
lookup [] key = none
lookup ((k, s) ∷ rest) key = if equal k key then some s else lookup rest key

-- The assignment to a key that is there.
unfoldable pub assign : Index → Bytes → Selection → Index
assign [] key s = []
assign ((k, t) ∷ rest) key s =
    let rest' = assign rest key s in if equal k key then (k, s) ∷ rest else (k, t) ∷ rest'

unfoldable pub same_identity : Identity → Identity → Bool
same_identity a b = equal a.provider b.provider && equal a.model b.model

-- `addSelection`: the index and the count of retained bytes.
unfoldable pub add_selection :
    {C : Type 0} → ℤ → Index → ℕ → Bytes → Identity → Result (Failure C) (Index × ℕ)
add_selection limit index retained key c = elim (lookup index key) [
  | none ↦
      if ltb_ℤ (limit -ℤ pos retained) (pos (length key))
      then err retention_limit
      else ok ((key, record { identity = c; is_ambiguous = false }) ∷ index, retained + length key)
  | some s ↦
      if same_identity s.identity c
      then ok (index, retained)
      else ok (assign index key (record s { is_ambiguous = true }), retained)
]

-- Which of the three indexes an addition is for.
pub data IndexName : Type 0 where
  exact_name : IndexName
  normalized_name : IndexName
  dated_name : IndexName

unfoldable pub index_of : IndexName → Matcher → Index
index_of exact_name m = m.exact_index
index_of normalized_name m = m.normalized_index
index_of dated_name m = m.dated_index

unfoldable pub with_index : IndexName → Matcher → Index × ℕ → Matcher
with_index exact_name m (ix, n) = record m { exact_index = ix; retained_identity_bytes = n }
with_index normalized_name m (ix, n) = record m {
  normalized_index = ix;
  retained_identity_bytes = n;
}
with_index dated_name m (ix, n) = record m { dated_index = ix; retained_identity_bytes = n }

-- `add`, the closure of `New`.
unfoldable pub add :
    {C : Type 0} → ℤ → IndexName → Bytes → Identity → Matcher → Result (Failure C) Matcher
add limit which key c m =
    add_selection limit (index_of which m) m.retained_identity_bytes key c
    >>= (λ r. ok (with_index which m r))

-- The two keys of a name: in no provider's namespace and in the candidate's own.
unfoldable pub add_both :
    {C : Type 0} → ℤ → IndexName → Bytes → Identity → Matcher → Result (Failure C) Matcher
add_both limit which name c m =
    add limit which (lookup_key [] name) c m >>= add limit which (lookup_key c.provider name) c

unfoldable pub merge_selections : Selection → Selection → Selection
merge_selections l r =
    if l.is_ambiguous || r.is_ambiguous || not (same_identity l.identity r.identity)
    then record l { is_ambiguous = true }
    else l

unfoldable pub resolution : Method → Selection → Resolution
resolution how s =
    if s.is_ambiguous
    then record {
      status = ambiguous;
      identity = record { provider = []; model = [] };
      method = none;
    }
    else record { status = matched; identity = s.identity; method = some how }

unfoldable pub found : Index → Bytes → Method → Option Resolution
found index key how = elim (lookup index key) [ none ↦ none | some s ↦ some (resolution how s) ]

-- `reportedScope`. No two prefixes fit one text, so the order of the map does not matter.
unfoldable pub scope_in : List Bytes → Bytes → Bytes × Bytes
scope_in [] reported = ([], reported)
scope_in (p ∷ ps) reported =
    let rest = scope_in ps reported in
    let prefix = p ++ codes "/" in
    if leb (length prefix) (length reported) && equal (take (length prefix) reported) prefix
    then (p, drop (length prefix) reported)
    else rest

unfoldable pub reported_scope : Bytes → Bytes × Bytes
reported_scope reported = scope_in recognized_providers reported

unfoldable pub unresolved : Resolution
unresolved = record {
  status = unknown;
  identity = record { provider = []; model = [] };
  method = none;
}

module _ (time_parse : Bytes → Bytes → Option ℕ) where
  strip_form : ℕ × Bytes → Bytes → Option Bytes
  strip_form (n, layout) model =
      let k = length model - n - 1 in
      if leb (length model) n || not (has_dash_at model k)
      then none
      else (elim (time_parse layout (drop (length model - n) model)) [
        | none ↦ none
        | some year ↦ if year == 0 then none else some (take k model)
      ])

  strip_forms : List (ℕ × Bytes) → Bytes → Option Bytes
  strip_forms [] model = none
  strip_forms (f ∷ fs) model = or_else (strip_form f model) (strip_forms fs model)

  -- `stripDate`: none where it answers false.
  unfoldable pub strip_date : Bytes → Option Bytes
  unfolding strip_forms strip_form has_dash_at date_forms or_else
  strip_date model = strip_forms date_forms model

  unfoldable pub has_date_suffix : Bytes → Bool
  has_date_suffix model = elim (strip_date model) [
    | some stem ↦ true
    | none ↦ elim (strip_fast model) [
      | none ↦ false
      | some stem ↦ elim (strip_date stem) [ none ↦ false | some base ↦ true ]
    ]
  ]

  unfoldable pub add_dated :
      {C : Type 0} → ℤ → Option Bytes → Identity → Matcher → Result (Failure C) Matcher
  add_dated limit none c m = ok m
  add_dated limit (some stem) c m = add_both limit dated_name (normalize stem) c m

  -- One candidate of `New`'s loop.
  unfoldable pub add_candidate : {C : Type 0} → ℤ → Identity → Matcher → Result (Failure C) Matcher
  add_candidate limit c m =
      if not (recognized c.provider)
      then ok m
      else (add_both limit exact_name c.model c m
          >>= add_both limit normalized_name (normalize c.model) c
          >>= add_dated limit (strip_date c.model) c)

  unfoldable pub add_candidates :
      {C : Type 0} → (ℕ → Option C) → ℕ → ℤ → List Identity → Matcher → Result (Failure C) Matcher
  add_candidates ctx_err k limit [] m = elim (ctx_err k) [
    | some e ↦ err (context_ended e)
    | none ↦ ok m
  ]
  add_candidates ctx_err k limit (c ∷ cs) m = elim (ctx_err k) [
    | some e ↦ err (context_ended e)
    | none ↦ add_candidate limit c m >>= add_candidates ctx_err (suc k) limit cs
  ]

  unfoldable pub new :
      {C : Type 0} → (ℕ → Option C) → List Identity → ℤ → Result (Failure C) Matcher
  new ctx_err cs limit =
      if ltb_ℤ limit (pos 0)
      then err retention_limit
      else add_candidates ctx_err 0 limit cs (record {
        exact_index = [];
        normalized_index = [];
        dated_index = [];
        retained_identity_bytes = 0;
      })

  -- The two lookups of a stem.
  by_stem : Matcher → Bytes → Bytes → Option Resolution
  by_stem m p stem =
      or_else (found m.exact_index (lookup_key p stem) suffix)
        (found m.normalized_index (lookup_key p (normalize stem)) suffix)

  by_stem? : Matcher → Bytes → Option Bytes → Option Resolution
  by_stem? m p none = none
  by_stem? m p (some stem) = by_stem m p stem

  -- "-fast" off the end, and a date before it.
  by_fast : Matcher → Bytes → Option Bytes → Option Resolution
  by_fast m p none = none
  by_fast m p (some stem) = or_else (by_stem m p stem) (by_stem? m p (strip_date stem))

  -- A date off the end, and "-fast" before it.
  by_date : Matcher → Bytes → Option Bytes → Option Resolution
  by_date m p none = none
  by_date m p (some stem) = or_else (by_stem m p stem) (by_stem? m p (strip_fast stem))

  both_selections : Option Selection → Option Selection → Option Selection
  both_selections none b = b
  both_selections (some a) none = some a
  both_selections (some a) (some b) = some (merge_selections a b)

  dated_alternative : Matcher → Bytes → Option Bytes → Option Selection
  dated_alternative m p none = none
  dated_alternative m p (some stem) = lookup m.dated_index (lookup_key p (normalize stem))

  -- A reported model with no date against the candidates that have one.
  by_dated : Matcher → Bytes → Bytes → Option Resolution
  by_dated m p model =
      if has_date_suffix model
      then none
      else (elim (both_selections (lookup m.dated_index (lookup_key p (normalize model)))
          (dated_alternative m p (strip_fast model))) [
            | none ↦ none
            | some s ↦ some (resolution dated s)
          ])

  unfoldable pub fallbacks : Matcher → Bytes → Bytes → Option Resolution
  unfolding by_stem by_stem? by_fast by_date both_selections dated_alternative by_dated or_else
  fallbacks m p model =
      or_else (found m.normalized_index (lookup_key p (normalize model)) normalized) (
        or_else (by_fast m p (strip_fast model))
          (or_else (by_date m p (strip_date model)) (by_dated m p model)))

  unfoldable pub resolve : Matcher → Bytes → Resolution
  resolve m reported =
      let (p, model) = reported_scope reported in
      elim (found m.exact_index (lookup_key p model) exact) [
        | some r ↦ r
        | none ↦ elim (fallbacks m p model) [ none ↦ unresolved | some r ↦ r ]
      ]
