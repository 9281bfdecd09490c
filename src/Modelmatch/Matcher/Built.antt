-- ===== src/Modelmatch/Matcher/Built.antt =====
-- What `New` (internal/usage/modelmatch/matcher.go) has added to each index when it returns.
use copilotd.Prelude.{
  ℕ, suc, ◌≡◌, inl, inr, List, [], ◌∷◌, Option, none, some, ℤ, pos, ltb_ℤ, ok, ok_injective,
  >>=-eq-ok, not, Bool-cases, Option-cases, Bytes, if◌then◌else◌,
}
use copilotd.Modelmatch.Matcher.{
  Identity, Matcher, IndexName, exact_name, normalized_name, dated_name, index_of, with_index, add,
  add_both, add_dated, add_candidate, add_candidates, new, recognized, lookup_key, normalize,
  strip_date,
}
use copilotd.Modelmatch.Matcher.Candidates.{
  Additions, Represents, empty-Represents, add_selection-Represents,
}
use mathlib.Core.Path.{subst}

-- The additions to each index, the newest first.
pub record Ledger : Type 0 where
  pub exacts : Additions
  pub normals : Additions
  pub dateds : Additions

unfoldable pub enter : IndexName → Bytes → Identity → Ledger → Ledger
enter exact_name key c l = record l { exacts = (key, c) ∷ l.exacts }
enter normalized_name key c l = record l { normals = (key, c) ∷ l.normals }
enter dated_name key c l = record l { dateds = (key, c) ∷ l.dateds }

unfoldable pub enter_both : IndexName → Bytes → Identity → Ledger → Ledger
enter_both which name c l =
    enter which (lookup_key c.provider name) c (enter which (lookup_key [] name) c l)

pub record IsLedger (l : Ledger) (m : Matcher) : Type 0 where
  pub exacts : Represents m.exact_index l.exacts
  pub normals : Represents m.normalized_index l.normals
  pub dateds : Represents m.dated_index l.dateds

add-IsLedger :
    {C : Type 0} (limit : ℤ) (which : IndexName) (key : Bytes) (c : Identity) (m m' : Matcher)
    (l : Ledger)
    → IsLedger l m
    → add {C = C} limit which key c m ≡ ok m'
    → IsLedger (enter which key c l) m'
unfolding add enter index_of with_index
add-IsLedger limit exact_name key c m m' l w h =
    let (r, e, f) = >>=-eq-ok _ _ h in
    subst (IsLedger _) (ok_injective f) (record {
      exacts =
          add_selection-Represents limit m.exact_index m.retained_identity_bytes key c l.exacts r
            w.exacts e;
      normals = w.normals;
      dateds = w.dateds;
    })
add-IsLedger limit normalized_name key c m m' l w h =
    let (r, e, f) = >>=-eq-ok _ _ h in
    subst (IsLedger _) (ok_injective f) (record {
      exacts = w.exacts;
      normals =
          add_selection-Represents limit m.normalized_index m.retained_identity_bytes key c
            l.normals r w.normals e;
      dateds = w.dateds;
    })
add-IsLedger limit dated_name key c m m' l w h =
    let (r, e, f) = >>=-eq-ok _ _ h in
    subst (IsLedger _) (ok_injective f) (record {
      exacts = w.exacts;
      normals = w.normals;
      dateds =
          add_selection-Represents limit m.dated_index m.retained_identity_bytes key c l.dateds r
            w.dateds e;
    })

add_both-IsLedger :
    {C : Type 0} (limit : ℤ) (which : IndexName) (name : Bytes) (c : Identity) (m m' : Matcher)
    (l : Ledger)
    → IsLedger l m
    → add_both {C = C} limit which name c m ≡ ok m'
    → IsLedger (enter_both which name c l) m'
unfolding add_both enter_both
add_both-IsLedger limit which name c m m' l w h =
    let (m1, e, f) = >>=-eq-ok _ _ h in
    add-IsLedger limit which (lookup_key c.provider name) c m1 m' _
      (add-IsLedger limit which (lookup_key [] name) c m m1 l w e) f

abbrev pub no_additions : Ledger
no_additions = record { exacts = []; normals = []; dateds = [] }

module _ (time_parse : Bytes → Bytes → Option ℕ) where
  unfoldable pub enter_dated : Option Bytes → Identity → Ledger → Ledger
  enter_dated none c l = l
  enter_dated (some stem) c l = enter_both dated_name (normalize stem) c l

  unfoldable pub enter_candidate : Identity → Ledger → Ledger
  enter_candidate c l =
      if not (recognized c.provider)
      then l
      else enter_dated (strip_date time_parse c.model) c
          (enter_both normalized_name (normalize c.model) c (enter_both exact_name c.model c l))

  unfoldable pub enter_candidates : List Identity → Ledger → Ledger
  enter_candidates [] l = l
  enter_candidates (c ∷ cs) l = enter_candidates cs (enter_candidate c l)

  dated-IsLedger :
      {C : Type 0} (limit : ℤ) (o : Option Bytes) (c : Identity) (m m' : Matcher) (l : Ledger)
      → IsLedger l m
      → add_dated time_parse {C = C} limit o c m ≡ ok m'
      → IsLedger (enter_dated o c l) m'
  unfolding add_dated enter_dated
  dated-IsLedger limit none c m m' l w h = subst (IsLedger l) (ok_injective h) w
  dated-IsLedger limit (some stem) c m m' l w h =
      add_both-IsLedger limit dated_name (normalize stem) c m m' l w h

  candidate-IsLedger :
      {C : Type 0} (limit : ℤ) (c : Identity) (m m' : Matcher) (l : Ledger)
      → IsLedger l m
      → add_candidate time_parse {C = C} limit c m ≡ ok m'
      → IsLedger (enter_candidate c l) m'
  unfolding add_candidate enter_candidate
  candidate-IsLedger limit c m m' l w h = elim (Bool-cases (recognized c.provider)) [
    | inr e ↦ rw e (subst (IsLedger l) (ok_injective (rw e at h)) w)
    | inl e ↦
        let (m2, g, third) = >>=-eq-ok _ _ (rw e at h) in
        let (m1, first, second) = >>=-eq-ok _ _ g in
        rw e (
          dated-IsLedger limit (strip_date time_parse c.model) c m2 m' _
            (add_both-IsLedger limit normalized_name (normalize c.model) c m1 m2 _
              (add_both-IsLedger limit exact_name c.model c m m1 l w first) second)
            third)
  ]

  candidates-IsLedger :
      {C : Type 0} (ctx_err : ℕ → Option C) (k : ℕ) (limit : ℤ) (cs : List Identity)
      (m m' : Matcher) (l : Ledger)
      → IsLedger l m
      → add_candidates time_parse ctx_err k limit cs m ≡ ok m'
      → IsLedger (enter_candidates cs l) m'
  unfolding add_candidates enter_candidates
  candidates-IsLedger ctx_err k limit [] m m' l w h = elim (Option-cases (ctx_err k)) [
    | inl e ↦ subst (IsLedger l) (ok_injective (rw (e, add_candidates) at h)) w
    | inr (x, e) ↦ cc (rw (e, add_candidates) at h)
  ]
  candidates-IsLedger ctx_err k limit (c ∷ cs) m m' l w h = elim (Option-cases (ctx_err k)) [
    | inl e ↦
        let (m1, first, rest) = >>=-eq-ok _ _ (rw (e, add_candidates) at h) in
        candidates-IsLedger ctx_err (suc k) limit cs m1 m' (enter_candidate c l)
          (candidate-IsLedger limit c m m1 l w first) rest
    | inr (x, e) ↦ cc (rw (e, add_candidates) at h)
  ]

  pub new-IsLedger :
      {C : Type 0} (ctx_err : ℕ → Option C) (limit : ℤ) (cs : List Identity) (m : Matcher)
      → new time_parse ctx_err cs limit ≡ ok m
      → IsLedger (enter_candidates cs no_additions) m
  unfolding new
  new-IsLedger ctx_err limit cs m h = elim (Bool-cases (ltb_ℤ limit (pos 0))) [
    | inl e ↦ cc (rw e at h)
    | inr e ↦
        candidates-IsLedger ctx_err 0 limit cs _ m no_additions
          (record {
            exacts = empty-Represents;
            normals = empty-Represents;
            dateds = empty-Represents;
          })
          (rw e at h)
  ]
