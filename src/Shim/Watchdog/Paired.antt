-- ===== src/Shim/Watchdog/Paired.antt =====
-- What the log says of any interleaving.
use copilotd.Prelude.{
  ℕ, suc, arith, ◌-◌, ◌+◌, ◌≤◌, Bool, true, false, not, ◌||◌, List, [], ◌∷◌, Option, none, some,
  Bytes, ltb, if◌then◌else◌, ◌≡◌, ◌≢◌, refl, sym, ap, ◌∙◌, ◌⊎◌, inl, inr,
}
use mathlib.Core.Option.{some-injective}
use mathlib.Core.Path.{subst}
use copilotd.Shim.Watchdog.{
  HookState, in_flight, returned, panicked, Publication, Watchdog, new_watchdog, publication, begin,
  claim, publish, finish, write_ending, abandon, Step, claims, publishes, finishes, writes,
  abandons, Reachable, start, begins, next,
}

-- A crossing of the named hook.
abbrev pub IsCrossing : Bytes → Bytes → Publication → Type 0
IsCrossing shim hook p = (p.phase ≡ in_flight) × (p.shim ≡ shim) × (p.hook ≡ hook)

-- A log in which every ending stands right after the crossing of the same hook.
pub data Paired : List Publication → Type 0 where
  empty : Paired []
  crossing :
      {log : List Publication} (p : Publication)
      → p.phase ≡ in_flight
      → Paired log
      → Paired (p ∷ log)
  ended :
      {log : List Publication} (e p : Publication)
      → e.phase ≢ in_flight
      → IsCrossing e.shim e.hook p
      → Paired log
      → Paired (e ∷ p ∷ log)

abbrev is_in_flight : HookState → Bool
is_in_flight in_flight = true
is_in_flight returned = false
is_in_flight panicked = false

-- The crossings in a log.
abbrev pub crossings : List Publication → ℕ
crossings [] = 0
crossings (p ∷ log) = if is_in_flight p.phase then suc (crossings log) else crossings log

-- The hook's crossing is being written, or is the last entry.
abbrev IsOpen : Bytes → Bytes → Watchdog → Type 0
IsOpen shim hook w =
    ((p : Publication) × (w.publishing ≡ some p) × IsCrossing shim hook p)
    ⊎ ((w.publishing ≡ none)
        × ((p : Publication) × (rest : List Publication) × (w.log ≡ p ∷ rest)
            × IsCrossing shim hook p))

-- A crossing on its way to the log, and an invocation that may still cross.
abbrev pending : Option Publication → ℕ
pending none = 0
pending (some p) = 1

abbrev unspent : Bool → Bool → ℕ
unspent true false = 1
unspent true true = 0
unspent false crossed = 0

record IsValid (n : ℕ) (w : Watchdog) : Type 0 where
  spent : w.count + pending w.publishing + unspent w.active w.crossed ≤ n
  paired : Paired w.log
  counted : w.count ≡ crossings w.log
  ready : (p : Publication) → w.publishing ≡ some p → p.phase ≡ in_flight
  open_now : w.active ≡ true → w.crossed ≡ true → IsOpen w.shim w.hook w
  closing : (e : Publication) → w.ending ≡ some e → IsOpen e.shim e.hook w × (e.phase ≢ in_flight)
  one_at_a_time : (e : Publication) → w.ending ≡ some e → w.active ≡ false

new_watchdog-IsValid : IsValid 0 new_watchdog
new_watchdog-IsValid = record {
  spent = omega arith;
  paired = empty;
  counted = refl;
  ready = λ p h. cc h;
  open_now = λ h k. cc k;
  closing = λ e h. cc h;
  one_at_a_time = λ e h. refl;
}

IsValid-if :
    {n : ℕ} (b : Bool) (x y : Watchdog)
    → (b ≡ true → IsValid n x)
    → (b ≡ false → IsValid n y)
    → IsValid n (if b then x else y)
IsValid-if true x y h k = h refl
IsValid-if false x y h k = k refl

IsValid-pair :
    {n : ℕ} (b : Bool) (x y : Watchdog × Bool)
    → (b ≡ true → IsValid n x.0)
    → (b ≡ false → IsValid n y.0)
    → IsValid n (if b then x else y).0
IsValid-pair true x y h k = h refl
IsValid-pair false x y h k = k refl

IsValid-suc : {n : ℕ} {w : Watchdog} → IsValid n w → IsValid (suc n) w
IsValid-suc v = record {
  spent = omega (arith, v.spent);
  paired = v.paired;
  counted = v.counted;
  ready = v.ready;
  open_now = v.open_now;
  closing = v.closing;
  one_at_a_time = v.one_at_a_time;
}

claim_spent :
    (active crossed : Bool) (p : Option Publication) (count n : ℕ)
    → (not active || crossed) ≡ false
    → p ≡ none
    → count + pending p + unspent active crossed ≤ n
    → count + 1 + unspent active true ≤ n
claim_spent true false p count n h free spent = omega (arith, spent)
claim_spent true true p count n h free spent = cc h
claim_spent false crossed p count n h free spent = cc h

begin-IsValid :
    {n : ℕ} (shim hook : Bytes) (now : ℕ) (w : Watchdog)
    → w.ending ≡ none
    → IsValid n w
    → IsValid (suc n) (begin shim hook now w).0
unfolding begin
begin-IsValid shim hook now w free v =
    IsValid-pair w.active (w, false) _ (λ e. IsValid-suc v)
      (λ e. record {
        spent = omega (arith, v.spent);
        paired = v.paired;
        counted = v.counted;
        ready = v.ready;
        open_now = λ h k. cc k;
        closing = λ p h. cc (free, h);
        one_at_a_time = λ p h. cc (free, h);
      })

or_false : (a b : Bool) → (not a || b) ≡ false → a ≡ true
or_false true b h = refl
or_false false b h = cc h

claim-IsValid :
    {n : ℕ} (threshold now : ℕ) (w : Watchdog)
    → w.publishing ≡ none
    → IsValid n w
    → IsValid n (claim threshold now w)
unfolding claim
claim-IsValid threshold now w free v =
    IsValid-if (not w.active || w.crossed) w _ (λ e. v)
      (λ e.
        IsValid-if (ltb (now - w.started) threshold) w _ (λ f. v)
          (λ f. record {
            spent = claim_spent w.active w.crossed w.publishing w.count _ e free v.spent;
            paired = v.paired;
            counted = v.counted;
            ready = λ p h. ap (λ t. t.phase) (sym (some-injective _ _ h));
            open_now = λ h k. inl (publication in_flight now w, refl, (refl, refl, refl));
            closing = λ p h. cc (or_false w.active w.crossed e, v.one_at_a_time p h);
            one_at_a_time = v.one_at_a_time;
          }))

abbrev published : Watchdog → Publication → Watchdog
published w p = record w { publishing = none; log = p ∷ w.log; count = suc w.count }

IsOpen-published :
    (shim hook : Bytes) (w : Watchdog) (p : Publication)
    → w.publishing ≡ some p
    → IsOpen shim hook w
    → IsOpen shim hook (published w p)
IsOpen-published shim hook w p e (inl (q, f, c)) =
    inr (
      refl,
      (p, w.log, refl, subst (λ t. IsCrossing shim hook t) (some-injective _ _ (sym f ∙ e)) c),
    )
IsOpen-published shim hook w p e (inr (f, rest)) = cc (e, f)

crossings_in_flight :
    (p : Publication) (log : List Publication)
    → p.phase ≡ in_flight
    → crossings (p ∷ log) ≡ suc (crossings log)
crossings_in_flight p log h = rw h refl

phase_cases : (phase : HookState) → phase ≢ in_flight → is_in_flight phase ≡ false
phase_cases in_flight h = absurd (h refl)
phase_cases returned h = refl
phase_cases panicked h = refl

publish_some-IsValid :
    {n : ℕ} (w : Watchdog) (p : Publication)
    → w.publishing ≡ some p
    → IsValid n w
    → IsValid n (published w p)
publish_some-IsValid w p e v = record {
  spent = omega (arith, v.spent, ap pending e);
  paired = crossing p (v.ready p e) v.paired;
  counted = ap suc v.counted ∙ sym (crossings_in_flight p w.log (v.ready p e));
  ready = λ q h. cc h;
  open_now = λ h k. IsOpen-published w.shim w.hook w p e (v.open_now h k);
  closing = λ q h. (IsOpen-published q.shim q.hook w p e (v.closing q h).0, (v.closing q h).1);
  one_at_a_time = v.one_at_a_time;
}

IsValid-option :
    {n : ℕ} {A : Type 0} (o : Option A) (w : Watchdog) (f : A → Watchdog)
    → IsValid n w
    → ((a : A) → o ≡ some a → IsValid n (f a))
    → IsValid n (elim o [ none ↦ w | some a ↦ f a ])
IsValid-option none w f h k = h
IsValid-option (some a) w f h k = k a refl

publish-IsValid : {n : ℕ} (w : Watchdog) → IsValid n w → IsValid n (publish w)
unfolding publish
publish-IsValid w v =
    IsValid-option w.publishing w (published w) v (λ p e. publish_some-IsValid w p e v)

abandon-IsValid : {n : ℕ} (w : Watchdog) → IsValid n w → IsValid n (abandon w)
abandon-IsValid w v = record {
  spent = omega (arith, v.spent);
  paired = v.paired;
  counted = v.counted;
  ready = v.ready;
  open_now = λ h k. cc h;
  closing = v.closing;
  one_at_a_time = λ e h. refl;
}

not-false : (a : Bool) → not a ≡ false → a ≡ true
not-false true h = refl
not-false false h = cc h

finish-IsValid :
    {n : ℕ} (phase : HookState) (now : ℕ) (w : Watchdog)
    → phase ≢ in_flight
    → IsValid n w
    → IsValid n (finish phase now w)
unfolding finish
finish-IsValid phase now w ends v =
    IsValid-if (not w.active) w _ (λ e. v)
      (λ e.
        IsValid-if (not w.crossed) (abandon w) _ (λ f. abandon-IsValid w v)
          (λ f. record {
            spent = omega (arith, v.spent);
            paired = v.paired;
            counted = v.counted;
            ready = v.ready;
            open_now = λ h k. cc h;
            closing = λ p h.
                subst (λ t. IsOpen t.shim t.hook w × (t.phase ≢ in_flight)) (some-injective _ _ h)
                  (v.open_now (not-false w.active e) (not-false w.crossed f), ends);
            one_at_a_time = λ p h. refl;
          }))

Paired-rest :
    {p : Publication} {rest : List Publication}
    → Paired (p ∷ rest)
    → p.phase ≡ in_flight
    → Paired rest
Paired-rest (crossing p e later) h = later
Paired-rest (ended e p ends c later) h = absurd (ends h)

write_some-IsValid :
    {n : ℕ} (w : Watchdog) (e : Publication)
    → w.publishing ≡ none
    → w.ending ≡ some e
    → IsValid n w
    → IsValid n (record w { ending = none; log = e ∷ w.log })
write_some-IsValid w e free h v = elim (v.closing e h).0 [
  | inl (p, f, c) ↦ cc (free, f)
  | inr (f, (p, rest, same, c)) ↦ record {
    spent = v.spent;
    paired =
        subst (λ t. Paired (e ∷ t)) (sym same)
          (ended e p (v.closing e h).1 c (Paired-rest (subst (λ t. Paired t) same v.paired) c.0));
    counted = rw (phase_cases e.phase (v.closing e h).1) v.counted;
    ready = v.ready;
    open_now = λ g k. cc (g, v.one_at_a_time e h);
    closing = λ q g. cc g;
    one_at_a_time = λ q g. cc g;
  }
]

write_ending-IsValid :
    {n : ℕ} (w : Watchdog) → w.publishing ≡ none → IsValid n w → IsValid n (write_ending w)
unfolding write_ending
write_ending-IsValid w free v =
    IsValid-option w.ending w _ v (λ e h. write_some-IsValid w e free h v)

Step-IsValid :
    {n : ℕ} {threshold : ℕ} {w w' : Watchdog} → Step threshold w w' → IsValid n w → IsValid n w'
Step-IsValid {threshold = threshold} (claims {w} now free) v = claim-IsValid threshold now w free v
Step-IsValid (publishes {w}) v = publish-IsValid w v
Step-IsValid (finishes {w} phase now ends) v = finish-IsValid phase now w ends v
Step-IsValid (writes {w} free) v = write_ending-IsValid w free v
Step-IsValid (abandons {w}) v = abandon-IsValid w v

Reachable-IsValid : {threshold n : ℕ} {w : Watchdog} → Reachable threshold n w → IsValid n w
Reachable-IsValid start = new_watchdog-IsValid
Reachable-IsValid (begins {n = n} {w = w} shim hook now before free) =
    begin-IsValid {n = n} shim hook now w free (Reachable-IsValid before)
Reachable-IsValid (next before step) = Step-IsValid step (Reachable-IsValid before)

-- Takes any state that a number of invocations lead to, in whatever order their steps and the timer's
-- interleave. In the log, every ending stands right after the crossing of the same shim and hook; and
-- the overruns counted are the crossings logged, at most one for each invocation.
pub Reachable-Paired :
    {threshold n : ℕ} (w : Watchdog)
    → Reachable threshold n w
    → Paired w.log × (w.count ≡ crossings w.log) × (w.count ≤ n)
Reachable-Paired w h = let v = Reachable-IsValid h in (v.paired, v.counted, omega (arith, v.spent))
