-- ===== src/Identity/DeviceFlow/Polling.antt =====
-- The pace of the polls.
use copilotd.Prelude.{
  ℕ, suc, ◌+◌, ◌*◌, ◌%◌, ◌^◌, ◌≤◌, ◌<◌, true, false, List, [], ◌∷◌, some, Bytes, ltb, ℤ, pos,
  negsuc, ltb_ℤ, ◌≡◌, refl, ◌∙◌, arith, ◌⊎◌, inl, inr, length, All, Bool-cases, Option-cases,
  if◌then◌else◌, lt→ltb,
}
use copilotd.Identity.DeviceFlow.{
  of_residue, seconds, five_seconds, increased, DeviceCode, AccessToken, Reply, no_reply, reply,
  Poll, cancelled, polled, LoginError, Codec, slowed, first_interval, Verdict, token, again, failed,
  verdict, answer, poll_from, poll_for_token,
}

-- Each interval is a natural number of nanoseconds, and none is below `low` or the one before it.
abbrev pub Paced : ℕ → List ℤ → Type 0
Paced low [] = Unit
Paced low (d ∷ ds) = (n : ℕ) × (d ≡ pos n) × (low ≤ n) × Paced n ds

-- At most 4 * 10 ^ 18 nanoseconds, or 126 years.
abbrev pub IsModest : ℤ → Type 0
IsModest d = ltb_ℤ (pos (4 * 10 ^ 18)) d ≡ false

of_residue_pos : (n : ℕ) → n < 2 ^ 63 → of_residue (n % 2 ^ 64) ≡ pos n
of_residue_pos n h =
    let e : n % 2 ^ 64 ≡ n = omega arith in
    let small : ltb n (2 ^ 63) ≡ true = lt→ltb n (2 ^ 63) h in rw (e, small) refl

-- The bound on the interval after `k` rounds.
abbrev limit : ℕ → ℕ
limit k = 4 * 10 ^ 18 + k * five_seconds

increased_pos : (n k : ℕ) → n ≤ limit k → k ≤ 10 ^ 9 → increased (pos n) ≡ pos (n + five_seconds)
unfolding increased
increased_pos n k h few = of_residue_pos (n + five_seconds) (omega arith)

-- The larger of the interval and the one that is asked for.
larger :
    (n k : ℕ) (d : ℤ)
    → n ≤ limit k
    → IsModest d
    → (m : ℕ) × ((if ltb_ℤ (pos n) d then d else pos n) ≡ pos m) × (n ≤ m) × (m ≤ limit k)
larger n k (pos s) h modest = elim (Bool-cases (ltb_ℤ (pos n) (pos s))) [
  | inl e ↦ (s, rw e refl, ground arith, ground arith)
  | inr e ↦ (n, rw e refl, omega arith, h)
]
larger n k (negsuc s) h modest = elim (Bool-cases (ltb_ℤ (pos n) (negsuc s))) [
  | inl e ↦ ground arith
  | inr e ↦ (n, rw e refl, omega arith, h)
]

slowed_paced :
    (n k : ℕ) (asked : ℤ)
    → n ≤ limit k
    → k ≤ 10 ^ 9
    → IsModest (seconds asked)
    → (m : ℕ) × (slowed (pos n) asked ≡ pos m) × (n ≤ m) × (m ≤ limit (suc k))
unfolding slowed
slowed_paced n k asked h few modest =
    let (m, e, least, most) =
      larger (n + five_seconds) (suc k) (seconds asked) (omega arith) modest in
    (m, rw (increased_pos n k h few) e, omega arith, most)

at_least_five :
    (d : ℤ)
    → IsModest d
    → (m : ℕ) × ((if ltb_ℤ d (pos five_seconds) then pos five_seconds else d) ≡ pos m)
      × (five_seconds ≤ m)
      × (m ≤ limit 0)
at_least_five (pos s) modest = elim (Bool-cases (ltb_ℤ (pos s) (pos five_seconds))) [
  | inl e ↦ (five_seconds, rw e refl, omega arith, omega arith)
  | inr e ↦ (s, rw e refl, ground arith, ground arith)
]
at_least_five (negsuc s) modest = (five_seconds, ground arith, omega arith, omega arith)

first_interval_paced :
    (dc : DeviceCode)
    → IsModest (seconds dc.interval)
    → (m : ℕ) × (first_interval dc ≡ pos m) × (five_seconds ≤ m) × (m ≤ limit 0)
unfolding first_interval
first_interval_paced dc modest = at_least_five (seconds dc.interval) modest

verdict_again :
    (interval next : ℤ) (at : AccessToken)
    → verdict interval at ≡ again next
    → (next ≡ interval) ⊎ (next ≡ slowed interval at.interval)
unfolding verdict
verdict_again interval next at h = ground arith

pub Verdict-cases :
    (v : Verdict)
    → ((value : Bytes) × (v ≡ token value))
      ⊎ (((next : ℤ) × (v ≡ again next)) ⊎ ((reason : LoginError) × (v ≡ failed reason)))
Verdict-cases (token value) = inl (value, refl)
Verdict-cases (again next) = inr (inl (next, refl))
Verdict-cases (failed reason) = inr (inr (reason, refl))

Paced-weaken : (low m : ℕ) (ds : List ℤ) → low ≤ m → Paced m ds → Paced low ds
Paced-weaken low m [] h p = tt
Paced-weaken low m (d ∷ ds) h (n, e, least, rest) = (n, e, omega arith, rest)

module _ (codec : Codec) where
  -- The interval that a poll's answer asks for is modest.
  abbrev pub IsModestPoll : Poll → Type 0
  IsModestPoll cancelled = Unit
  IsModestPoll (polled no_reply) = Unit
  IsModestPoll (polled (reply status body)) =
      (at : AccessToken) → codec.decode_access_token body ≡ some at → IsModest (seconds at.interval)

  answer_paced :
      (n k : ℕ) (response : Reply) (next : ℤ)
      → n ≤ limit k
      → k ≤ 10 ^ 9
      → IsModestPoll (polled response)
      → answer codec (pos n) response ≡ again next
      → (m : ℕ) × (next ≡ pos m) × (n ≤ m) × (m ≤ limit (suc k))
  unfolding answer
  answer_paced n k no_reply next h few modest e = cc e
  answer_paced n k (reply status body) next h few modest e =
      elim (Option-cases (codec.decode_access_token body)) [
        | inl d ↦ cc (rw (d, answer) at e)
        | inr (at, d) ↦ elim (verdict_again (pos n) next at (rw (d, answer) at e)) [
          | inl same ↦ (n, same, omega arith, omega arith)
          | inr slower ↦
              let (m, e', least, most) = slowed_paced n k at.interval h few (modest at d) in
              (m, slower ∙ e', least, most)
        ]
      ]

  poll_from-Paced :
      (n k : ℕ) (polls : List Poll)
      → n ≤ limit k
      → k + length polls ≤ 10 ^ 9
      → All IsModestPoll polls
      → Paced n (poll_from codec (pos n) polls).1
  unfolding poll_from
  poll_from-Paced n k [] h few modest = tt
  poll_from-Paced n k (cancelled ∷ polls) h few modest = (n, refl, omega arith, tt)
  poll_from-Paced n k (polled response ∷ polls) h few modest =
      elim (Verdict-cases (answer codec (pos n) response)) [
        | inl (value, e) ↦ rw (e, poll_from) (n, refl, omega arith, tt)
        | inr (inr (reason, e)) ↦ rw (e, poll_from) (n, refl, omega arith, tt)
        | inr (inl (next, e)) ↦
            let (m, same, least, most) =
              answer_paced n k response next h (omega arith) modest.0 e in
            let later = poll_from-Paced m (suc k) polls most (omega arith) modest.1 in
            rw (e, same, poll_from) (n, refl, omega arith, Paced-weaken n m _ least later)
      ]

  -- Takes at most 10 ^ 9 polls, where the interval that the device code and each answer ask for is at
  -- most 4 * 10 ^ 18 nanoseconds. Every interval slept is at least five seconds and at least the one
  -- slept before it.
  pub poll_for_token-Paced :
      (dc : DeviceCode) (polls : List Poll)
      → IsModest (seconds dc.interval)
      → length polls ≤ 10 ^ 9
      → All IsModestPoll polls
      → Paced five_seconds (poll_for_token codec dc polls).1
  unfolding poll_for_token
  poll_for_token-Paced dc polls modest few all =
      let (m, e, least, most) = first_interval_paced dc modest in
      rw e (Paced-weaken five_seconds m _ least (poll_from-Paced m 0 polls most (omega arith) all))
