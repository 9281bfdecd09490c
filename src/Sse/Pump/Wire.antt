-- ===== src/Sse/Pump/Wire.antt =====
-- The invariant of the pump (internal/sse/pump.go), and what its three kinds of write do to it.
use copilotd.Prelude.{
  ℕ, zero, suc, ◌≡◌, refl, ap, arith, List, [], ◌∷◌, ◌++◌, Bool, true, false, ◌||◌, length,
  length-append, append-nil,
}
use copilotd.Sse.Frame.{Frame}
use copilotd.Sse.Pump.{
  Outcome, unset, clean, client_cancel, Item, frame, keepalive, rendered, Policy, State, Flow, go,
  stop, emit, render_outcome, write_keepalive, count_frame, ends,
}

abbrev pub frames_of : List Item → List Frame
frames_of [] = []
frames_of (frame f ∷ items) = f ∷ frames_of items
frames_of (keepalive ∷ items) = frames_of items
frames_of (rendered o ∷ items) = frames_of items

pub frames_of-append : (xs ys : List Item) → frames_of (xs ++ ys) ≡ frames_of xs ++ frames_of ys
frames_of-append [] ys = refl
frames_of-append (frame f ∷ xs) ys = ap (λ l. f ∷ l) (frames_of-append xs ys)
frames_of-append (keepalive ∷ xs) ys = frames_of-append xs ys
frames_of-append (rendered o ∷ xs) ys = frames_of-append xs ys

abbrev pub NoErrors : List Item → Type 0
NoErrors [] = Unit
NoErrors (frame f ∷ items) = NoErrors items
NoErrors (keepalive ∷ items) = NoErrors items
NoErrors (rendered o ∷ items) = ⊥

NoErrors-append : (xs ys : List Item) → NoErrors xs → NoErrors ys → NoErrors (xs ++ ys)
NoErrors-append [] ys h k = k
NoErrors-append (frame f ∷ xs) ys h k = NoErrors-append xs ys h k
NoErrors-append (keepalive ∷ xs) ys h k = NoErrors-append xs ys h k
NoErrors-append (rendered o ∷ xs) ys h k = absurd h

module _ (policy : Policy) where
  -- Whether one of the frames is terminal.
  abbrev pub any_terminal : List Frame → Bool
  any_terminal [] = false
  any_terminal (f ∷ rest) = policy.terminal f.kind || any_terminal rest

  any_terminal-concat :
      (xs : List Frame) (f : Frame)
      → any_terminal (xs ++ f ∷ []) ≡ (policy.terminal f.kind || any_terminal xs)
  any_terminal-concat [] f = refl
  any_terminal-concat (x ∷ xs) f = ground (arith, any_terminal-concat xs f)

  -- The counters tell what is on the wire.
  pub record IsCounted {T : Type 0} (s : State T) : Type 0 where
    pub counted : s.frames ≡ length (frames_of s.wire)
    pub seen : s.saw_terminal ≡ any_terminal (frames_of s.wire)

  -- A rendered error stands last and alone.
  abbrev pub Last : Outcome → List Item → Type 0
  Last o wire = (w : List Item) × (wire ≡ w ++ rendered o ∷ []) × NoErrors w

  -- What the outcome says of the wire, given whether a terminal frame was written.
  abbrev pub Close : Outcome → List Item → Bool → Type 0
  Close unset wire saw = NoErrors wire
  Close clean wire saw = NoErrors wire × (saw ≡ true)
  Close client_cancel wire saw = NoErrors wire
  Close o wire saw = Last o wire × (saw ≡ false)

  pub record IsLive {T : Type 0} (s : State T) : Type 0 where
    pub count : IsCounted s
    pub quiet : NoErrors s.wire
    pub undecided : s.outcome ≡ unset

  pub record IsEnded {T : Type 0} (s : State T) : Type 0 where
    pub count : IsCounted s
    pub close : Close s.outcome s.wire s.saw_terminal

  abbrev pub Holds : {T : Type 0} → Flow T → Type 0
  Holds (go s) = IsLive s
  Holds (stop s) = IsEnded s

  abbrev pub IsCause : Outcome → Type 0
  IsCause unset = ⊥
  IsCause clean = ⊥
  IsCause client_cancel = ⊥
  IsCause o = Unit

  closing :
      (o : Outcome) (wire : List Item) (saw : Bool)
      → IsCause o
      → NoErrors wire
      → saw ≡ false
      → Close o (wire ++ rendered o ∷ []) saw
  closing unset wire saw c h e = absurd c
  closing clean wire saw c h e = absurd c
  closing client_cancel wire saw c h e = absurd c
  closing _ wire saw c h e = ((wire, refl, h), e)

  module _ {T : Type 0} where
    pub cancel_ends : (s : State T) → IsLive s → Holds (ends client_cancel s)
    cancel_ends s h = record {
      count = record { counted = h.count.counted; seen = h.count.seen };
      close = h.quiet;
    }

    pub write_keepalive-Holds : (s : State T) → IsLive s → Holds (write_keepalive s)
    unfolding write_keepalive
    write_keepalive-Holds s h = go_on s.room
      where
        go_on :
            (room : ℕ)
            → Holds (elim room [
              | zero ↦ ends client_cancel s
              | suc n ↦ go (record s { wire = s.wire ++ keepalive ∷ []; room = n })
            ])
        go_on zero = cancel_ends s h
        go_on (suc n) = record {
          count = record {
            counted = rw (frames_of-append, append-nil) h.count.counted;
            seen = rw (frames_of-append, append-nil) h.count.seen;
          };
          quiet = NoErrors-append s.wire (keepalive ∷ []) h.quiet tt;
          undecided = h.undecided;
        }

    pub count_frame-Holds :
        (f : Frame) (s : State T) → IsLive s → Holds (emit (frame f) (count_frame policy f) s)
    unfolding emit count_frame
    count_frame-Holds f s h = go_on s.room
      where
        go_on :
            (room : ℕ)
            → Holds (elim room [
              | zero ↦ ends client_cancel s
              | suc n ↦
                  go (count_frame policy f (record s { wire = s.wire ++ frame f ∷ []; room = n }))
            ])
        go_on zero = cancel_ends s h
        go_on (suc n) = record {
          count = record {
            counted = rw (frames_of-append, length-append) (omega (arith, h.count.counted));
            seen =
                rw (frames_of-append, any_terminal-concat)
                  (ap (λ b. policy.terminal f.kind || b) h.count.seen);
          };
          quiet = NoErrors-append s.wire (frame f ∷ []) h.quiet tt;
          undecided = h.undecided;
        }

    pub render_outcome-Holds :
        (o : Outcome) (s : State T)
        → IsCause o
        → s.saw_terminal ≡ false
        → IsLive s
        → Holds (render_outcome o s)
    unfolding render_outcome
    render_outcome-Holds o s c e h = go_on s.room
      where
        go_on :
            (room : ℕ)
            → Holds
                (elim (elim room as (λ n. Flow T) [
                  | zero ↦ ends client_cancel s
                  | suc n ↦ go (record s { wire = s.wire ++ rendered o ∷ []; room = n })
                ]) [ go t ↦ ends o t | stop t ↦ stop t ])
        go_on zero = cancel_ends s h
        go_on (suc n) = record {
          count = record {
            counted = rw (frames_of-append, append-nil) h.count.counted;
            seen = rw (frames_of-append, append-nil) h.count.seen;
          };
          close = closing o s.wire s.saw_terminal c h.quiet e;
        }
