-- ===== src/Sse/Pump/NoDoubleUp.antt =====
-- How a stream may end (internal/sse/pump.go): every step keeps the invariant of `Wire`.
use copilotd.Prelude.{
  ℕ, ◌+◌, ◌≡◌, refl, List, [], ◌∷◌, Option, none, some, Bool, true, false, if◌then◌else◌,
}
use copilotd.Sse.Frame.{Frame}
use copilotd.Sse.Pump.{
  Outcome, clean, synthesized, stall, upstream_error, shim_error, frame, Transformer, Policy,
  Checkpoint, before_stall, after_finalize, after_transform, before_read, after_tick, at_close,
  ReadResult, got, eof, failed, Pending, nothing, closed, ready, Wake, context_done, stall_tick,
  keepalive_tick, reads_closed, reads_ready, Round, State, Flow, go, stop, emit, render_outcome,
  write_keepalive, close_reads, count_frame, write_frames, unless_terminal, after_finalized,
  finish_pre_terminal, after_frames, write_round, transform_panicked, after_transformed, forward,
  on_stall, on_result, on_read, on_stall_tick, on_keepalive_tick, dispatch, round, pump, initial,
  is_empty, is_late, stall_time, ends,
}
use copilotd.Sse.Pump.Wire.{
  IsLive, Holds, IsCause, cancel_ends, write_keepalive-Holds, count_frame-Holds,
  render_outcome-Holds,
}

module _ {T : Type 0} (policy : Policy) where
  -- A step that goes on from where another stopped going.
  bind-Holds :
      (m : Flow T) (f : State T → Flow T)
      → Holds policy m
      → ((t : State T) → IsLive policy t → Holds policy (f t))
      → Holds policy (elim m [ go t ↦ f t | stop t ↦ stop t ])
  bind-Holds (go t) f h k = k t h
  bind-Holds (stop t) f h k = h

  write_frames-Holds :
      (frames : List Frame) (s : State T)
      → IsLive policy s
      → Holds policy (write_frames policy frames s)
  unfolding write_frames
  write_frames-Holds [] s h = h
  write_frames-Holds (f ∷ rest) s h =
      bind-Holds (emit (frame f) (count_frame policy f) s) (write_frames policy rest)
        (count_frame-Holds policy f s h) (write_frames-Holds rest)

  if-Holds :
      (b : Bool) (x y : Flow T)
      → (b ≡ true → Holds policy x)
      → (b ≡ false → Holds policy y)
      → Holds policy (if b then x else y)
  if-Holds true x y p q = p refl
  if-Holds false x y p q = q refl

  clean_ends : (s : State T) → IsLive policy s → s.saw_terminal ≡ true → Holds policy (ends clean s)
  clean_ends s h e = record {
    count = record { counted = h.count.counted; seen = h.count.seen };
    close = (h.quiet, e);
  }

  unless_terminal-Holds :
      (rest : State T → Flow T) (s : State T)
      → IsLive policy s
      → (s.saw_terminal ≡ false → Holds policy (rest s))
      → Holds policy (unless_terminal policy rest s)
  unfolding unless_terminal
  unless_terminal-Holds rest s h = if-Holds s.saw_terminal (ends clean s) (rest s) (clean_ends s h)

  close_reads-Holds : (b : Bool) (s : State T) → IsLive policy s → Holds policy (close_reads b s)
  unfolding close_reads
  close_reads-Holds true s h = cancel_ends policy s h
  close_reads-Holds false s h = record { count = h.count; close = rw h.undecided h.quiet }

  after_finalized-Holds :
      (cause : Outcome) (b : Bool) (o : Option (List Frame)) (s : State T)
      → IsCause policy cause
      → s.saw_terminal ≡ false
      → IsLive policy s
      → Holds policy (after_finalized policy cause b o s)
  unfolding after_finalized
  after_finalized-Holds cause true o s c e h = cancel_ends policy s h
  after_finalized-Holds cause false none s c e h = render_outcome-Holds policy shim_error s tt e h
  after_finalized-Holds cause false (some frames) s c e h =
      bind-Holds (write_frames policy frames s) (unless_terminal policy (render_outcome cause))
        (write_frames-Holds frames s h)
        (λ t k.
          unless_terminal-Holds (render_outcome cause) t k
            (λ f. render_outcome-Holds policy cause t c f k))

  -- The shims' own state stands outside the invariant.
  shimmed : (s : State T) (shims : T) → IsLive policy s → IsLive policy (record s { shims = shims })
  shimmed s shims h = record {
    count = record { counted = h.count.counted; seen = h.count.seen };
    quiet = h.quiet;
    undecided = h.undecided;
  }

  finish_pre_terminal-Holds :
      (x : Option (Transformer T)) (cause : Outcome) (cancelled : Checkpoint → Bool) (s : State T)
      → IsCause policy cause
      → s.saw_terminal ≡ false
      → IsLive policy s
      → Holds policy (finish_pre_terminal policy x cause cancelled s)
  unfolding finish_pre_terminal
  finish_pre_terminal-Holds none cause cancelled s c e h = render_outcome-Holds policy cause s c e h
  finish_pre_terminal-Holds (some x) cause cancelled s c e h =
      let (o, shims) = x.finalize s.shims in
      after_finalized-Holds cause (cancelled after_finalize) o (record s { shims = shims }) c e
        (shimmed s shims h)

  after_frames-Holds :
      (k e : Bool) (s : State T) → IsLive policy s → Holds policy (after_frames policy k e s)
  unfolding after_frames
  after_frames-Holds true true s h =
      unless_terminal-Holds write_keepalive s h (λ e. write_keepalive-Holds policy s h)
  after_frames-Holds true false s h = h
  after_frames-Holds false _ s h = h

  write_round-Holds :
      (k : Bool) (frames : List Frame) (s : State T)
      → IsLive policy s
      → Holds policy (write_round policy k frames s)
  unfolding write_round
  write_round-Holds k frames s h =
      bind-Holds (write_frames policy frames s) (after_frames policy k (is_empty frames))
        (write_frames-Holds frames s h) (after_frames-Holds k (is_empty frames))

  transform_panicked-Holds :
      (s : State T) → IsLive policy s → Holds policy (transform_panicked policy s)
  unfolding transform_panicked
  transform_panicked-Holds s h =
      if-Holds s.saw_terminal (ends clean (record s { suppressed = s.suppressed + 1 }))
        (render_outcome shim_error s)
        (λ e. record {
          count = record { counted = h.count.counted; seen = h.count.seen };
          close = (h.quiet, e);
        })
        (λ e. render_outcome-Holds policy shim_error s tt e h)

  after_transformed-Holds :
      (k b : Bool) (o : Option (List Frame)) (s : State T)
      → IsLive policy s
      → Holds policy (after_transformed policy k b o s)
  unfolding after_transformed
  after_transformed-Holds k true o s h = cancel_ends policy s h
  after_transformed-Holds k false none s h = transform_panicked-Holds s h
  after_transformed-Holds k false (some frames) s h = write_round-Holds k frames s h

  forward-Holds :
      (y : Option (Transformer T)) (k : Bool) (cancelled : Checkpoint → Bool) (f : Frame)
      (s : State T)
      → IsLive policy s
      → Holds policy (forward policy y k cancelled f s)
  unfolding forward
  forward-Holds none k cancelled f s h = write_round-Holds k (f ∷ []) s h
  forward-Holds (some y) k cancelled f s h =
      let (o, shims) = y.transform s.shims f in
      after_transformed-Holds k (cancelled after_transform) o (record s { shims = shims })
        (shimmed s shims h)

  module _ (x : Option (Transformer T)) where
    on_stall-Holds :
        (cancelled : Checkpoint → Bool) (s : State T)
        → IsLive policy s
        → Holds policy (on_stall policy x cancelled s)
    unfolding on_stall
    on_stall-Holds cancelled s h =
        if-Holds (cancelled before_stall) _ _ (λ e. cancel_ends policy s h)
          (λ e.
            unless_terminal-Holds (finish_pre_terminal policy x stall cancelled) s h
              (λ f. finish_pre_terminal-Holds x stall cancelled s tt f h))

    on_result-Holds :
        (k : Bool) (cancelled : Checkpoint → Bool) (r : ReadResult) (s : State T)
        → IsLive policy s
        → Holds policy (on_result policy x k cancelled r s)
    unfolding on_result
    on_result-Holds k cancelled (got f) s h = forward-Holds x k cancelled f s h
    on_result-Holds k cancelled eof s h =
        unless_terminal-Holds (finish_pre_terminal policy x synthesized cancelled) s h
          (λ f. finish_pre_terminal-Holds x synthesized cancelled s tt f h)
    on_result-Holds k cancelled failed s h =
        unless_terminal-Holds (finish_pre_terminal policy x upstream_error cancelled) s h
          (λ f. finish_pre_terminal-Holds x upstream_error cancelled s tt f h)

    on_read-Holds :
        (r : Round) (at : Option ℕ) (k : Bool) (result : ReadResult) (received : Option ℕ)
        (s : State T)
        → IsLive policy s
        → Holds policy (on_read policy x r at k result received s)
    unfolding on_read
    on_read-Holds r at k result none s h = cancel_ends policy s h
    on_read-Holds r at k result (some received) s h =
        if-Holds (is_late (stall_time policy.idle_timeout at r.late_tick) received) _ _
          (λ e. on_stall-Holds r.cancelled s h)
          (λ e.
            if-Holds (r.cancelled before_read) _ _ (λ f. cancel_ends policy s h)
              (λ f. on_result-Holds k r.cancelled result s h))

    on_stall_tick-Holds :
        (r : Round) (at : ℕ) (p : Pending) (s : State T)
        → IsLive policy s
        → Holds policy (on_stall_tick policy x r at p s)
    unfolding on_stall_tick
    on_stall_tick-Holds r at nothing s h = on_stall-Holds r.cancelled s h
    on_stall_tick-Holds r at closed s h = close_reads-Holds (r.cancelled at_close) s h
    on_stall_tick-Holds r at (ready result) s h =
        on_read-Holds r (some at) false result r.received_at s h

    on_keepalive_tick-Holds :
        (r : Round) (p : Pending) (s : State T)
        → IsLive policy s
        → Holds policy (on_keepalive_tick policy x r p s)
    unfolding on_keepalive_tick
    on_keepalive_tick-Holds r nothing s h =
        unless_terminal-Holds write_keepalive s h (λ e. write_keepalive-Holds policy s h)
    on_keepalive_tick-Holds r closed s h = close_reads-Holds (r.cancelled at_close) s h
    on_keepalive_tick-Holds r (ready result) s h =
        on_read-Holds r none true result r.received_at s h

    dispatch-Holds :
        (w : Wake) (r : Round) (s : State T)
        → IsLive policy s
        → Holds policy (dispatch policy x w r s)
    unfolding dispatch
    dispatch-Holds context_done r s h = cancel_ends policy s h
    dispatch-Holds (stall_tick at p) r s h =
        if-Holds (r.cancelled after_tick) _ _ (λ e. cancel_ends policy s h)
          (λ e. on_stall_tick-Holds r at p s h)
    dispatch-Holds (keepalive_tick p) r s h =
        if-Holds (r.cancelled after_tick) _ _ (λ e. cancel_ends policy s h)
          (λ e. on_keepalive_tick-Holds r p s h)
    dispatch-Holds reads_closed r s h = close_reads-Holds (r.cancelled at_close) s h
    dispatch-Holds (reads_ready result) r s h = on_read-Holds r none false result r.received_at s h

    pump-Holds :
        (rounds : List Round) (s : State T)
        → IsLive policy s
        → Holds policy (pump policy x rounds s)
    unfolding pump round
    pump-Holds [] s h = h
    pump-Holds (r ∷ rounds) s h =
        bind-Holds (dispatch policy x r.wake r s) (pump policy x rounds)
          (dispatch-Holds r.wake r s h) (pump-Holds rounds)

  -- Whatever a stream meets, the counters tell what is on the wire, and a pump that has ended has
  -- either rendered nothing (a clean end has written a terminal frame), or it has rendered one
  -- terminal error, which is the outcome that it reports, as its last write and behind no terminal
  -- frame. A pump that goes on has rendered nothing.
  pub pump_ends_once :
      (x : Option (Transformer T)) (rounds : List Round) (room : ℕ) (shims : T)
      → Holds policy (pump policy x rounds (initial room shims))
  pump_ends_once x rounds room shims =
      pump-Holds x rounds (initial room shims)
        (record { count = record { counted = refl; seen = refl }; quiet = tt; undecided = refl })
