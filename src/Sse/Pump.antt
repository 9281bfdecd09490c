-- ===== src/Sse/Pump.antt =====
-- internal/sse/pump.go, `Pump`. One round of its loop is a function of what the round meets: the arm
-- that the select takes, the reads and ticks that the inner selects find, and what `ctx.Err()` says
-- at each of its checks. Timers are met as ticks only. A downstream write and its flush are one step:
-- `room` is how many succeed before the first failure, after which the pump writes no more.
pub mod Wire
pub mod NoDoubleUp
use copilotd.Prelude.{
  ℕ, zero, suc, ◌+◌, List, [], ◌∷◌, ◌++◌, Option, none, some, Bool, true, false, ◌||◌, ◌&&◌, ltb,
  if◌then◌else◌, Bytes,
}
use copilotd.Sse.Frame.{Frame}

pub data Outcome : Type 0 where
  unset clean synthesized stall client_cancel upstream_error shim_error : Outcome

-- What reaches the client: a frame's bytes, the comment `:\n\n`, or a rendered terminal error.
pub data Item : Type 0 where
  frame : Frame → Item
  keepalive : Item
  rendered : Outcome → Item

-- `invokeTransform` and `invokeFinalize`: `none` is a recovered panic.
pub record Transformer (T : Type 0) : Type 0 where
  pub transform : T → Frame → Option (List Frame) × T
  pub finalize : T → Option (List Frame) × T

pub record Policy : Type 0 where
  pub terminal : Bytes → Bool
  pub idle_timeout : Bool  -- a stall timer is armed

pub data Checkpoint : Type 0 where
  after_tick before_stall before_read after_transform after_finalize at_close : Checkpoint

pub data ReadResult : Type 0 where
  got : Frame → ReadResult
  eof : ReadResult
  failed : ReadResult

-- What a select on `reads` with a default finds.
pub data Pending : Type 0 where
  nothing : Pending
  closed : Pending
  ready : ReadResult → Pending

pub data Wake : Type 0 where
  context_done : Wake
  stall_tick : ℕ → Pending → Wake
  keepalive_tick : Pending → Wake
  reads_closed : Wake
  reads_ready : ReadResult → Wake

pub record Round : Type 0 where
  pub wake : Wake
  pub cancelled : Checkpoint → Bool
  -- The timestamp that the reader hands over, or `none` where the context ends first.
  pub received_at : Option ℕ
  -- A stall tick that is ready behind a read.
  pub late_tick : Option ℕ

pub record State (T : Type 0) : Type 0 where
  pub outcome : Outcome
  pub frames : ℕ
  pub saw_terminal : Bool
  pub suppressed : ℕ
  pub wire : List Item
  pub room : ℕ
  pub shims : T

pub data Flow (T : Type 0) : Type 0 where
  go : State T → Flow T
  stop : State T → Flow T

abbrev pub initial : {T : Type 0} → ℕ → T → State T
initial room shims = record {
  outcome = unset;
  frames = 0;
  saw_terminal = false;
  suppressed = 0;
  wire = [];
  room = room;
  shims = shims;
}

module _ {T : Type 0} where
  abbrev pub ends : Outcome → State T → Flow T
  ends o s = stop (record s { outcome = o })

  -- One write and flush, or the failure that ends the pump.
  unfoldable pub emit : Item → (State T → State T) → State T → Flow T
  emit item update s = elim s.room [
    | zero ↦ ends client_cancel s
    | suc room ↦ go (update (record s { wire = s.wire ++ item ∷ []; room = room }))
  ]

  unfoldable pub render_outcome : Outcome → State T → Flow T
  unfolding emit
  render_outcome o s = elim (emit (rendered o) (λ t. t) s) [ go t ↦ ends o t | stop t ↦ stop t ]

  unfoldable pub write_keepalive : State T → Flow T
  unfolding emit
  write_keepalive s = emit keepalive (λ t. t) s

  unfoldable pub close_reads : Bool → State T → Flow T
  close_reads true s = ends client_cancel s
  close_reads false s = stop s

abbrev pub is_empty : List Frame → Bool
is_empty [] = true
is_empty (f ∷ rest) = false

-- A read that arrived after the stall tick does not count as progress.
unfoldable pub is_late : Option ℕ → ℕ → Bool
is_late none received = false
is_late (some at) received = ltb at received

-- The tick that the select has received, or else one that is ready where a stall timer is armed.
abbrev pub stall_time : Bool → Option ℕ → Option ℕ → Option ℕ
stall_time armed (some at) late = some at
stall_time armed none late = if armed then late else none

module _ {T : Type 0} (policy : Policy) where
  unfoldable pub count_frame : Frame → State T → State T
  count_frame f s = record s {
    frames = s.frames + 1;
    saw_terminal = policy.terminal f.kind || s.saw_terminal;
  }

  unfoldable pub write_frames : List Frame → State T → Flow T
  unfolding emit count_frame
  write_frames [] s = go s
  write_frames (f ∷ rest) s = elim (emit (frame f) (count_frame f) s) [
    | go t ↦ write_frames rest t
    | stop t ↦ stop t
  ]

  -- Clean where a terminal frame has been written, and otherwise what is given.
  unfoldable pub unless_terminal : (State T → Flow T) → State T → Flow T
  unless_terminal rest s = if s.saw_terminal then ends clean s else rest s

  unfoldable pub after_finalized : Outcome → Bool → Option (List Frame) → State T → Flow T
  unfolding write_frames render_outcome unless_terminal
  after_finalized cause true o s = ends client_cancel s
  after_finalized cause false none s = render_outcome shim_error s
  after_finalized cause false (some frames) s = elim (write_frames frames s) [
    | go t ↦ unless_terminal (render_outcome cause) t
    | stop t ↦ stop t
  ]

  unfoldable pub finish_pre_terminal :
      Option (Transformer T) → Outcome → (Checkpoint → Bool) → State T → Flow T
  unfolding after_finalized render_outcome
  finish_pre_terminal none cause cancelled s = render_outcome cause s
  finish_pre_terminal (some x) cause cancelled s =
      let (o, shims) = x.finalize s.shims in
      after_finalized cause (cancelled after_finalize) o (record s { shims = shims })

  -- The tail of a round that has written its frames; `empty` says that there were none.
  unfoldable pub after_frames : Bool → Bool → State T → Flow T
  unfolding unless_terminal write_keepalive
  after_frames true true s = unless_terminal write_keepalive s
  after_frames _ _ s = go s

  unfoldable pub write_round : Bool → List Frame → State T → Flow T
  unfolding after_frames write_frames
  write_round keepalive_fired frames s = elim (write_frames frames s) [
    | go t ↦ after_frames keepalive_fired (is_empty frames) t
    | stop t ↦ stop t
  ]

  -- A panic behind the terminal is counted and hidden; before it, it is rendered.
  unfoldable pub transform_panicked : State T → Flow T
  unfolding render_outcome
  transform_panicked s =
      if s.saw_terminal
      then ends clean (record s { suppressed = s.suppressed + 1 })
      else render_outcome shim_error s

  unfoldable pub after_transformed : Bool → Bool → Option (List Frame) → State T → Flow T
  unfolding transform_panicked write_round
  after_transformed keepalive_fired true o s = ends client_cancel s
  after_transformed keepalive_fired false none s = transform_panicked s
  after_transformed keepalive_fired false (some frames) s = write_round keepalive_fired frames s

  unfoldable pub forward :
      Option (Transformer T) → Bool → (Checkpoint → Bool) → Frame → State T → Flow T
  unfolding after_transformed write_round
  forward none keepalive_fired cancelled f s = write_round keepalive_fired (f ∷ []) s
  forward (some x) keepalive_fired cancelled f s =
      let (o, shims) = x.transform s.shims f in
      after_transformed keepalive_fired (cancelled after_transform) o (record s { shims = shims })

  module _ (x : Option (Transformer T)) where
    unfoldable pub on_stall : (Checkpoint → Bool) → State T → Flow T
    unfolding finish_pre_terminal unless_terminal
    on_stall cancelled s =
        if cancelled before_stall
        then ends client_cancel s
        else unless_terminal (finish_pre_terminal x stall cancelled) s

    on_result : Bool → (Checkpoint → Bool) → ReadResult → State T → Flow T
    unfolding forward finish_pre_terminal unless_terminal
    on_result keepalive_fired cancelled (got f) s = forward x keepalive_fired cancelled f s
    on_result keepalive_fired cancelled eof s =
        unless_terminal (finish_pre_terminal x synthesized cancelled) s
    on_result keepalive_fired cancelled failed s =
        unless_terminal (finish_pre_terminal x upstream_error cancelled) s

    unfoldable pub on_read : Round → Option ℕ → Bool → ReadResult → Option ℕ → State T → Flow T
    unfolding on_stall on_result is_late
    on_read r stall_at keepalive_fired result none s = ends client_cancel s
    on_read r stall_at keepalive_fired result (some received) s =
        if is_late (stall_time policy.idle_timeout stall_at r.late_tick) received
        then on_stall r.cancelled s
        else if r.cancelled before_read
        then ends client_cancel s
        else on_result keepalive_fired r.cancelled result s

    unfoldable pub on_stall_tick : Round → ℕ → Pending → State T → Flow T
    unfolding on_read on_stall close_reads
    on_stall_tick r at nothing s = on_stall r.cancelled s
    on_stall_tick r at closed s = close_reads (r.cancelled at_close) s
    on_stall_tick r at (ready result) s = on_read r (some at) false result r.received_at s

    unfoldable pub on_keepalive_tick : Round → Pending → State T → Flow T
    unfolding on_read unless_terminal write_keepalive close_reads
    on_keepalive_tick r nothing s = unless_terminal write_keepalive s
    on_keepalive_tick r closed s = close_reads (r.cancelled at_close) s
    on_keepalive_tick r (ready result) s = on_read r none true result r.received_at s

    unfoldable pub dispatch : Wake → Round → State T → Flow T
    unfolding on_stall_tick on_keepalive_tick on_read close_reads
    dispatch context_done r s = ends client_cancel s
    dispatch (stall_tick at pending) r s =
        if r.cancelled after_tick then ends client_cancel s else on_stall_tick r at pending s
    dispatch (keepalive_tick pending) r s =
        if r.cancelled after_tick then ends client_cancel s else on_keepalive_tick r pending s
    dispatch reads_closed r s = close_reads (r.cancelled at_close) s
    dispatch (reads_ready result) r s = on_read r none false result r.received_at s

    unfoldable pub round : Round → State T → Flow T
    unfolding dispatch
    round r s = dispatch r.wake r s

    unfoldable pub pump : List Round → State T → Flow T
    unfolding round
    pump [] s = go s
    pump (r ∷ rounds) s = elim (round r s) [ go t ↦ pump rounds t | stop t ↦ stop t ]
