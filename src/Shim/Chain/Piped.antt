-- ===== src/Shim/Chain/Piped.antt =====
-- The order in which a chain (internal/shim/shim.go) applies its stream hooks.
use copilotd.Prelude.{
  ◌≡◌, refl, sym, ap, ◌∙◌, List, [], ◌∷◌, ◌++◌, append_assoc, append-nil, Option, none, some,
}
use copilotd.Sse.Frame.{Frame}
use copilotd.Shim.Chain.{
  Instance, through, transform_frames, transform_all, transform, finish, sweep, finalize_all,
  finalize,
}
use copilotd.Shim.Chain.Onion.{emitted, emitted-nil}

module _ {S : Type 0} where
  -- What one instance makes of a whole stream: its event hook takes each frame, or passes it where there
  -- is none, and at the end its finalizer appends what it holds.
  abbrev event_of : Option (S → Frame → List Frame × S) → S → Frame → List Frame × S
  event_of none s f = (f ∷ [], s)
  event_of (some event) s f = event s f

  abbrev held_of : Option (S → List Frame × S) → S → List Frame
  held_of none s = []
  held_of (some finalizer) s = (finalizer s).0

  abbrev pub alone :
      Option (S → Frame → List Frame × S)
      → Option (S → List Frame × S)
      → S
      → List Frame
      → List Frame
  alone event finalizer s [] = held_of finalizer s
  alone event finalizer s (f ∷ frames) =
      (event_of event s f).0 ++ alone event finalizer (event_of event s f).1 frames

  alone-append :
      (event : S → Frame → List Frame × S) (finalizer : Option (S → List Frame × S)) (s : S)
      (first rest : List Frame)
      → alone (some event) finalizer s (first ++ rest)
        ≡ (through event s first).0 ++ alone (some event) finalizer (through event s first).1 rest
  unfolding through
  alone-append event finalizer s [] rest = refl
  alone-append event finalizer s (f ∷ first) rest =
      ap (λ l. (event s f).0 ++ l) (alone-append event finalizer (event s f).1 first rest)
      ∙ sym (append_assoc (event s f).0 _ _)

  alone_idle :
      (finalizer : Option (S → List Frame × S)) (s : S) (frames : List Frame)
      → alone none finalizer s frames ≡ frames ++ held_of finalizer s
  alone_idle finalizer s [] = refl
  alone_idle finalizer s (f ∷ frames) = ap (λ l. f ∷ l) (alone_idle finalizer s frames)

module _ {S H E : Type 0} where
  -- The whole stream through the innermost instance, and what that made of it through the next.
  abbrev pub piped : List (Instance S H E) → List Frame → List Frame
  piped [] frames = frames
  piped (a ∷ rest) frames = alone a.event a.finalizer a.state (piped rest frames)

  -- The first frames of a stream may be taken ahead of the others.
  alone-transform_frames :
      (a : Instance S H E) (e : Option (S → Frame → List Frame × S)) (first rest : List Frame)
      → alone e a.finalizer a.state (first ++ rest)
        ≡ (transform_frames e a first).0
          ++ alone e a.finalizer (transform_frames e a first).1.state rest
  unfolding transform_frames
  alone-transform_frames a none first rest =
      alone_idle a.finalizer a.state (first ++ rest)
      ∙ append_assoc first rest (held_of a.finalizer a.state)
      ∙ ap (λ l. first ++ l) (sym (alone_idle a.finalizer a.state rest))
  alone-transform_frames a (some event) first rest =
      alone-append event a.finalizer a.state first rest

  finish-held :
      (o : Option (S → List Frame × S)) (a : Instance S H E) (pending : List Frame)
      → (finish o a pending).0 ≡ pending ++ held_of o a.state
  unfolding finish
  finish-held none a pending = sym (append-nil pending)
  finish-held (some f) a pending = refl

  transform_frames-kept :
      (a : Instance S H E) (e : Option (S → Frame → List Frame × S)) (frames : List Frame)
      → ((transform_frames e a frames).1.event ≡ a.event)
        × ((transform_frames e a frames).1.finalizer ≡ a.finalizer)
  unfolding transform_frames
  transform_frames-kept a none frames = (refl, refl)
  transform_frames-kept a (some event) frames = (refl, refl)

  -- At the end of the stream an instance's event hook takes what is pending before its finalizer.
  sweep-alone :
      (a : Instance S H E) (pending : List Frame)
      → (sweep a pending).0 ≡ alone a.event a.finalizer a.state pending
  unfolding sweep
  sweep-alone a pending =
      finish-held a.finalizer (transform_frames a.event a pending).1
        (transform_frames a.event a pending).0
      ∙ sym (alone-transform_frames a a.event pending [])
      ∙ ap (alone a.event a.finalizer a.state) (append-nil pending)

  emitted-alone :
      (a : Instance S H E) (rest : List (Instance S H E)) (frames : List Frame)
      → emitted (a ∷ rest) frames ≡ alone a.event a.finalizer a.state (emitted rest frames)
  unfolding transform transform_all finalize finalize_all
  emitted-alone a rest [] = sweep-alone a (finalize_all rest []).0
  emitted-alone a rest (f ∷ frames) =
      let inner = transform_all rest (f ∷ []) in
      let a' = (transform_frames a.event a inner.0).1 in
      let (same_event, same_finalizer) = transform_frames-kept a a.event inner.0 in
      ap (λ l. (transform_frames a.event a inner.0).0 ++ l)
        (emitted-alone a' inner.1 frames ∙ rw (same_event, same_finalizer) refl)
      ∙ sym (alone-transform_frames a a.event inner.0 (emitted inner.1 frames))

  -- Over any stream a chain emits what comes of passing the whole stream through each instance in turn,
  -- the innermost first, each with what it holds appended at its end. So what an inner instance holds
  -- until the end still passes every outer hook, and each instance sees one stream with its own state.
  pub emitted-piped :
      (xs : List (Instance S H E)) (frames : List Frame) → emitted xs frames ≡ piped xs frames
  emitted-piped [] frames = emitted-nil S H E frames
  emitted-piped (a ∷ rest) frames =
      emitted-alone a rest frames
      ∙ ap (alone a.event a.finalizer a.state) (emitted-piped rest frames)
