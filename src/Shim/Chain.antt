-- ===== src/Shim/Chain.antt =====
-- internal/shim/shim.go: registrations, the chain of enabled instances, and the adapters that fold
-- their hooks. An instance is its private state of type `S` and the hooks that its type implements; a
-- hook that panics is the caller's business (`Sse.Pump`, `Wsforward.Session`), so hooks return here. A
-- loop that counts an index down handles the rest of the list before the head. The watchdog around a
-- hook only observes it, and is not modelled.
pub mod Onion
pub mod Piped
use copilotd.Prelude.{
  ℕ, List, [], ◌∷◌, ◌++◌, Option, none, some, Bool, true, false, ◌&&◌, ◌||◌, not, if◌then◌else◌,
  Bytes, Result, ok, err,
}
use copilotd.Sse.Frame.{Frame}

pub data Surface : Type 0 where
  anthropic open_ai github_copilot : Surface

pub data Route : Type 0 where
  anthropic_messages anthropic_count_tokens open_ai_responses models : Route

pub data MessageKind : Type 0 where
  text binary : MessageKind

pub record Message : Type 0 where
  pub kind : MessageKind
  pub payload : Bytes

pub record Request (H : Type 0) : Type 0 where
  pub header : H
  pub body : Bytes
  pub query : Bytes

pub record ResponsePrelude (H : Type 0) : Type 0 where
  pub status : ℕ
  pub header : H

-- The hooks of one instance: `none` where its type does not implement the interface. A fallible hook
-- mutates its argument and may return an error besides; a message hook also says whether to emit.
pub record Instance (S H E : Type 0) : Type 0 where
  pub name : Bytes
  pub state : S
  pub request : Option (S → Request H → (Request H × Option E) × S)
  pub prelude : Option (S → ResponsePrelude H → (ResponsePrelude H × Option E) × S)
  pub buffered : Option (S → Bytes → (Bytes × Option E) × S)
  pub event : Option (S → Frame → List Frame × S)
  pub finalizer : Option (S → List Frame × S)
  pub client_message : Option (S → Message → (Message × Bool) × S)
  pub server_message : Option (S → Message → (Message × Bool) × S)

pub record Registration (S H E : Type 0) : Type 0 where
  pub name : Bytes
  pub enabled : Bool
  pub scope : Option (Surface → Route → Bool)
  pub make : Surface → Route → Instance S H E

in_scope : Option (Surface → Route → Bool) → Surface → Route → Bool
in_scope none surface route = true
in_scope (some scope) surface route = scope surface route

abbrev pub present : {X : Type 0} → Option X → Bool
present none = false
present (some x) = true

-- `transformFrames`: each frame on its own, outputs in order.
unfoldable pub through :
    {S : Type 0} → (S → Frame → List Frame × S) → S → List Frame → List Frame × S
through f s [] = ([], s)
through f s (x ∷ rest) =
    let (out, s') = f s x in let (more, s'') = through f s' rest in (out ++ more, s'')

module _ {S H E : Type 0} where
  unfoldable pub participates : Surface → Route → Registration S H E → Bool
  unfolding in_scope
  participates surface route r = r.enabled && in_scope r.scope surface route

  -- `Registry.NewChain`, the hook overrun recorder aside.
  unfoldable pub new_chain : List (Registration S H E) → Surface → Route → List (Instance S H E)
  unfolding participates
  new_chain [] surface route = []
  new_chain (r ∷ rest) surface route =
      let tail = new_chain rest surface route in
      if participates surface route r
      then record (r.make surface route) { name = r.name } ∷ tail
      else tail

  -- One fallible hook on one instance.
  run_hook :
      {X : Type 0}
      → Option (S → X → (X × Option E) × S)
      → Instance S H E
      → X
      → (X × Option E) × Instance S H E
  run_hook none a x = ((x, none), a)
  run_hook (some hook) a x = let (r, state) = hook a.state x in (r, record a { state = state })

  module _ {X : Type 0} (hook : Instance S H E → Option (S → X → (X × Option E) × S)) where
    -- The loop in registration order: it stops at the first error.
    unfoldable pub outward : List (Instance S H E) → X → (X × Option E) × List (Instance S H E)
    unfolding run_hook
    outward [] x = ((x, none), [])
    outward (a ∷ rest) x =
        let ((y, e), a') = run_hook (hook a) a x in
        elim e [
          | some e ↦ ((y, some e), a' ∷ rest)
          | none ↦ let (r, rest') = outward rest y in (r, a' ∷ rest')
        ]

    -- The loop in the opposite order.
    unfoldable pub inward : List (Instance S H E) → X → (X × Option E) × List (Instance S H E)
    unfolding run_hook
    inward [] x = ((x, none), [])
    inward (a ∷ rest) x =
        let ((y, e), rest') = inward rest x in
        elim e [
          | some e ↦ ((y, some e), a ∷ rest')
          | none ↦ let (r, a') = run_hook (hook a) a y in (r, a' ∷ rest')
        ]

  unfoldable pub run_request :
      List (Instance S H E) → Request H → (Request H × Option E) × List (Instance S H E)
  unfolding outward
  run_request = outward (λ a. a.request)

  unfoldable pub run_prelude :
      List (Instance S H E)
      → ResponsePrelude H
      → (ResponsePrelude H × Option E) × List (Instance S H E)
  unfolding inward
  run_prelude = inward (λ a. a.prelude)

  unfoldable pub run_buffered :
      List (Instance S H E) → Bytes → (Bytes × Option E) × List (Instance S H E)
  unfolding inward
  run_buffered = inward (λ a. a.buffered)

  unfoldable pub has_buffered_transformer : List (Instance S H E) → Bool
  has_buffered_transformer [] = false
  has_buffered_transformer (a ∷ rest) = present a.buffered || has_buffered_transformer rest

  unfoldable pub transform_frames :
      Option (S → Frame → List Frame × S)
      → Instance S H E
      → List Frame
      → List Frame × Instance S H E
  unfolding through
  transform_frames none a frames = (frames, a)
  transform_frames (some f) a frames =
      let (out, state) = through f a.state frames in (out, record a { state = state })

  -- `sseAdapter.Transform` on the frames that have come so far.
  unfoldable pub transform_all :
      List (Instance S H E) → List Frame → List Frame × List (Instance S H E)
  unfolding transform_frames
  transform_all [] frames = (frames, [])
  transform_all (a ∷ rest) frames =
      let (inner, rest') = transform_all rest frames in
      let (out, a') = transform_frames a.event a inner in (out, a' ∷ rest')

  unfoldable pub transform : List (Instance S H E) → Frame → List Frame × List (Instance S H E)
  unfolding transform_all
  transform instances frame = transform_all instances (frame ∷ [])

  finish : Option (S → List Frame × S) → Instance S H E → List Frame → List Frame × Instance S H E
  finish none a pending = (pending, a)
  finish (some f) a pending =
      let (out, state) = f a.state in (pending ++ out, record a { state = state })

  -- One instance of the sweep: its event hook takes what is pending, its finalizer appends.
  unfoldable pub sweep : Instance S H E → List Frame → List Frame × Instance S H E
  unfolding transform_frames finish
  sweep a pending = let (out, a') = transform_frames a.event a pending in finish a.finalizer a' out

  -- `sseAdapter.Finalize` from the frames that are pending.
  unfoldable pub finalize_all :
      List (Instance S H E) → List Frame → List Frame × List (Instance S H E)
  unfolding sweep
  finalize_all [] pending = (pending, [])
  finalize_all (a ∷ rest) pending =
      let (inner, rest') = finalize_all rest pending in
      let (out, a') = sweep a inner in (out, a' ∷ rest')

  unfoldable pub finalize : List (Instance S H E) → List Frame × List (Instance S H E)
  unfolding finalize_all
  finalize instances = finalize_all instances []

  unfoldable pub is_stream : Instance S H E → Bool
  is_stream a = present a.event || present a.finalizer

  unfoldable pub stream_instances : List (Instance S H E) → List (Instance S H E)
  unfolding is_stream
  stream_instances [] = []
  stream_instances (a ∷ rest) =
      let tail = stream_instances rest in if is_stream a then a ∷ tail else tail

  -- `StreamAdapter`: nil where no instance has a stream hook.
  unfoldable pub stream_adapter : List (Instance S H E) → Option (List (Instance S H E))
  unfolding stream_instances
  stream_adapter instances = elim (stream_instances instances) [
    | [] ↦ none
    | a ∷ rest ↦ some (a ∷ rest)
  ]

  relay :
      Option (S → Message → (Message × Bool) × S)
      → Instance S H E
      → Message
      → (Message × Bool) × Instance S H E
  relay none a m = ((m, true), a)
  relay (some hook) a m = let (r, state) = hook a.state m in (r, record a { state = state })

  -- `WSClientAdapter` and `WSServerAdapter`: a hook that drops the message ends the fold.
  unfoldable pub relay_client :
      List (Instance S H E) → Message → (Message × Bool) × List (Instance S H E)
  unfolding relay
  relay_client [] m = ((m, true), [])
  relay_client (a ∷ rest) m =
      let ((n, emit), a') = relay a.client_message a m in
      elim emit [
        | false ↦ ((n, false), a' ∷ rest)
        | true ↦ let (r, rest') = relay_client rest n in (r, a' ∷ rest')
      ]

  unfoldable pub relay_server :
      List (Instance S H E) → Message → (Message × Bool) × List (Instance S H E)
  unfolding relay
  relay_server [] m = ((m, true), [])
  relay_server (a ∷ rest) m =
      let ((n, emit), rest') = relay_server rest m in
      elim emit [
        | false ↦ ((n, false), a ∷ rest')
        | true ↦ let (r, a') = relay a.server_message a n in (r, a' ∷ rest')
      ]
