-- ===== src/Shim/Chain/Onion.antt =====
-- What a chain (internal/shim/shim.go) emits over a whole stream, with its adapter and without.
use copilotd.Prelude.{
  ◌≡◌, refl, ap, sym, ◌∙◌, arith, List, [], ◌∷◌, ◌++◌, Option, none, some, false, Bool-cases, inl,
  inr,
}
use copilotd.Sse.Frame.{Frame}
use copilotd.Shim.Chain.{
  Instance, transform_frames, transform_all, transform, sweep, finalize_all, finalize, is_stream,
  stream_instances, stream_adapter,
}

module _ {S H E : Type 0} where
  idle_transform :
      (a : Instance S H E) (frames : List Frame)
      → is_stream a ≡ false
      → (transform_frames a.event a frames ≡ (frames, a)) × (sweep a frames ≡ (frames, a))
  unfolding is_stream sweep
  idle_transform a frames h = ground arith

  is_stream-transform_frames :
      (o : Option (S → Frame → List Frame × S)) (a : Instance S H E) (frames : List Frame)
      → is_stream (transform_frames o a frames).1 ≡ is_stream a
  unfolding is_stream transform_frames
  is_stream-transform_frames none a frames = refl
  is_stream-transform_frames (some f) a frames = refl

  -- A chain's own result, with the instances that have no stream hook left out.
  abbrev streamed : List Frame × List (Instance S H E) → List Frame × List (Instance S H E)
  streamed (frames, xs) = (frames, stream_instances xs)

  stream_transform :
      (xs : List (Instance S H E)) (frames : List Frame)
      → transform_all (stream_instances xs) frames ≡ streamed (transform_all xs frames)
  unfolding transform_all stream_instances
  stream_transform [] frames = refl
  stream_transform (x ∷ xs) frames = elim (Bool-cases (is_stream x)) [
    | inl e ↦
        rw (e, is_stream-transform_frames x.event x (transform_all xs frames).0 ∙ e)
          (rw (stream_transform xs frames))
    | inr e ↦
        rw ((idle_transform x (transform_all xs frames).0 e).0, e) (stream_transform xs frames)
  ]

  is_stream-sweep :
      (a : Instance S H E) (frames : List Frame) → is_stream (sweep a frames).1 ≡ is_stream a
  unfolding is_stream sweep
  is_stream-sweep a frames = ground arith

  stream_finalize :
      (xs : List (Instance S H E)) (frames : List Frame)
      → finalize_all (stream_instances xs) frames ≡ streamed (finalize_all xs frames)
  unfolding finalize_all stream_instances
  stream_finalize [] frames = refl
  stream_finalize (x ∷ xs) frames = elim (Bool-cases (is_stream x)) [
    | inl e ↦
        rw (e, is_stream-sweep x (finalize_all xs frames).0 ∙ e) (rw (stream_finalize xs frames))
    | inr e ↦ rw ((idle_transform x (finalize_all xs frames).0 e).1, e) (stream_finalize xs frames)
  ]

  -- What a whole stream emits: every frame transformed in turn, and then what is held.
  abbrev pub emitted : List (Instance S H E) → List Frame → List Frame
  emitted xs [] = (finalize xs).0
  emitted xs (f ∷ frames) = (transform xs f).0 ++ emitted (transform xs f).1 frames

  emitted-stream_instances :
      (xs : List (Instance S H E)) (frames : List Frame)
      → emitted (stream_instances xs) frames ≡ emitted xs frames
  unfolding transform finalize
  emitted-stream_instances xs [] = ap (λ r. r.0) (stream_finalize xs [])
  emitted-stream_instances xs (f ∷ frames) =
      ap (λ r. r.0 ++ emitted r.1 frames) (stream_transform xs (f ∷ []))
      ∙ ap (λ l. (transform_all xs (f ∷ [])).0 ++ l)
          (emitted-stream_instances (transform_all xs (f ∷ [])).1 frames)

-- A chain with no instance emits every frame unchanged and holds nothing back.
pub emitted-nil :
    (S H E : Type 0) (frames : List Frame) → emitted {S = S} {H = H} {E = E} [] frames ≡ frames
unfolding transform finalize transform_all finalize_all
emitted-nil S H E [] = refl
emitted-nil S H E (f ∷ frames) = ap (λ l. f ∷ l) (emitted-nil S H E frames)

module _ {S H E : Type 0} where
  -- `StreamAdapter` loses nothing: over any stream its instances emit what the whole chain would emit,
  -- and where it is nil the whole chain would emit every frame unchanged and hold nothing back.
  pub stream_adapter_faithful :
      (xs : List (Instance S H E)) (frames : List Frame)
      → emitted xs frames
        ≡ (elim (stream_adapter xs) [ none ↦ frames | some ys ↦ emitted ys frames ])
  unfolding stream_adapter
  stream_adapter_faithful xs frames =
      sym (emitted-stream_instances xs frames) ∙ split (stream_instances xs)
    where
      split :
          (zs : List (Instance S H E))
          → emitted zs frames
            ≡ (elim (elim zs as (λ l. Option (List (Instance S H E))) [
              | [] ↦ none
              | a ∷ rest ↦ some (a ∷ rest)
            ]) [ none ↦ frames | some ys ↦ emitted ys frames ])
      split [] = emitted-nil S H E frames
      split (z ∷ zs) = refl
