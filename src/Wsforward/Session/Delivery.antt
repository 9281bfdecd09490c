-- ===== src/Wsforward/Session/Delivery.antt =====
-- What a pump of internal/wsforward/session.go writes and counts.
use copilotd.Prelude.{
  ℕ, ◌+◌, ◌≡◌, ◌⊎◌, inl, inr, if◌then◌else◌, refl, ap, List, [], ◌∷◌, Option, none, some, Bool,
  true, false, length, arith,
}
use copilotd.Shim.Chain.{Message}
use copilotd.Wsforward.Session.{
  Peer, write_operation, Stats, Turn, read_failed, message_read, Transformed, panicked, answered,
  Pumped, pump, counted, stopped, wrote,
}

-- The bytes of the payloads.
unfoldable pub payload_bytes : List Message → ℕ
payload_bytes [] = 0
payload_bytes (m ∷ ms) = length m.payload + payload_bytes ms

pub record IsTally (before after : Stats) (ms : List Message) : Type 0 where
  pub messages : after.messages ≡ before.messages + length ms
  pub bytes : after.bytes ≡ before.bytes + payload_bytes ms

IsTally-none : (s : Stats) → IsTally s s []
unfolding payload_bytes
IsTally-none s = record { messages = omega arith; bytes = omega arith }

IsTally-one :
    (m : Message) (s t : Stats) (ms : List Message)
    → IsTally (counted m s) t ms
    → IsTally s t (m ∷ ms)
unfolding payload_bytes counted
IsTally-one m s t ms h = record {
  messages = omega (arith, h.messages);
  bytes = omega (arith, h.bytes);
}

Transformed-cases :
    {S : Type 0} (t : Transformed S)
    → (t ≡ panicked) ⊎ ((emit : Bool) × (m : Message) × (s : S) × (t ≡ answered emit m s))
Transformed-cases panicked = inl refl
Transformed-cases (answered emit m s) = inr (emit, m, s, refl)

-- The messages of the turns before the first that fails, to be read or to be written.
unfoldable pub delivered : {E : Type 0} → List (Turn E) → List Message
delivered [] = []
delivered (read_failed e ∷ turns) = []
delivered (message_read m none ∷ turns) = m ∷ delivered turns
delivered (message_read m (some x) ∷ turns) = []

module _ {E S : Type 0} (panic late : E) (source destination : Peer) where
  abbrev run : Option (S → Message → Transformed S) → S → Stats → List (Turn E) → Pumped E
  run f s stats turns = pump panic late source destination f s stats turns

  -- With no transform a pump writes what it reads, verbatim and in order, until a read or a write
  -- fails.
  pub pump_verbatim :
      (s : S) (stats : Stats) (turns : List (Turn E))
      → (pump panic late source destination none s stats turns).written ≡ delivered turns
  unfolding pump delivered wrote stopped
  pump_verbatim s stats [] = refl
  pump_verbatim s stats (read_failed e ∷ turns) = refl
  pump_verbatim s stats (message_read m none ∷ turns) =
      ap (λ l. m ∷ l) (pump_verbatim s (counted m stats) turns)
  pump_verbatim s stats (message_read m (some (e, b)) ∷ turns) = refl

  emitted-IsTally :
      (f : S → Message → Transformed S) (s : S) (stats : Stats) (m : Message)
      (turns : List (Turn E))
      → ((t : Stats) → IsTally t (run (some f) s t turns).stats (run (some f) s t turns).written)
      → (emit : Bool) (o : Option (E × Bool))
      → let r = (elim emit as (λ b. Pumped E) [
        | false ↦ run (some f) s stats turns
        | true ↦ elim o as (λ x. Pumped E) [
          | none ↦ wrote m (run (some f) s (counted m stats) turns)
          | some (e, b) ↦ stopped stats destination write_operation (if b then late else e)
        ]
      ]) in
        IsTally stats r.stats r.written
  unfolding wrote stopped
  emitted-IsTally f s stats m turns rest false o = rest stats
  emitted-IsTally f s stats m turns rest true none =
      IsTally-one m stats _ _ (rest (counted m stats))
  emitted-IsTally f s stats m turns rest true (some (e, b)) = IsTally-none stats

  -- However a pump ends, and with any transform or none, its counts are those of the messages it wrote.
  pub pump-IsTally :
      (f : Option (S → Message → Transformed S)) (s : S) (stats : Stats) (turns : List (Turn E))
      → IsTally stats
          (pump panic late source destination f s stats turns).stats
          (pump panic late source destination f s stats turns).written
  unfolding pump wrote stopped
  pump-IsTally f s stats [] = IsTally-none stats
  pump-IsTally f s stats (read_failed e ∷ turns) = IsTally-none stats
  pump-IsTally none s stats (message_read m none ∷ turns) =
      IsTally-one m stats _ _ (pump-IsTally none s (counted m stats) turns)
  pump-IsTally none s stats (message_read m (some (e, b)) ∷ turns) = IsTally-none stats
  pump-IsTally (some f) s stats (message_read m outcome ∷ turns) =
      elim (Transformed-cases (f s m)) [
        | inl e ↦ rw (e, pump) (IsTally-none stats)
        | inr (emit, m', s', e) ↦
            rw (e, pump)
              (emitted-IsTally f s' stats m' turns (λ t. pump-IsTally (some f) s' t turns) emit
                outcome)
      ]
