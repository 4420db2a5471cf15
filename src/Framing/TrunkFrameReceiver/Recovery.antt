-- ===== src/Framing/TrunkFrameReceiver/Recovery.antt =====
-- The trunk receiver after noise or a truncated frame.
use mathlib.Core.List.{append-nil}
use lightnet_firmware.Common.{
  ℕ, ◌≤◌, ◌<◌, ◌≡◌, refl, Bool-cases, ◌⊎◌, inl, inr, false, List, [], ◌∷◌, map, if◌then◌else◌,
  sub32, arith,
}
use lightnet_firmware.Framing.PacketFramer
use lightnet_firmware.Framing.PacketFramer.{PacketFramer, push_byte, has_partial_frame}
use lightnet_firmware.Framing.PacketFramer.Invariant.{IsValid, push_byte-IsValid}
use lightnet_firmware.Framing.PacketFramer.Stream.{receive, receive-wire, IsFrame, IsIdle}
use lightnet_firmware.Framing.PacketFramer.Boundary.{
  reset-IsValid, reset-IsIdle, not-partial-IsIdle,
}
use lightnet_firmware.Framing.TrunkFrameReceiver.{TrunkFrameReceiver, on_byte, refreshed, frame}

-- The frames that a caller reads from bytes with the times at which they are read.
unfoldable pub receive_at : TrunkFrameReceiver → List (ℕ × ℕ) → List (List ℕ)
receive_at r [] = []
receive_at r ((b, t) ∷ bs) =
    let (s, done) = on_byte r b t in
    let rest = receive_at s bs in if done then frame s ∷ rest else rest

-- Each byte follows the one before within the idle gap.
abbrev pub IsBurst : ℕ → List (ℕ × ℕ) → Type 0
IsBurst last [] = Unit
IsBurst last ((b, t) ∷ bs) = (sub32 t last < 10) × IsBurst t bs

-- Without gaps the receiver is its framer.
receive_at_burst :
    (r : TrunkFrameReceiver) (bs : List (ℕ × ℕ))
    → IsBurst r.last_byte_ms bs
    → receive_at r bs ≡ receive r.framer (map (λ b. b.0) bs)
unfolding receive_at receive on_byte refreshed
receive_at_burst r [] h = refl
receive_at_burst r ((b, t) ∷ bs) h = ground (
  arith,
  receive_at_burst (record { framer = (push_byte r.framer b).0; last_byte_ms = t }) bs h.1,
)

-- After a gap, and unless it is partway through a frame, the receiver is idle for the next byte.
refreshed-IsIdle :
    (r : TrunkFrameReceiver) (t : ℕ)
    → IsValid r.framer
    → (10 ≤ sub32 t r.last_byte_ms) ⊎ (has_partial_frame r.framer ≡ false)
    → IsValid (refreshed r t)
      × IsIdle (PacketFramer.frame (refreshed r t))
      × ((refreshed r t).validate_protocol_version ≡ r.framer.validate_protocol_version)
unfolding refreshed PacketFramer.reset
refreshed-IsIdle r t v g = elim (Bool-cases (has_partial_frame r.framer)) [
  | inl e ↦ ground (arith, reset-IsValid r.framer v, reset-IsIdle r.framer)
  | inr e ↦ ground (arith, not-partial-IsIdle r.framer v e)
]

-- A receiver with a well-formed framer, whatever stale bytes it holds, reads a frame unaltered,
-- and nothing else, if its first byte comes 10 ms or more after the last one, or no frame is
-- partway, and each further byte comes less than 10 ms after the one before.
pub receive_at_after_gap :
    (r : TrunkFrameReceiver) (b t : ℕ) (bs : List (ℕ × ℕ))
    → IsValid r.framer
    → (10 ≤ sub32 t r.last_byte_ms) ⊎ (has_partial_frame r.framer ≡ false)
    → IsBurst t bs
    → IsFrame r.framer.validate_protocol_version (b ∷ map (λ c. c.0) bs)
    → receive_at r ((b, t) ∷ bs) ≡ (b ∷ map (λ c. c.0) bs) ∷ []
unfolding receive_at receive on_byte
receive_at_after_gap r b t bs v g h fr =
    let (w, i, c) = refreshed-IsIdle r t v g in
    ground (
      arith,
      receive_at_burst (record { framer = (push_byte (refreshed r t) b).0; last_byte_ms = t }) bs h,
      append-nil (b ∷ map (λ (c : ℕ × ℕ). c.0) bs),
      receive-wire (refreshed r t) (([], b ∷ map (λ c. c.0) bs) ∷ []) w i ((tt, rw c fr), tt),
    )

-- Every byte keeps the receiver's framer well formed.
pub on_byte-IsValid :
    (r : TrunkFrameReceiver) (b t : ℕ) → IsValid r.framer → IsValid (on_byte r b t).0.framer
unfolding on_byte refreshed
on_byte-IsValid r b t v = ground (
  arith,
  push_byte-IsValid r.framer b v,
  push_byte-IsValid (PacketFramer.reset r.framer) b (reset-IsValid r.framer v),
)
