-- ===== src/Framing/PacketFramer/Boundary.antt =====
-- A `PacketFramer` between two frames.
use lightnet_firmware.Common.{
  ℕ, ◌≡◌, refl, inl, inr, Bool, Bool-cases, List, false, arith, ltb, length, length-take,
  get_or-take,
}
use lightnet_firmware.Framing.PacketFramer
use lightnet_firmware.Framing.PacketFramer.{PacketFramer, has_partial_frame}
use lightnet_firmware.Framing.PacketFramer.Invariant.{IsValid}
use lightnet_firmware.Framing.PacketFramer.Stream.{IsIdle}

pub new-IsValid :
    (memory : List ℕ) (c : Bool) → length memory ≡ 80 → IsValid (PacketFramer.new memory c)
unfolding PacketFramer.new
new-IsValid memory c h = ground arith

pub reset-IsValid : (f : PacketFramer) → IsValid f → IsValid (PacketFramer.reset f)
unfolding PacketFramer.reset
reset-IsValid f h = ground arith

pub reset-IsIdle : (f : PacketFramer) → IsIdle (PacketFramer.frame (PacketFramer.reset f))
unfolding PacketFramer.reset
reset-IsIdle f = inl refl

-- A framer that is not partway through a frame is at a frame's boundary.
pub not-partial-IsIdle :
    (f : PacketFramer) → IsValid f → has_partial_frame f ≡ false → IsIdle (PacketFramer.frame f)
unfolding has_partial_frame
not-partial-IsIdle f v h = elim (Bool-cases (ltb 0 f.filled)) [
  | inl e ↦ inr (ground (arith, length-take f.filled f.buffer, get_or-take f.filled 0 f.buffer 0))
  | inr e ↦ inl (let z : f.filled ≡ 0 = ground arith in rw z)
]
