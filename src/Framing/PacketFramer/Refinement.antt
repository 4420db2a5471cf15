-- ===== src/Framing/PacketFramer/Refinement.antt =====
-- A `PacketFramer` behaves as the list of the bytes that it has accumulated.
use lightnet_firmware.Common.{
  ℕ, ◌+◌, ◌≤◌, ◌<◌, ◌≡◌, ◌⊎◌, inl, inr, [], ◌∷◌, ◌++◌, length, get_or, set, take, length-take,
  take-set_end, get_or-take, get_or-set_ne, get_or-set_self, arith, length-append,
}
use lightnet_firmware.Protocol.Meta.{packet_size_for_type}
use lightnet_firmware.Framing.PacketFramer.{
  PacketFramer, reset, accumulate, push_fresh, push_byte, frame,
}
use lightnet_firmware.Framing.PacketFramer.Invariant.{IsValid, packet_size_bounds, meta_of-take}
use lightnet_firmware.Framing.PacketFramer.Spec.{take_byte, settle}

-- The bytes after a write at the end of those in progress.
extended :
    (f : PacketFramer) (v : ℕ)
    → f.filled < length f.buffer
    → take (f.filled + 1) (set f.buffer f.filled v) ≡ frame f ++ v ∷ []
extended f v h = ground (arith, take-set_end f.buffer f.filled v)

accumulate_refines :
    (f : PacketFramer) (v : ℕ)
    → length f.buffer ≡ 80
    → f.filled < f.expected_size
    → f.expected_size ≤ 76
    → f.expected_size ≡ packet_size_for_type (get_or (set f.buffer f.filled v) 0 0)
    → let (g, done) = accumulate f v in
      (frame g, done) ≡ settle f.validate_protocol_version (frame f ++ v ∷ [])
unfolding accumulate reset
accumulate_refines f v s l e t = ground (
  arith,
  extended f v,
  packet_size_bounds (get_or (set f.buffer f.filled v) 0 0),
  meta_of-take (f.filled + 1) (set f.buffer f.filled v),
  get_or-take (f.filled + 1) 0 (set f.buffer f.filled v) 0,
  length-append (frame f) (v ∷ []),
  length-take f.filled f.buffer,
)

push_fresh_refines :
    (f : PacketFramer) (v : ℕ)
    → IsValid f
    → (f.filled ≡ 0) ⊎ (f.filled < f.expected_size)
    → let (g, done) = push_fresh f v in
      (frame g, done) ≡ settle f.validate_protocol_version (frame f ++ v ∷ [])
unfolding push_fresh
push_fresh_refines f v h (inl e) = ground (
  arith,
  packet_size_bounds v,
  get_or-set_self f.buffer 0 v 0,
  accumulate_refines (record f { expected_size = packet_size_for_type v }) v,
)
push_fresh_refines f v h (inr l) = ground (
  arith,
  packet_size_bounds v,
  get_or-set_self f.buffer 0 v 0,
  get_or-set_ne f.buffer f.filled 0 v 0,
  accumulate_refines f v,
  accumulate_refines (record f { expected_size = packet_size_for_type v }) v,
)

-- On every byte, a well-formed framer reports what the specification `take_byte` does on the bytes
-- in progress, and leaves those that it leaves.
pub push_byte_refines :
    (f : PacketFramer) (v : ℕ)
    → IsValid f
    → let (g, done) = push_byte f v in
      (frame g, done) ≡ take_byte f.validate_protocol_version (frame f) v
unfolding push_byte take_byte reset
push_byte_refines f v h = ground (
  arith,
  push_fresh_refines f v,
  push_fresh_refines (record f { filled = 0; expected_size = 0 }) v,
  length-take f.filled f.buffer,
  get_or-take f.filled 0 f.buffer 0,
)
