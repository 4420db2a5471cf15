-- ===== src/Framing/PacketFramer/Invariant.antt =====
-- What holds of a `PacketFramer` between two bytes, and what a completed frame is.
use lightnet_firmware.Common.{
  ℕ, ◌+◌, ◌≤◌, ◌<◌, ◌≡◌, ◌⊎◌, inl, inr, true, List, length, get_or, set, take, length-set,
  get_or-take, get_or-set_ne, get_or-set_self, arith,
}
use lightnet_firmware.Protocol.Meta.{validate_packet, packet_size_for_type, meta_of}
use lightnet_firmware.Framing.PacketFramer.{PacketFramer, reset, accumulate, push_fresh, push_byte}

pub packet_size_bounds :
    (t : ℕ)
    → (packet_size_for_type t ≡ 0) ⊎ ((7 ≤ packet_size_for_type t) × (packet_size_for_type t ≤ 76))
unfolding packet_size_for_type
packet_size_bounds t = ground arith

-- No index of the buffer is out of range, no count wraps, and the expected size is the one that the
-- first byte calls for.
pub record IsValid (f : PacketFramer) : Type 0 where
  pub storage : length f.buffer ≡ 80
  pub filled_le : f.filled ≤ f.expected_size
  pub expected_le : f.expected_size ≤ 76
  pub typed : 0 < f.filled → f.expected_size ≡ packet_size_for_type (get_or f.buffer 0 0)

accumulate-IsValid :
    (f : PacketFramer) (v : ℕ)
    → length f.buffer ≡ 80
    → f.filled < f.expected_size
    → f.expected_size ≤ 76
    → f.expected_size ≡ packet_size_for_type (get_or (set f.buffer f.filled v) 0 0)
    → IsValid (accumulate f v).0
unfolding accumulate
accumulate-IsValid f v s l e t = ground (arith, length-set f.buffer f.filled v)

push_fresh-IsValid :
    (f : PacketFramer) (v : ℕ)
    → IsValid f
    → (f.filled ≡ 0) ⊎ (f.filled < f.expected_size)
    → IsValid (push_fresh f v).0
unfolding push_fresh
push_fresh-IsValid f v h (inl e) = ground (
  arith,
  packet_size_bounds v,
  get_or-set_self f.buffer 0 v 0,
  accumulate-IsValid (record f { expected_size = packet_size_for_type v }) v,
)
push_fresh-IsValid f v h (inr l) = ground (
  arith,
  packet_size_bounds v,
  get_or-set_self f.buffer 0 v 0,
  get_or-set_ne f.buffer f.filled 0 v 0,
  accumulate-IsValid f v,
  accumulate-IsValid (record f { expected_size = packet_size_for_type v }) v,
)

-- Every byte keeps the framer well formed: the buffer is only written inside its 80 bytes.
pub push_byte-IsValid : (f : PacketFramer) (v : ℕ) → IsValid f → IsValid (push_byte f v).0
unfolding push_byte reset
push_byte-IsValid f v h = ground (
  arith,
  push_fresh-IsValid f v,
  push_fresh-IsValid (record f { filled = 0; expected_size = 0 }) v,
)

-- What `pushByte` returning true means: the bytes read by the caller are a whole frame of the size
-- that its type has, and its header passed the check.
pub record IsComplete (f : PacketFramer) : Type 0 where
  pub whole : f.filled ≡ f.expected_size
  pub sized : f.filled ≡ packet_size_for_type (get_or (take f.filled f.buffer) 0 0)
  pub checked :
      validate_packet (meta_of (take f.filled f.buffer)) f.filled f.validate_protocol_version ≡ 0

pub meta_of-take : (n : ℕ) (b : List ℕ) → 7 ≤ n → meta_of (take n b) ≡ meta_of b
meta_of-take n b h = simp (
  get_or-take n 0 b 0 (omega arith),
  get_or-take n 1 b 0 (omega arith),
  get_or-take n 2 b 0 (omega arith),
  get_or-take n 3 b 0 (omega arith),
  get_or-take n 4 b 0 (omega arith),
  get_or-take n 5 b 0 (omega arith),
  get_or-take n 6 b 0 (omega arith),
)

accumulate-IsComplete :
    (f : PacketFramer) (v : ℕ)
    → f.filled < f.expected_size
    → f.expected_size ≤ 76
    → f.expected_size ≡ packet_size_for_type (get_or (set f.buffer f.filled v) 0 0)
    → (accumulate f v).1 ≡ true
    → IsComplete (accumulate f v).0
unfolding accumulate
accumulate-IsComplete f v l e t c = ground (
  arith,
  packet_size_bounds (get_or (set f.buffer f.filled v) 0 0),
  meta_of-take (f.filled + 1) (set f.buffer f.filled v),
  get_or-take (f.filled + 1) 0 (set f.buffer f.filled v) 0,
)

-- Where `pushByte` of a well-formed framer returns true, the bytes to be read are a whole frame,
-- of the size of its first byte's type, whose header passes the check.
pub push_byte-IsComplete :
    (f : PacketFramer) (v : ℕ) → IsValid f → (push_byte f v).1 ≡ true → IsComplete (push_byte f v).0
unfolding push_byte push_fresh reset
push_byte-IsComplete f v h c = ground (
  arith,
  packet_size_bounds v,
  get_or-set_self f.buffer 0 v 0,
  get_or-set_ne f.buffer f.filled 0 v 0,
  accumulate-IsComplete f v,
  accumulate-IsComplete (record f { expected_size = packet_size_for_type v }) v,
  accumulate-IsComplete (record f { filled = 0; expected_size = packet_size_for_type v }) v,
)
