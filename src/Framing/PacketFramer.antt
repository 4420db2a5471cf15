-- ===== src/Framing/PacketFramer.antt =====
-- lib/Lightnet/Core/Relay/PacketFramer.{hpp,cpp}: frames recovered from a raw byte stream.
pub mod Invariant
pub mod Spec
pub mod Refinement
pub mod Stream
pub mod Boundary
use lightnet_firmware.Common.{
  ℕ, ◌+◌, ◌≡◌, Bool, true, false, ◌&&◌, List, [], ◌∷◌, ◌++◌, ltb, ◌==◌, if◌then◌else◌, u8, get_or,
  set, take,
}
use lightnet_firmware.Protocol.Meta.{validate_packet, packet_size_for_type, meta_of}

-- `buffer` is the array of MAX_FRAME_SIZE bytes.
pub record PacketFramer : Type 0 where
  pub buffer : List ℕ
  pub filled : ℕ
  pub expected_size : ℕ
  pub validate_protocol_version : Bool

-- The constructor leaves the array as the memory was.
unfoldable pub new : List ℕ → Bool → PacketFramer
new memory validate = record {
  buffer = memory;
  filled = 0;
  expected_size = 0;
  validate_protocol_version = validate;
}

unfoldable pub reset : PacketFramer → PacketFramer
reset f = record f { filled = 0; expected_size = 0 }

-- `pushByte` from the write into the buffer on.
unfoldable pub accumulate : PacketFramer → ℕ → PacketFramer × Bool
unfolding reset
accumulate f value =
    let g = record f { buffer = set f.buffer f.filled value; filled = u8 (f.filled + 1) } in
    if ltb g.filled g.expected_size
    then (g, false)
    else if validate_packet (meta_of g.buffer) g.filled g.validate_protocol_version == 0
    then (g, true)
    else (reset g, false)

-- `pushByte` once a completed frame has been dropped.
unfoldable pub push_fresh : PacketFramer → ℕ → PacketFramer × Bool
unfolding accumulate
push_fresh f value =
    if f.filled == 0
    then (if packet_size_for_type value == 0
        then (f, false)
        else accumulate (record f { expected_size = packet_size_for_type value }) value)
    else accumulate f value

unfoldable pub push_byte : PacketFramer → ℕ → PacketFramer × Bool
unfolding push_fresh reset
push_byte f value =
    push_fresh (if ltb 0 f.filled && (f.filled == f.expected_size) then reset f else f) value

-- `frame()` with `frameSize()`: the bytes that a caller reads.
abbrev pub frame : PacketFramer → List ℕ
frame f = take f.filled f.buffer

unfoldable pub frame_size : PacketFramer → ℕ
frame_size f = f.filled

unfoldable pub has_partial_frame : PacketFramer → Bool
has_partial_frame f = ltb 0 f.filled && ltb f.filled f.expected_size
