-- ===== src/Framing/PacketFramer/Spec.antt =====
-- The framer as a function on the list of bytes that belong to the frame in progress.
use lightnet_firmware.Common.{
  ℕ, Bool, true, false, ◌&&◌, List, [], ◌∷◌, ◌++◌, ltb, ◌==◌, if◌then◌else◌, get_or, length,
}
use lightnet_firmware.Protocol.Meta.{validate_packet, packet_size_for_type, meta_of}

-- `p` is a whole frame: its length is the size of its first byte's type.
abbrev pub is_whole : List ℕ → Bool
is_whole p = ltb 0 (length p) && (length p == packet_size_for_type (get_or p 0 0))

abbrev pub settle : Bool → List ℕ → List ℕ × Bool
settle version_checked q =
    if packet_size_for_type (get_or q 0 0) == 0
    then ([], false)
    else if ltb (length q) (packet_size_for_type (get_or q 0 0))
    then (q, false)
    else if validate_packet (meta_of q) (length q) version_checked == 0
    then (q, true)
    else ([], false)

-- A byte extends the frame in progress, or starts the next one behind a whole frame.
unfoldable pub take_byte : Bool → List ℕ → ℕ → List ℕ × Bool
take_byte version_checked p v = settle version_checked ((if is_whole p then [] else p) ++ v ∷ [])
