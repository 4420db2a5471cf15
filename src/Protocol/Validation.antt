-- ===== src/Protocol/Validation.antt =====
-- A packet that one side stamps is what the other side's check accepts and its casts read.
use lightnet_firmware.Common.{ℕ, ◌≤◌, ◌<◌, ◌≡◌, ◌⊎◌, ap, ◌∙◌, Bool, true, false, List, ◌++◌, arith}
use lightnet_firmware.Protocol.Crc.{crc16, crc16-lt}
use lightnet_firmware.Protocol.Types.{PacketMeta, version}
use lightnet_firmware.Protocol.Meta.{
  header_bytes, meta_bytes, meta_of, make_meta, validate_packet, is_version_exempt_type,
}
use lightnet_firmware.Protocol.Discovery.{
  PacketInitializationPull, PacketRegisterEdge, PacketDiscoveryAdvance, PacketDiscoveryDone,
  PacketLinkAck, initialization_pull_bytes, initialization_pull_of, register_edge_bytes,
  register_edge_of, discovery_advance_bytes, discovery_advance_of, discovery_done_bytes,
  discovery_done_of, link_ack_bytes, link_ack_of,
}

-- Every field fits its width.
pub record FitsMeta (m : PacketMeta) : Type 0 where
  pub type_fits : m.header.type < 256
  pub version_fits : m.header.protocol_version < 65536
  pub target_fits : m.header.target_panel_index < 65536
  pub crc_fits : m.header_crc < 65536

pub meta_of-meta_bytes :
    (m : PacketMeta) (rest : List ℕ) → FitsMeta m → meta_of (meta_bytes m ++ rest) ≡ m
meta_of-meta_bytes m rest f = ground arith

pub make_meta-FitsMeta : (t target : ℕ) → t < 256 → target < 65536 → FitsMeta (make_meta t target)
unfolding make_meta
make_meta-FitsMeta t target h k = record {
  type_fits = h;
  version_fits = omega arith;
  target_fits = k;
  crc_fits =
      crc16-lt (
        header_bytes
          (record { type = t; protocol_version = version; target_panel_index = target }));
}

validate-make_meta :
    (t target size : ℕ) (c : Bool) → 7 ≤ size → validate_packet (make_meta t target) size c ≡ 0
unfolding validate_packet make_meta
validate-make_meta t target size c l = ground arith

-- The header that a sender stamps for a type and target that fit their widths, read back from its
-- bytes, passes the check of a receiver with its version check or without, for any size from that
-- of the header on.
pub validate_packet-make_meta :
    (t target size : ℕ) (rest : List ℕ) (c : Bool)
    → t < 256
    → target < 65536
    → 7 ≤ size
    → validate_packet (meta_of (meta_bytes (make_meta t target) ++ rest)) size c ≡ 0
validate_packet-make_meta t target size rest c h k l =
    ap (λ m. validate_packet m size c)
      (meta_of-meta_bytes (make_meta t target) rest (make_meta-FitsMeta t target h k))
    ∙ validate-make_meta t target size c l

-- What passes the check has the size of a header or more, a header with its own CRC, and this
-- protocol's version unless the type is exempt or the receiver checks no version.
pub validate_packet_sound :
    (p : PacketMeta) (size : ℕ) (c : Bool)
    → validate_packet p size c ≡ 0
    → (7 ≤ size)
      × (p.header_crc ≡ crc16 (header_bytes p.header))
      × ((c ≡ false)
          ⊎ (p.header.protocol_version ≡ version)
          ⊎ (is_version_exempt_type p.header.type ≡ true))
unfolding validate_packet
validate_packet_sound p size c h = ground arith

-- The casts of the discovery frames read back what was written, whatever follows in the buffer.
pub initialization_pull_of-bytes :
    (p : PacketInitializationPull) (rest : List ℕ)
    → FitsMeta p.meta
    → p.panel_index < 65536
    → p.parent_edge_index < 65536
    → initialization_pull_of (initialization_pull_bytes p ++ rest) ≡ p
initialization_pull_of-bytes p rest f a b = ground arith

-- A REGISTER_EDGE whose fields fit their widths is read from its bytes as it was written, whatever
-- follows them in the buffer.
pub register_edge_of-bytes :
    (p : PacketRegisterEdge) (rest : List ℕ)
    → FitsMeta p.meta
    → p.panel_index < 65536
    → p.edge_index < 65536
    → p.parent_edge_index < 65536
    → register_edge_of (register_edge_bytes p ++ rest) ≡ p
register_edge_of-bytes p rest f a b c = ground arith

pub discovery_advance_of-bytes :
    (p : PacketDiscoveryAdvance) (rest : List ℕ)
    → FitsMeta p.meta
    → p.assign_index < 65536
    → discovery_advance_of (discovery_advance_bytes p ++ rest) ≡ p
discovery_advance_of-bytes p rest f a = ground arith

pub discovery_done_of-bytes :
    (p : PacketDiscoveryDone) (rest : List ℕ)
    → FitsMeta p.meta
    → p.panel_index < 65536
    → discovery_done_of (discovery_done_bytes p ++ rest) ≡ p
discovery_done_of-bytes p rest f a = ground arith

pub link_ack_of-bytes :
    (p : PacketLinkAck) (rest : List ℕ)
    → FitsMeta p.meta
    → p.frame_crc < 65536
    → link_ack_of (link_ack_bytes p ++ rest) ≡ p
link_ack_of-bytes p rest f a = ground arith
