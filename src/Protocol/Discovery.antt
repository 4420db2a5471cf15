-- ===== src/Protocol/Discovery.antt =====
-- lib/Lightnet/Core/Common/ProtocolTypes.hpp: the packed structs of the discovery control plane and the hop acknowledgment,
-- with the bytes that they occupy on the wire.
use lightnet_firmware.Common.{ℕ, List, ◌++◌, ◌≡◌, refl, length, bytes16, read16, get_or}
use lightnet_firmware.Protocol.Types.{PacketMeta}
use lightnet_firmware.Protocol.Meta.{
  meta_bytes, meta_of, sizeof_initialization_pull, sizeof_register_edge, sizeof_discovery_advance,
  sizeof_discovery_done, sizeof_link_ack,
}

pub record PacketInitializationPull : Type 0 where
  pub meta : PacketMeta
  pub panel_index : ℕ
  pub parent_edge_index : ℕ

abbrev pub initialization_pull_bytes : PacketInitializationPull → List ℕ
initialization_pull_bytes p =
    meta_bytes p.meta ++ bytes16 p.panel_index ++ bytes16 p.parent_edge_index

-- The cast of a frame to `const PacketInitializationPull *`.
abbrev pub initialization_pull_of : List ℕ → PacketInitializationPull
initialization_pull_of b = record {
  meta = meta_of b;
  panel_index = read16 (get_or b 7 0) (get_or b 8 0);
  parent_edge_index = read16 (get_or b 9 0) (get_or b 10 0);
}

initialization_pull-length :
    (p : PacketInitializationPull)
    → length (initialization_pull_bytes p) ≡ sizeof_initialization_pull
initialization_pull-length p = refl

pub record PacketRegisterEdge : Type 0 where
  pub meta : PacketMeta
  pub panel_index : ℕ
  pub edge_index : ℕ
  pub parent_edge_index : ℕ

abbrev pub register_edge_bytes : PacketRegisterEdge → List ℕ
register_edge_bytes p =
    meta_bytes p.meta
    ++ bytes16 p.panel_index
    ++ bytes16 p.edge_index
    ++ bytes16 p.parent_edge_index

-- The cast of a frame to `const PacketRegisterEdge *`.
abbrev pub register_edge_of : List ℕ → PacketRegisterEdge
register_edge_of b = record {
  meta = meta_of b;
  panel_index = read16 (get_or b 7 0) (get_or b 8 0);
  edge_index = read16 (get_or b 9 0) (get_or b 10 0);
  parent_edge_index = read16 (get_or b 11 0) (get_or b 12 0);
}

register_edge-length :
    (p : PacketRegisterEdge) → length (register_edge_bytes p) ≡ sizeof_register_edge
register_edge-length p = refl

pub record PacketDiscoveryAdvance : Type 0 where
  pub meta : PacketMeta
  pub assign_index : ℕ

abbrev pub discovery_advance_bytes : PacketDiscoveryAdvance → List ℕ
discovery_advance_bytes p = meta_bytes p.meta ++ bytes16 p.assign_index

-- The cast of a frame to `const PacketDiscoveryAdvance *`.
abbrev pub discovery_advance_of : List ℕ → PacketDiscoveryAdvance
discovery_advance_of b = record {
  meta = meta_of b;
  assign_index = read16 (get_or b 7 0) (get_or b 8 0);
}

discovery_advance-length :
    (p : PacketDiscoveryAdvance) → length (discovery_advance_bytes p) ≡ sizeof_discovery_advance
discovery_advance-length p = refl

pub record PacketDiscoveryDone : Type 0 where
  pub meta : PacketMeta
  pub panel_index : ℕ

abbrev pub discovery_done_bytes : PacketDiscoveryDone → List ℕ
discovery_done_bytes p = meta_bytes p.meta ++ bytes16 p.panel_index

-- The cast of a frame to `const PacketDiscoveryDone *`.
abbrev pub discovery_done_of : List ℕ → PacketDiscoveryDone
discovery_done_of b = record {
  meta = meta_of b;
  panel_index = read16 (get_or b 7 0) (get_or b 8 0);
}

discovery_done-length :
    (p : PacketDiscoveryDone) → length (discovery_done_bytes p) ≡ sizeof_discovery_done
discovery_done-length p = refl

pub record PacketLinkAck : Type 0 where
  pub meta : PacketMeta
  pub frame_crc : ℕ

abbrev pub link_ack_bytes : PacketLinkAck → List ℕ
link_ack_bytes p = meta_bytes p.meta ++ bytes16 p.frame_crc

-- The cast of a frame to `const PacketLinkAck *`.
abbrev pub link_ack_of : List ℕ → PacketLinkAck
link_ack_of b = record { meta = meta_of b; frame_crc = read16 (get_or b 7 0) (get_or b 8 0) }

link_ack-length : (p : PacketLinkAck) → length (link_ack_bytes p) ≡ sizeof_link_ack
link_ack-length p = refl
