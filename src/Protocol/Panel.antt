-- ===== src/Protocol/Panel.antt =====
-- lib/Lightnet/Core/Common/ProtocolTypes.hpp: the packed structs of panel state and configuration, and the bootloader's control plane,
-- with the bytes that they occupy on the wire.
use lightnet_firmware.Common.{ℕ, List, [], ◌∷◌, ◌++◌, ◌≡◌, refl, length, bytes16}
use lightnet_firmware.Protocol.Types.{PacketMeta}
use lightnet_firmware.Protocol.Meta.{
  meta_bytes, sizeof_panel_configuration, sizeof_panel_edge_info, sizeof_panel_state,
  sizeof_animation_status, sizeof_enter_bootloader, sizeof_bootloader_pong,
  sizeof_bootloader_write_ack,
}
use lightnet_firmware.Protocol.Color.{ColorRgb, color_bytes}

pub record PacketPanelConfiguration : Type 0 where
  pub meta : PacketMeta
  pub use_gamma_correction : ℕ
  pub color_temperature : ColorRgb
  pub color_correction : ColorRgb

abbrev pub panel_configuration_bytes : PacketPanelConfiguration → List ℕ
panel_configuration_bytes p =
    meta_bytes p.meta
    ++ p.use_gamma_correction ∷ []
    ++ color_bytes p.color_temperature
    ++ color_bytes p.color_correction

panel_configuration-length :
    (p : PacketPanelConfiguration)
    → length (panel_configuration_bytes p) ≡ sizeof_panel_configuration
panel_configuration-length p = refl

pub record PacketPanelEdgeInfo : Type 0 where
  pub meta : PacketMeta
  pub panel_index : ℕ
  pub edge_index : ℕ
  pub connected_panel_index : ℕ

abbrev pub panel_edge_info_bytes : PacketPanelEdgeInfo → List ℕ
panel_edge_info_bytes p =
    meta_bytes p.meta
    ++ bytes16 p.panel_index
    ++ p.edge_index ∷ []
    ++ bytes16 p.connected_panel_index

panel_edge_info-length :
    (p : PacketPanelEdgeInfo) → length (panel_edge_info_bytes p) ≡ sizeof_panel_edge_info
panel_edge_info-length p = refl

pub record PacketPanelState : Type 0 where
  pub meta : PacketMeta
  pub panel_index : ℕ
  pub state : ℕ
  pub color : ColorRgb

abbrev pub panel_state_bytes : PacketPanelState → List ℕ
panel_state_bytes p =
    meta_bytes p.meta ++ bytes16 p.panel_index ++ p.state ∷ [] ++ color_bytes p.color

panel_state-length : (p : PacketPanelState) → length (panel_state_bytes p) ≡ sizeof_panel_state
panel_state-length p = refl

pub record PacketAnimationStatus : Type 0 where
  pub meta : PacketMeta
  pub anim_type : ℕ
  pub group_id : ℕ
  pub elapsed_ms : ℕ
  pub duration_ms : ℕ
  pub queue_len : ℕ

abbrev pub animation_status_bytes : PacketAnimationStatus → List ℕ
animation_status_bytes p =
    meta_bytes p.meta
    ++ p.anim_type ∷ []
    ++ p.group_id ∷ []
    ++ bytes16 p.elapsed_ms
    ++ bytes16 p.duration_ms
    ++ p.queue_len ∷ []

animation_status-length :
    (p : PacketAnimationStatus) → length (animation_status_bytes p) ≡ sizeof_animation_status
animation_status-length p = refl

pub record PacketEnterBootloader : Type 0 where
  pub meta : PacketMeta
  pub token : ℕ

abbrev pub enter_bootloader_bytes : PacketEnterBootloader → List ℕ
enter_bootloader_bytes p = meta_bytes p.meta ++ p.token ∷ []

enter_bootloader-length :
    (p : PacketEnterBootloader) → length (enter_bootloader_bytes p) ≡ sizeof_enter_bootloader
enter_bootloader-length p = refl

pub record PacketBootloaderPong : Type 0 where
  pub meta : PacketMeta
  pub bootloader_version : ℕ
  pub page_size : ℕ
  pub flash_size : ℕ

abbrev pub bootloader_pong_bytes : PacketBootloaderPong → List ℕ
bootloader_pong_bytes p =
    meta_bytes p.meta ++ p.bootloader_version ∷ [] ++ bytes16 p.page_size ++ bytes16 p.flash_size

bootloader_pong-length :
    (p : PacketBootloaderPong) → length (bootloader_pong_bytes p) ≡ sizeof_bootloader_pong
bootloader_pong-length p = refl

pub record PacketBootloaderWriteAck : Type 0 where
  pub meta : PacketMeta
  pub address : ℕ
  pub status : ℕ
  pub payload_crc : ℕ

abbrev pub bootloader_write_ack_bytes : PacketBootloaderWriteAck → List ℕ
bootloader_write_ack_bytes p =
    meta_bytes p.meta ++ bytes16 p.address ++ p.status ∷ [] ++ bytes16 p.payload_crc

bootloader_write_ack-length :
    (p : PacketBootloaderWriteAck)
    → length (bootloader_write_ack_bytes p) ≡ sizeof_bootloader_write_ack
bootloader_write_ack-length p = refl
