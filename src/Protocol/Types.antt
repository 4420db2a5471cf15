-- ===== src/Protocol/Types.antt =====
-- lib/Lightnet/Core/Common/ProtocolTypes.hpp and LightnetConfig.hpp: the packet types and the
-- packet header. A `packetType_t` is cast from a received byte, so it is a number here.
use lightnet_firmware.Common.{ℕ}

-- `enum packetType_t`.
abbrev pub packet_noop : ℕ
packet_noop = 0

abbrev pub packet_ack : ℕ
packet_ack = 1

abbrev pub packet_initialization_pull : ℕ
packet_initialization_pull = 2

abbrev pub packet_register_edge : ℕ
packet_register_edge = 3

abbrev pub packet_turn_on_off : ℕ
packet_turn_on_off = 4

abbrev pub packet_set_color : ℕ
packet_set_color = 5

abbrev pub packet_register_edge_ack : ℕ
packet_register_edge_ack = 8

abbrev pub packet_panel_edge_info : ℕ
packet_panel_edge_info = 9

abbrev pub packet_fetch_state : ℕ
packet_fetch_state = 10

abbrev pub packet_panel_configuration : ℕ
packet_panel_configuration = 11

abbrev pub packet_animation_prepare : ℕ
packet_animation_prepare = 12

abbrev pub packet_animation_start : ℕ
packet_animation_start = 13

abbrev pub packet_animation_control : ℕ
packet_animation_control = 14

abbrev pub packet_fetch_anim_state : ℕ
packet_fetch_anim_state = 15

abbrev pub packet_animation_update_params : ℕ
packet_animation_update_params = 16

abbrev pub packet_set_palette : ℕ
packet_set_palette = 17

abbrev pub packet_set_base_colors : ℕ
packet_set_base_colors = 18

abbrev pub packet_set_global_brightness : ℕ
packet_set_global_brightness = 19

abbrev pub packet_set_background : ℕ
packet_set_background = 20

abbrev pub packet_fetch_state_reply : ℕ
packet_fetch_state_reply = 21

abbrev pub packet_fetch_anim_state_reply : ℕ
packet_fetch_anim_state_reply = 22

abbrev pub packet_discovery_advance : ℕ
packet_discovery_advance = 23

abbrev pub packet_discovery_done : ℕ
packet_discovery_done = 24

abbrev pub packet_link_ack : ℕ
packet_link_ack = 25

abbrev pub packet_reset_device : ℕ
packet_reset_device = 200

abbrev pub packet_enter_bootloader : ℕ
packet_enter_bootloader = 201

abbrev pub packet_bootloader_ping : ℕ
packet_bootloader_ping = 202

abbrev pub packet_bootloader_pong : ℕ
packet_bootloader_pong = 203

abbrev pub packet_bootloader_write_chunk : ℕ
packet_bootloader_write_chunk = 204

abbrev pub packet_bootloader_write_ack : ℕ
packet_bootloader_write_ack = 205

abbrev pub packet_bootloader_start_app : ℕ
packet_bootloader_start_app = 206

abbrev pub version : ℕ
version = 14

abbrev pub discovery_rejected_index : ℕ
discovery_rejected_index = 0

abbrev pub max_packet_size : ℕ
max_packet_size = 80

abbrev pub lightnet_max_panels : ℕ
lightnet_max_panels = 100

pub record PacketHeader : Type 0 where
  pub type : ℕ
  pub protocol_version : ℕ
  pub target_panel_index : ℕ

pub record PacketMeta : Type 0 where
  pub header : PacketHeader
  pub header_crc : ℕ
