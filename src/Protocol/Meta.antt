-- ===== src/Protocol/Meta.antt =====
-- lib/Lightnet/Core/Common/ProtocolMeta.cpp: stamping and checking a packet's header, and the
-- tables over the packet types. `sizeof` of a packed struct is its number of bytes.
use lightnet_firmware.Common.{
  ℕ, ◌/◌, ◌%◌, ◌++◌, bytes16, Bool, true, false, not, ◌&&◌, ◌||◌, List, [], ◌∷◌, ltb, ◌==◌, ◌!=◌,
  if◌then◌else◌, get_or, read16,
}
use lightnet_firmware.Protocol.Crc.{crc16}
use lightnet_firmware.Protocol.Types.{
  version, PacketHeader, PacketMeta, packet_ack, packet_animation_control, packet_animation_prepare,
  packet_animation_start, packet_animation_update_params, packet_bootloader_ping,
  packet_bootloader_pong, packet_bootloader_start_app, packet_bootloader_write_ack,
  packet_bootloader_write_chunk, packet_discovery_advance, packet_discovery_done,
  packet_enter_bootloader, packet_fetch_anim_state, packet_fetch_anim_state_reply,
  packet_fetch_state, packet_fetch_state_reply, packet_initialization_pull, packet_link_ack,
  packet_noop, packet_panel_configuration, packet_panel_edge_info, packet_register_edge,
  packet_register_edge_ack, packet_reset_device, packet_set_background, packet_set_base_colors,
  packet_set_color, packet_set_global_brightness, packet_set_palette, packet_turn_on_off,
}

abbrev pub sizeof_meta : ℕ
sizeof_meta = 7

abbrev pub sizeof_initialization_pull : ℕ
sizeof_initialization_pull = 11

abbrev pub sizeof_register_edge : ℕ
sizeof_register_edge = 13

abbrev pub sizeof_turn_on_off : ℕ
sizeof_turn_on_off = 8

abbrev pub sizeof_set_color : ℕ
sizeof_set_color = 10

abbrev pub sizeof_panel_edge_info : ℕ
sizeof_panel_edge_info = 12

abbrev pub sizeof_panel_state : ℕ
sizeof_panel_state = 13

abbrev pub sizeof_panel_configuration : ℕ
sizeof_panel_configuration = 14

abbrev pub sizeof_animation_prepare : ℕ
sizeof_animation_prepare = 28

abbrev pub sizeof_animation_start : ℕ
sizeof_animation_start = 9

abbrev pub sizeof_animation_control : ℕ
sizeof_animation_control = 9

abbrev pub sizeof_animation_update_params : ℕ
sizeof_animation_update_params = 12

abbrev pub sizeof_animation_status : ℕ
sizeof_animation_status = 14

abbrev pub sizeof_set_palette : ℕ
sizeof_set_palette = 72

abbrev pub sizeof_set_base_colors : ℕ
sizeof_set_base_colors = 16

abbrev pub sizeof_set_global_brightness : ℕ
sizeof_set_global_brightness = 8

abbrev pub sizeof_set_background : ℕ
sizeof_set_background = 10

abbrev pub sizeof_discovery_advance : ℕ
sizeof_discovery_advance = 9

abbrev pub sizeof_discovery_done : ℕ
sizeof_discovery_done = 9

abbrev pub sizeof_link_ack : ℕ
sizeof_link_ack = 9

abbrev pub sizeof_enter_bootloader : ℕ
sizeof_enter_bootloader = 8

abbrev pub sizeof_bootloader_pong : ℕ
sizeof_bootloader_pong = 12

abbrev pub sizeof_bootloader_write_chunk : ℕ
sizeof_bootloader_write_chunk = 76

abbrev pub sizeof_bootloader_write_ack : ℕ
sizeof_bootloader_write_ack = 12

-- The bytes of a header in memory, little-endian and packed.
abbrev pub header_bytes : PacketHeader → List ℕ
header_bytes h =
    h.type
    ∷ (h.protocol_version % 256)
    ∷ (h.protocol_version / 256 % 256)
    ∷ (h.target_panel_index % 256)
    ∷ (h.target_panel_index / 256 % 256)
    ∷ []

abbrev pub meta_bytes : PacketMeta → List ℕ
meta_bytes m = header_bytes m.header ++ bytes16 m.header_crc

-- The cast of a byte buffer to `const PacketMeta *`. A `uint8_t` buffer holds bytes.
abbrev pub meta_of : List ℕ → PacketMeta
meta_of b = record {
  header = record {
    type = get_or b 0 0;
    protocol_version = read16 (get_or b 1 0) (get_or b 2 0);
    target_panel_index = read16 (get_or b 3 0) (get_or b 4 0);
  };
  header_crc = read16 (get_or b 5 0) (get_or b 6 0);
}

unfoldable pub set_packet_meta : ℕ → ℕ → PacketMeta
set_packet_meta type target =
    let h : PacketHeader = record {
      type = type;
      protocol_version = version;
      target_panel_index = target;
    } in
    record { header = h; header_crc = crc16 (header_bytes h) }

unfoldable pub make_meta : ℕ → ℕ → PacketMeta
unfolding set_packet_meta
make_meta type target = set_packet_meta type target

unfoldable pub is_version_exempt_type : ℕ → Bool
is_version_exempt_type t =
    t == packet_reset_device
    || t == packet_enter_bootloader
    || t == packet_initialization_pull
    || t == packet_register_edge
    || t == packet_discovery_advance
    || t == packet_discovery_done
    || t == packet_link_ack

unfoldable pub is_link_acked_type : ℕ → Bool
is_link_acked_type t =
    if t == packet_ack
    then true
    else if t == packet_turn_on_off
    then true
    else if t == packet_panel_edge_info
    then true
    else if t == packet_fetch_state
    then true
    else if t == packet_fetch_state_reply
    then true
    else if t == packet_fetch_anim_state
    then true
    else if t == packet_fetch_anim_state_reply
    then true
    else if t == packet_panel_configuration
    then true
    else if t == packet_animation_prepare
    then true
    else if t == packet_animation_control
    then true
    else if t == packet_animation_update_params
    then true
    else if t == packet_set_palette
    then true
    else if t == packet_set_base_colors
    then true
    else if t == packet_set_global_brightness
    then true
    else if t == packet_set_background
    then true
    else if t == packet_reset_device
    then true
    else if t == packet_enter_bootloader
    then true
    else if t == packet_bootloader_pong
    then true
    else if t == packet_bootloader_write_ack
    then true
    else false

-- 0 is ok, 1 too short, 2 a bad header CRC, 3 another protocol version.
unfoldable pub validate_packet : PacketMeta → ℕ → Bool → ℕ
validate_packet p size validate_protocol_version =
    if ltb size sizeof_meta
    then 1
    else if crc16 (header_bytes p.header) != p.header_crc
    then 2
    else if validate_protocol_version
        && (p.header.protocol_version != version)
        && not (is_version_exempt_type p.header.type)
    then 3
    else 0

unfoldable pub packet_size_for_type : ℕ → ℕ
packet_size_for_type t =
    if t == packet_noop
    then sizeof_meta
    else if t == packet_ack
    then sizeof_meta
    else if t == packet_initialization_pull
    then sizeof_initialization_pull
    else if t == packet_register_edge
    then sizeof_register_edge
    else if t == packet_turn_on_off
    then sizeof_turn_on_off
    else if t == packet_set_color
    then sizeof_set_color
    else if t == packet_register_edge_ack
    then sizeof_meta
    else if t == packet_panel_edge_info
    then sizeof_panel_edge_info
    else if t == packet_fetch_state
    then sizeof_meta
    else if t == packet_fetch_state_reply
    then sizeof_panel_state
    else if t == packet_panel_configuration
    then sizeof_panel_configuration
    else if t == packet_animation_prepare
    then sizeof_animation_prepare
    else if t == packet_animation_start
    then sizeof_animation_start
    else if t == packet_animation_control
    then sizeof_animation_control
    else if t == packet_fetch_anim_state
    then sizeof_meta
    else if t == packet_animation_update_params
    then sizeof_animation_update_params
    else if t == packet_fetch_anim_state_reply
    then sizeof_animation_status
    else if t == packet_set_palette
    then sizeof_set_palette
    else if t == packet_set_base_colors
    then sizeof_set_base_colors
    else if t == packet_set_global_brightness
    then sizeof_set_global_brightness
    else if t == packet_set_background
    then sizeof_set_background
    else if t == packet_discovery_advance
    then sizeof_discovery_advance
    else if t == packet_discovery_done
    then sizeof_discovery_done
    else if t == packet_link_ack
    then sizeof_link_ack
    else if t == packet_reset_device
    then sizeof_meta
    else if t == packet_enter_bootloader
    then sizeof_enter_bootloader
    else if t == packet_bootloader_ping
    then sizeof_meta
    else if t == packet_bootloader_pong
    then sizeof_bootloader_pong
    else if t == packet_bootloader_write_chunk
    then sizeof_bootloader_write_chunk
    else if t == packet_bootloader_write_ack
    then sizeof_bootloader_write_ack
    else if t == packet_bootloader_start_app
    then sizeof_meta
    else 0
