-- ===== src/Panel/LightnetPanel.antt =====
-- lib/Lightnet/Panel/LightnetPanel.{hpp,cpp}: what a panel does with a frame that its receiver has completed,
-- and with the packets that are for it. Builds without DEBUG. The sends are the calls of `sendOnEdge`, on
-- the link or on its ARQ decorator.
pub mod Play
pub mod Once
pub mod Display
use lightnet_firmware.Common.{
  ℕ, ◌+◌, ◌%◌, Bool, true, false, List, [], ◌∷◌, ◌++◌, ◌==◌, ◌!=◌, if◌then◌else◌, u16,
}
use lightnet_firmware.Protocol.Types.{
  packet_turn_on_off, packet_set_color, packet_panel_configuration, packet_animation_prepare,
  packet_animation_start, packet_animation_control, packet_animation_update_params,
  packet_set_palette, packet_set_base_colors, packet_set_global_brightness, packet_set_background,
  packet_reset_device, packet_enter_bootloader, packet_fetch_state, packet_fetch_state_reply,
  packet_link_ack,
}
use lightnet_firmware.Protocol.Crc.{crc16}
use lightnet_firmware.Protocol.Meta.{meta_of, make_meta, is_link_acked_type}
use lightnet_firmware.Protocol.Discovery.{link_ack_bytes}
use lightnet_firmware.Protocol.Panel.{panel_state_bytes}
use lightnet_firmware.Framing.LinkArq.{LinkDedup, check_and_note}
use lightnet_firmware.Relay.EdgeLink.{Send, send_on_edge}
use lightnet_firmware.Relay.PanelDiscoveryDriver.{PanelDiscoveryDriver}
use lightnet_firmware.Relay.PanelFrameDispatcher
use lightnet_firmware.Panel.PlayerState.{AnimationPlayer}
use lightnet_firmware.Panel.AnimationPlayer
use lightnet_firmware.Panel.RgbController
use lightnet_firmware.Panel.RgbController.{RgbController}
use lightnet_firmware.Panel.Packets.{
  animation_prepare_of, animation_start_of, animation_control_of, animation_update_params_of,
  set_palette_of, set_base_colors_of, set_global_brightness_of, set_background_of, turn_on_off_of,
  set_color_of, panel_configuration_of, enter_bootloader_of,
}

abbrev pub bootloader_entry_token : ℕ
bootloader_entry_token = 0xB0

-- Whether the program runs on, and what it hands to the bootloader where it does not.
pub data Fate : Type 0 where
  running : Fate
  watchdog_reset : Fate
  enters_bootloader : ℕ → ℕ → Fate

-- The members that the frames change. The driver has the table of the edges.
pub record LightnetPanel : Type 0 where
  pub driver : PanelDiscoveryDriver
  pub link_dedup : LinkDedup
  pub anim_player : AnimationPlayer
  pub rgb_controller : RgbController
  pub last_relay_activity_ms : ℕ
  pub fate : Fate

abbrev pub with_player : LightnetPanel → AnimationPlayer → LightnetPanel
with_player p a = record p { anim_player = a }

abbrev pub with_rgb : LightnetPanel → RgbController → LightnetPanel
with_rgb p c = record p { rgb_controller = c }

unfoldable pub handle_turn_on_off : LightnetPanel → List ℕ → LightnetPanel
handle_turn_on_off p frame = with_rgb p (
    if (turn_on_off_of frame).on != 0
    then RgbController.turn_on p.rgb_controller
    else RgbController.turn_off p.rgb_controller)

unfoldable pub handle_panel_configuration : LightnetPanel → List ℕ → LightnetPanel
handle_panel_configuration p frame =
    let k = panel_configuration_of frame in
    let a = RgbController.gamma_correction p.rgb_controller (k.use_gamma_correction != 0) in
    let b = RgbController.set_color_temperature a k.color_temperature in
    with_rgb p (RgbController.set_color_correction b k.color_correction)

unfoldable pub handle_animation_start : LightnetPanel → List ℕ → ℕ → LightnetPanel
handle_animation_start p frame millis =
    let k = animation_start_of frame in
    with_player p (AnimationPlayer.start p.anim_player k.seq_id k.group_id (u16 millis))

unfoldable pub handle_animation_control : LightnetPanel → List ℕ → ℕ → LightnetPanel
handle_animation_control p frame millis =
    let k = animation_control_of frame in
    with_player p (AnimationPlayer.control p.anim_player k.cmd k.group_id (u16 millis))

unfoldable pub handle_animation_update_params : LightnetPanel → List ℕ → ℕ → LightnetPanel
handle_animation_update_params p frame millis =
    let k = animation_update_params_of frame in
    with_player p (
      AnimationPlayer.update_params p.anim_player k.seq_id k.group_id k.param_type k.value
        (u16 millis))

unfoldable pub handle_set_palette : LightnetPanel → List ℕ → LightnetPanel
handle_set_palette p frame =
    let k = set_palette_of frame in
    with_player p (AnimationPlayer.set_palette p.anim_player k.stops k.count)

-- The state that goes to the parent.
unfoldable pub handle_fetch_state : LightnetPanel → List Send
handle_fetch_state p =
    let index = p.driver.assigned_index in
    send_on_edge p.driver.discovery.parent (
      panel_state_bytes (record {
        meta = make_meta packet_fetch_state_reply index;
        panel_index = index;
        state = (if p.rgb_controller.is_on then 1 else 0);
        color = p.rgb_controller.color_value;
      }))
    ∷ []

unfoldable pub handle_enter_bootloader : LightnetPanel → List ℕ → LightnetPanel
handle_enter_bootloader p frame =
    if (enter_bootloader_of frame).token != bootloader_entry_token
    then p
    else record p { fate = enters_bootloader p.driver.discovery.parent p.driver.assigned_index }

-- `handlePacket` on the packets that change the panel. `millis` is the clock that the handlers read.
unfoldable pub handle_packet : LightnetPanel → List ℕ → ℕ → LightnetPanel × List Send
handle_packet p frame millis =
    let type = (meta_of frame).header.type in
    let player = p.anim_player in
    if type == packet_turn_on_off
    then (handle_turn_on_off p frame, [])
    else if type == packet_set_color
    then (with_player p (AnimationPlayer.set_color_direct player (set_color_of frame).color), [])
    else if type == packet_panel_configuration
    then (handle_panel_configuration p frame, [])
    else if type == packet_animation_prepare
    then (with_player p (AnimationPlayer.prepare player (animation_prepare_of frame)), [])
    else if type == packet_animation_start
    then (handle_animation_start p frame millis, [])
    else if type == packet_animation_control
    then (handle_animation_control p frame millis, [])
    else if type == packet_animation_update_params
    then (handle_animation_update_params p frame millis, [])
    else if type == packet_set_palette
    then (handle_set_palette p frame, [])
    else if type == packet_set_base_colors
    then (
      with_player p (AnimationPlayer.set_base_colors player (set_base_colors_of frame).colors),
      [],
    )
    else if type == packet_set_global_brightness
    then (
      with_rgb p (
          RgbController.set_global_brightness p.rgb_controller
            (set_global_brightness_of frame).value),
      [],
    )
    else if type == packet_set_background
    then (with_player p (AnimationPlayer.set_background player (set_background_of frame).color), [])
    else if type == packet_reset_device
    then (record p { fate = watchdog_reset }, [])
    else if type == packet_enter_bootloader
    then (handle_enter_bootloader p frame, [])
    else if type == packet_fetch_state
    then (p, handle_fetch_state p)
    else (p, [])

abbrev pub ack_frame : ℕ → List ℕ
ack_frame crc = link_ack_bytes (record { meta = make_meta packet_link_ack 0; frame_crc = crc })

-- `pollBytes` from the call of the dispatcher on.
unfoldable pub dispatch : LightnetPanel → ℕ → List ℕ → ℕ → ℕ → LightnetPanel × List Send
dispatch p from frame now millis =
    let (d, sent, act) = PanelFrameDispatcher.on_frame_arrived p.driver from frame now in
    let q = record p { driver = d; last_relay_activity_ms = now } in
    let (r, replies) = handle_packet q frame millis in
    if act then (r, sent ++ replies) else (q, sent)

-- `pollBytes` on a frame that `onByte` has completed on the edge `from`.
unfoldable pub on_frame : LightnetPanel → ℕ → List ℕ → ℕ → ℕ → LightnetPanel × List Send
on_frame p from frame now millis =
    let type = (meta_of frame).header.type in
    let crc = crc16 frame in
    let (noted, duplicate) = check_and_note p.link_dedup from crc now in
    let q = record p { link_dedup = noted; last_relay_activity_ms = now } in
    let ack = send_on_edge from (ack_frame crc) in
    let (r, sent) = dispatch q from frame now millis in
    if type == packet_link_ack
    then (record p { last_relay_activity_ms = now }, [])
    else if is_link_acked_type type
    then (if duplicate then (q, ack ∷ []) else (r, ack ∷ sent))
    else dispatch (record p { last_relay_activity_ms = now }) from frame now millis

-- The part of `tick` on the player and the LED.
unfoldable pub tick_player : LightnetPanel → ℕ → LightnetPanel
tick_player p now =
    let (a, dirty) = AnimationPlayer.take_dirty (AnimationPlayer.tick p.anim_player (u16 now)) in
    let c = RgbController.set_color p.rgb_controller a.last_output in
    if dirty then record p { anim_player = a; rgb_controller = c } else record p { anim_player = a }
