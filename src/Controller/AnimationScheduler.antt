-- ===== src/Controller/AnimationScheduler.antt =====
-- lib/Lightnet/Core/Controller/AnimationScheduler.{hpp,cpp}: the packets by which the controller plays
-- animations and sets appearances. A pointer with its count is the list of the `count` entries.
pub mod Calls
pub mod Frames
pub mod Order
pub mod Sequence
use lightnet_firmware.Common.{
  ℕ, zero, suc, ◌+◌, ◌-◌, ◌%◌, Bool, true, false, List, [], ◌∷◌, ◌++◌, ltb, ◌==◌, if◌then◌else◌, u8,
  length, take, replicate,
}
use lightnet_firmware.Protocol.Types.{
  packet_animation_prepare, packet_animation_start, packet_animation_control,
  packet_animation_update_params, packet_set_palette, packet_set_base_colors,
  packet_set_global_brightness, packet_set_background, packet_turn_on_off, packet_set_color,
}
use lightnet_firmware.Protocol.Color.{ColorRgb, ColorRef, color_ref_rgb, GradientStop}
use lightnet_firmware.Protocol.Meta.{
  make_meta, sizeof_animation_prepare, sizeof_animation_control, sizeof_set_palette,
  sizeof_turn_on_off,
}
use lightnet_firmware.Protocol.Animation.{
  animation_prepare_bytes, animation_start_bytes, animation_control_bytes, PacketAnimationControl,
  animation_update_params_bytes, PacketSetPalette, set_palette_bytes, set_base_colors_bytes,
  set_global_brightness_bytes, set_background_bytes, turn_on_off_bytes, set_color_bytes,
}
use lightnet_firmware.Controller.PacketSink.{Command, send, pace, pace_for_hop}

abbrev pub palette_stops : ℕ
palette_stops = 16

abbrev pub start_flood_send_count : ℕ
start_flood_send_count = 3

abbrev pub anim_ctrl_stop : ℕ
anim_ctrl_stop = 1

abbrev pub anim_ctrl_clear_queue : ℕ
anim_ctrl_clear_queue = 4

abbrev pub param_trigger : ℕ
param_trigger = 1

-- The sink is not part of the state: a method returns its calls.
pub record AnimationScheduler : Type 0 where
  pub next_seq_id : ℕ

abbrev pub new : AnimationScheduler
new = record { next_seq_id = 1 }

-- The arguments that `playOnPanels` passes on to every panel.
pub record Animation : Type 0 where
  pub group_id : ℕ
  pub anim_type : ℕ
  pub flags : ℕ
  pub duration_ms : ℕ
  pub color_from : ColorRef
  pub color_to : ColorRef
  pub param1 : ℕ
  pub param2 : ℕ
  pub compose_mode : ℕ
  pub compose_order : ℕ
  pub animates : ℕ

abbrev pub prepare_frame : Animation → ℕ → List ℕ
prepare_frame a start_delay_ms = animation_prepare_bytes (record {
  meta = make_meta packet_animation_prepare 0;
  anim_type = a.anim_type;
  group_id = a.group_id;
  flags = a.flags;
  transition_ms = 0;
  duration_ms = a.duration_ms;
  color_from = a.color_from;
  color_to = a.color_to;
  param1 = a.param1;
  param2 = a.param2;
  compose_mode = a.compose_mode;
  compose_order = a.compose_order;
  start_delay_ms = start_delay_ms;
  animates = a.animates;
})

unfoldable pub send_prepare_to_panel : ℕ → Animation → ℕ → List Command
send_prepare_to_panel panel a start_delay_ms =
    send panel (prepare_frame a start_delay_ms) false ∷ pace_for_hop sizeof_animation_prepare ∷ []

-- `nextSeqId++; if (nextSeqId == 0) nextSeqId = 1;`
unfoldable pub advance_seq_id : AnimationScheduler → AnimationScheduler
advance_seq_id s =
    let n = u8 (s.next_seq_id + 1) in record s { next_seq_id = (if n == 0 then 1 else n) }

abbrev pub start_frame : ℕ → ℕ → List ℕ
start_frame seq_id group_id =
    animation_start_bytes
      (record { meta = make_meta packet_animation_start 0; seq_id = seq_id; group_id = group_id })

-- The loop of `sendGroupStart`, with `n` rounds left.
unfoldable pub flood_start : ℕ → List ℕ → List Command
flood_start zero packet = []
flood_start (suc n) packet = send 0 packet false ∷ pace 200 ∷ flood_start n packet

unfoldable pub send_group_start : AnimationScheduler → ℕ → AnimationScheduler × List Command
unfolding advance_seq_id flood_start
send_group_start s group_id =
    (advance_seq_id s, flood_start start_flood_send_count (start_frame s.next_seq_id group_id))

-- The loop of `playOnPanels`.
unfoldable pub prepare_panels : Animation → List ℕ → List Command
unfolding send_prepare_to_panel
prepare_panels a [] = []
prepare_panels a (p ∷ ps) = send_prepare_to_panel p a 0 ++ prepare_panels a ps

unfoldable pub play_on_panels :
    AnimationScheduler → Animation → List ℕ → AnimationScheduler × List Command
unfolding prepare_panels send_group_start
play_on_panels s a panels =
    let (t, started) = send_group_start s a.group_id in
    (t, prepare_panels a panels ++ pace 300 ∷ started)

-- The overload on RGB colours.
unfoldable pub play_on_panels_rgb :
    AnimationScheduler
    → Animation
    → ColorRgb
    → ColorRgb
    → List ℕ
    → AnimationScheduler × List Command
unfolding play_on_panels
play_on_panels_rgb s a from to panels =
    play_on_panels s
      (record a {
        color_from = color_ref_rgb from.r from.g from.b;
        color_to = color_ref_rgb to.r to.g to.b;
      })
      panels

unfoldable pub broadcast_black : List Command
broadcast_black =
    send 0
      (set_color_bytes
        (record { meta = make_meta packet_set_color 0; color = record { r = 0; g = 0; b = 0 } }))
      false
    ∷ []

abbrev pub control_frame : ℕ → ℕ → List ℕ
control_frame cmd group_id =
    animation_control_bytes
      (record { meta = make_meta packet_animation_control 0; cmd = cmd; group_id = group_id })

unfoldable pub broadcast_stop : List Command
broadcast_stop = send 0 (control_frame anim_ctrl_stop 0) false ∷ []

unfoldable pub clear_all_panel_queues : List Command
clear_all_panel_queues = send 0 (control_frame anim_ctrl_clear_queue 0) false ∷ []

unfoldable pub send_general_call_update_params :
    AnimationScheduler → ℕ → ℕ → ℕ → AnimationScheduler × List Command
unfolding advance_seq_id
send_general_call_update_params s group_id param_type value = (
  advance_seq_id s,
  send 0
        (animation_update_params_bytes (record {
          meta = make_meta packet_animation_update_params 0;
          seq_id = s.next_seq_id;
          group_id = group_id;
          param_type = param_type;
          value = value;
          transition_ms = 10;
        }))
        false
      ∷ [],
)

unfoldable pub trigger_group : AnimationScheduler → ℕ → ℕ → AnimationScheduler × List Command
unfolding send_general_call_update_params
trigger_group s group_id value = send_general_call_update_params s group_id param_trigger value

-- `for (i = 0; i < panelCount; i++) { sink.send(panelAddresses[i], …); sink.paceForHop(size); }`
unfoldable pub unicast : List ℕ → ℕ → List ℕ → List Command
unicast frame size [] = []
unicast frame size (p ∷ ps) = send p frame false ∷ pace_for_hop size ∷ unicast frame size ps

unfoldable pub send_control_to_panels : ℕ → ℕ → List ℕ → List Command
unfolding unicast
send_control_to_panels group_id cmd panels =
    unicast (control_frame cmd group_id) sizeof_animation_control panels

abbrev pub no_stop : GradientStop
no_stop = record { pos = 0; r = 0; g = 0; b = 0 }

unfoldable pub make_set_palette_packet : List GradientStop → PacketSetPalette
make_set_palette_packet stops =
    let count = if ltb palette_stops (length stops) then palette_stops else length stops in
    record {
      meta = make_meta packet_set_palette 0;
      count = count;
      stops = take count stops ++ replicate (palette_stops - count) no_stop;
    }

unfoldable pub broadcast_palette : List GradientStop → List Command
unfolding make_set_palette_packet
broadcast_palette stops =
    if length stops == 0
    then []
    else send 0 (set_palette_bytes (make_set_palette_packet stops)) false ∷ []

unfoldable pub unicast_palette_to_panels : List GradientStop → List ℕ → List Command
unfolding make_set_palette_packet unicast
unicast_palette_to_panels stops panels =
    if length stops == 0
    then []
    else unicast (set_palette_bytes (make_set_palette_packet stops)) sizeof_set_palette panels

unfoldable pub turn_on_panels : List ℕ → List Command
unfolding unicast
turn_on_panels panels =
    unicast (turn_on_off_bytes (record { meta = make_meta packet_turn_on_off 0; on = 1 }))
      sizeof_turn_on_off panels

-- `colors` is the array of BASE_COLORS_COUNT colours.
unfoldable pub broadcast_base_colors : List ColorRgb → List Command
broadcast_base_colors colors =
    send 0
      (set_base_colors_bytes
        (record { meta = make_meta packet_set_base_colors 0; colors = colors }))
      false
    ∷ []

unfoldable pub broadcast_global_brightness : ℕ → List Command
broadcast_global_brightness value =
    send 0
      (set_global_brightness_bytes
        (record { meta = make_meta packet_set_global_brightness 0; value = value }))
      false
    ∷ []

unfoldable pub broadcast_background : ColorRgb → List Command
broadcast_background color =
    send 0
      (set_background_bytes (record { meta = make_meta packet_set_background 0; color = color }))
      false
    ∷ []
