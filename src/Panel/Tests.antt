-- ===== src/Panel/Tests.antt =====
-- A panel, its player and its LED controller, on which the theorems about them apply.
use lightnet_firmware.Common.{
  ℕ, ◌+◌, ◌⊎◌, ◌≡◌, ◌≤◌, refl, arith, true, false, List, [], ◌∷◌, ◌++◌, some, replicate, u16,
}
use lightnet_firmware.Protocol.Types.{packet_turn_on_off}
use lightnet_firmware.Protocol.Color.{ColorRgb, ColorRef, GradientStop}
use lightnet_firmware.Protocol.Animation.{PacketAnimationPrepare}
use lightnet_firmware.Protocol.Meta.{make_meta, meta_bytes, is_link_acked_type}
use lightnet_firmware.Protocol.Crc.{crc16}
use lightnet_firmware.Relay.EdgeLink.{send_on_edge}
use lightnet_firmware.Relay.Tests.{probing_panel}
use lightnet_firmware.Controller.AnimationScheduler.{Animation, play_on_panels}
use lightnet_firmware.Controller.AnimationScheduler.Order.{sends}
use lightnet_firmware.Panel.ColorCompose.{CompositeLayer, fold_layers, apply_modifier, rgb}
use lightnet_firmware.Panel.ColorCompose.Order.{fold_layers_stable}
use lightnet_firmware.Panel.ColorCompose.Modifiers.{identity_value, apply_modifier-identity}
use lightnet_firmware.Panel.PlayerState.{
  AnimationState, Slot, AnimationPlayer, find_slot, alloc_slot,
}
use lightnet_firmware.Panel.AnimationPlayer
use lightnet_firmware.Panel.AnimationPlayer.{start, prepare, control, slot_elapsed}
use lightnet_firmware.Panel.AnimationPlayer.Starting.{Plays, described, prepare_then_start}
use lightnet_firmware.Panel.AnimationPlayer.Pausing.{resume_continues}
use lightnet_firmware.Panel.AnimationPlayer.Events
use lightnet_firmware.Panel.AnimationPlayer.Events.{Event}
use lightnet_firmware.Panel.AnimationPlayer.Invariant.{Inv, run-new-Inv}
use lightnet_firmware.Panel.RgbController
use lightnet_firmware.Panel.RgbController.{Shown}
use lightnet_firmware.Panel.RgbController.Calls
use lightnet_firmware.Panel.RgbController.Calls.{Request}
use lightnet_firmware.Panel.RgbController.Output.{driven_color, run_shows}
use lightnet_firmware.Panel.LightnetPanel.{LightnetPanel, running, on_frame, ack_frame, tick_player}
use lightnet_firmware.Panel.LightnetPanel.Play.{
  frames_for, handle_all, played_state, play_reaches_panel,
}
use lightnet_firmware.Panel.LightnetPanel.Once.{on_frame_again}
use lightnet_firmware.Panel.LightnetPanel.Display
use lightnet_firmware.Panel.LightnetPanel.Display.Event.{arrived, ticked}
use lightnet_firmware.Panel.LightnetPanel.Display.{tick_shows_output}

abbrev teal : ColorRgb
teal = rgb 10 200 150

abbrev glow : CompositeLayer
glow = record { compose_order = 2; is_modifier = false; op = 1; value = 255; color = teal }

abbrev dim : CompositeLayer
dim = record { compose_order = 7; is_modifier = true; op = 0; value = 100; color = teal }

fold_layers_stable_example : fold_layers (glow ∷ dim ∷ []) teal ≡ fold_layers (dim ∷ glow ∷ []) teal
fold_layers_stable_example =
    fold_layers_stable (glow ∷ dim ∷ []) (dim ∷ glow ∷ []) teal (λ k. ground arith)

apply_modifier-identity_example : apply_modifier teal 5 (identity_value 5) ≡ teal
apply_modifier-identity_example =
    apply_modifier-identity teal 5
      (record { red = omega arith; green = omega arith; blue = omega arith })

abbrev teal_ref : ColorRef
teal_ref = record { kind = 0; raw0 = 10; raw1 = 200; raw2 = 150 }

abbrev rose_ref : ColorRef
rose_ref = record { kind = 0; raw0 = 220; raw1 = 40; raw2 = 90 }

-- A fade of half a second.
abbrev fading : AnimationState
fading = record {
  anim_type = 1;
  group_id = 3;
  flags = 0;
  transition_ms = 0;
  duration_ms = 500;
  start_ms = 1000;
  color_from = teal_ref;
  color_to = teal_ref;
  param1 = 0;
  param2 = 0;
  compose_mode = 1;
  compose_order = 4;
  start_delay_ms = 0;
  animates = 0;
}

abbrev fading_slot : Slot
fading_slot = record {
  occupied = true;
  started = true;
  holding = false;
  paused = false;
  has_pending = false;
  paused_elapsed_ms = 0;
  group_id = 3;
  cur = fading;
  pending = fading;
  reactive_level = 0;
  reactive_trigger_ms = 0;
}

abbrev unused_slot : Slot
unused_slot = record fading_slot { occupied = false; started = false; group_id = 0 }

abbrev white : GradientStop
white = record { pos = 0; r = 255; g = 255; b = 255 }

abbrev fading_player : AnimationPlayer
fading_player = record {
  slots = fading_slot ∷ replicate 11 unused_slot;
  last_start_seq_id = 9;
  last_params_seq_id = 255;
  now_ms = 1600;
  last_tick_ms = 1584;
  output_dirty = false;
  last_output = teal;
  background_color = rgb 0 0 0;
  palette = replicate 16 white;
  palette_count = 2;
  base_colors = replicate 3 teal;
}

abbrev prepared : PacketAnimationPrepare
prepared = record {
  meta = make_meta 14 1;
  anim_type = 3;
  group_id = 5;
  flags = 8;
  transition_ms = 0;
  duration_ms = 250;
  color_from = rose_ref;
  color_to = teal_ref;
  param1 = 10;
  param2 = 0;
  compose_mode = 0;
  compose_order = 1;
  start_delay_ms = 40;
  animates = 0;
}

prepare_then_start_example :
    ((s : Slot) × (find_slot (start (prepare fading_player prepared) 10 5 1700).slots 5 ≡ some s)
      × Plays s (described prepared) teal 1700)
    × (find_slot (start (prepare fading_player prepared) 10 5 1700).slots 3
        ≡ find_slot fading_player.slots 3)
unfolding alloc_slot
prepare_then_start_example =
    prepare_then_start fading_player prepared 10 1700
      (fading_slot
        ∷ record unused_slot { occupied = true; group_id = 5 }
        ∷ replicate 10 unused_slot)
      3 refl (omega arith) (omega arith)

resume_continues_example :
    (t : Slot) × (find_slot (control (control fading_player 2 3 65500) 3 3 20).slots 3 ≡ some t)
    × (slot_elapsed (u16 (20 + 90)) t ≡ slot_elapsed (u16 (65500 + 90)) fading_slot)
unfolding find_slot
resume_continues_example =
    resume_continues fading_player 3 65500 20 90 fading_slot refl refl refl (omega arith)
      (omega arith) (omega arith)

abbrev events : List Event
events =
    Event.prepare prepared
    ∷ Event.start 1 5 100
    ∷ Event.tick 120
    ∷ Event.control 2 5 130
    ∷ Event.set_palette (replicate 16 white) 40
    ∷ Event.update_params 2 5 3 90 0
    ∷ Event.take_output
    ∷ []

run-new-Inv_example :
    Inv (Events.run (AnimationPlayer.new (replicate 12 fading_slot) (replicate 16 white)) events)
run-new-Inv_example =
    run-new-Inv (replicate 12 fading_slot) (replicate 16 white) events refl refl
      (tt, (tt, (tt, (tt, (refl, (tt, (tt, tt)))))))

abbrev dark : Shown
dark = record { color = rgb 0 0 0; brightness = 0 }

abbrev requests : List Request
requests = Request.color teal ∷ Request.on ∷ Request.brightness 128 ∷ Request.temperature teal ∷ []

run_shows_example :
    let shown = (Calls.run (RgbController.new dark) requests).led in
    ((true ≡ true)
      × (shown.color ≡ driven_color true 128 teal teal (rgb 255 255 255))
      × (shown.brightness ≡ 31)
      × (shown.color.r ≤ 10)
      × (shown.color.g ≤ 200)
      × (shown.color.b ≤ 150))
    ⊎ ((true ≡ false) × ((shown ≡ dark) ⊎ (shown ≡ record { color = rgb 0 0 0; brightness = 0 })))
run_shows_example = run_shows dark requests (
  record { red = omega arith; green = omega arith; blue = omega arith },
  (tt, (omega arith, (record { red = omega arith; green = omega arith; blue = omega arith }, tt))),
)

abbrev panel : LightnetPanel
panel = record {
  driver = probing_panel;
  link_dedup = record {
    entries = replicate 6 (record { frame_crc = 0; seen_at_ms = 0; armed = false });
  };
  anim_player = fading_player;
  rgb_controller = record (RgbController.new dark) { color_value = teal };
  last_relay_activity_ms = 0;
  fate = running;
}

abbrev scheduled : Animation
scheduled = record {
  group_id = 5;
  anim_type = 3;
  flags = 8;
  duration_ms = 250;
  color_from = rose_ref;
  color_to = teal_ref;
  param1 = 10;
  param2 = 0;
  compose_mode = 0;
  compose_order = 1;
  animates = 0;
}

play_reaches_panel_example :
    let frames =
      frames_for 4
        (sends (play_on_panels (record { next_seq_id = 10 }) scheduled (2 ∷ 4 ∷ 7 ∷ [])).1) in
    let q = handle_all panel frames (70000 ∷ 70010 ∷ 70020 ∷ 70030 ∷ []) in
    ((u : Slot) × (find_slot q.anim_player.slots 5 ≡ some u)
      × Plays u (played_state scheduled) teal (u16 70010))
    × (find_slot q.anim_player.slots 3 ≡ find_slot fading_player.slots 3)
unfolding alloc_slot
play_reaches_panel_example =
    play_reaches_panel (record { next_seq_id = 10 }) scheduled panel 4 (2 ∷ []) (7 ∷ []) 70000 70010
      70020 70030
      (fading_slot
        ∷ record unused_slot { occupied = true; group_id = 5 }
        ∷ replicate 10 unused_slot)
      3 ((omega arith, omega arith), tt) ((omega arith, omega arith), tt) (omega arith) refl
      (omega arith) (omega arith)

-- It turns the panel with index 4 on.
abbrev on_frame_bytes : List ℕ
on_frame_bytes = meta_bytes (make_meta packet_turn_on_off 4) ++ 1 ∷ []

on_frame_again_example :
    let q = (on_frame panel 1 on_frame_bytes 500 500).0 in
    let again = on_frame q 1 on_frame_bytes 510 510 in
    (again.1 ≡ send_on_edge 1 (ack_frame (crc16 on_frame_bytes)) ∷ [])
    × (again.0 ≡ record q { link_dedup = again.0.link_dedup; last_relay_activity_ms = 510 })
unfolding make_meta is_link_acked_type
on_frame_again_example =
    on_frame_again panel 1 on_frame_bytes 500 500 510 510 refl (omega arith) (omega arith)

tick_shows_output_example :
    let q =
      tick_player (Display.run panel (ticked 100 ∷ arrived 1 on_frame_bytes 105 105 ∷ [])) 130 in
    q.rgb_controller.color_value ≡ q.anim_player.last_output
tick_shows_output_example =
    tick_shows_output panel (ticked 100 ∷ arrived 1 on_frame_bytes 105 105 ∷ []) 130
      (record { mirrored = λ d. refl })
