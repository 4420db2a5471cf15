-- ===== src/Panel/LightnetPanel/Display.antt =====
-- LightnetPanel: the player's colour and the one that the LED controller is told.
use lightnet_firmware.Common.{
  ℕ, ◌≡◌, refl, sym, ◌∙◌, inl, inr, Bool, true, false, List, [], ◌∷◌, arith, ◌==◌, if◌then◌else◌,
  Bool-cases, Option-cases, u16,
}
use lightnet_firmware.Protocol.Color.{ColorRgb, GradientStop}
use lightnet_firmware.Protocol.Animation.{PacketAnimationPrepare}
use lightnet_firmware.Framing.LinkArq.{check_and_note}
use lightnet_firmware.Relay.PanelFrameDispatcher
use lightnet_firmware.Panel.PlayerState.{AnimationPlayer, alloc_slot}
use lightnet_firmware.Panel.AnimationPlayer.{
  prepare, start, control, update_params, set_color_direct, set_palette, set_base_colors,
  set_background, set_output, composite, composite_slots, tick, take_dirty,
}
use lightnet_firmware.Panel.ColorCompose.{fold_layers}
use lightnet_firmware.Panel.RgbController.{
  RgbController, update_outputs, turn_on, turn_off, set_color, set_global_brightness,
  gamma_correction, set_color_correction, set_color_temperature,
}
use lightnet_firmware.Relay.EdgeLink.{Send}
use lightnet_firmware.Panel.Packets.{
  animation_prepare_of, animation_start_of, animation_update_params_of, set_palette_of,
  set_color_of, set_base_colors_of, set_global_brightness_of, set_background_of,
}
use lightnet_firmware.Protocol.Crc.{crc16}
use lightnet_firmware.Protocol.Meta.{meta_of, is_link_acked_type}
use lightnet_firmware.Protocol.Types.{
  packet_link_ack, packet_turn_on_off, packet_set_color, packet_panel_configuration,
  packet_animation_prepare, packet_animation_start, packet_animation_control,
  packet_animation_update_params, packet_set_palette, packet_set_base_colors,
  packet_set_global_brightness, packet_set_background, packet_reset_device, packet_enter_bootloader,
  packet_fetch_state,
}
use lightnet_firmware.Panel.LightnetPanel.{
  watchdog_reset, handle_fetch_state, Fate, with_player, with_rgb, LightnetPanel, on_frame,
  dispatch, handle_packet, handle_turn_on_off, handle_panel_configuration, handle_animation_start,
  handle_animation_control, handle_animation_update_params, handle_set_palette,
  handle_enter_bootloader, tick_player,
}

-- A player's output changes only with its flag set.
abbrev Flags : AnimationPlayer → AnimationPlayer → Type 0
Flags a b = b.output_dirty ≡ false → (a.output_dirty ≡ false) × (b.last_output ≡ a.last_output)

prepare-Flags : (a : AnimationPlayer) (pkt : PacketAnimationPrepare) → Flags a (prepare a pkt)
unfolding prepare
prepare-Flags a pkt = elim (Option-cases (alloc_slot a.slots pkt.group_id)) [
  | inl full ↦ rw (full, prepare) (λ d. (d, refl))
  | inr (ts, e) ↦ rw (e, prepare) (λ d. (d, refl))
]

start-Flags : (a : AnimationPlayer) (seq group now : ℕ) → Flags a (start a seq group now)
unfolding start
start-Flags a seq group now = ground arith

update_params-Flags :
    (a : AnimationPlayer) (seq group type value now : ℕ)
    → Flags a (update_params a seq group type value now)
unfolding update_params
update_params-Flags a seq group type value now = ground arith

set_palette-Flags :
    (a : AnimationPlayer) (stops : List GradientStop) (count : ℕ)
    → Flags a (set_palette a stops count)
unfolding set_palette
set_palette-Flags a stops count = ground arith

set_output-Flags : (a : AnimationPlayer) (c : ColorRgb) → Flags a (set_output a c)
unfolding set_output
set_output-Flags a c = ground arith

set_background-Flags : (a : AnimationPlayer) (c : ColorRgb) → Flags a (set_background a c)
unfolding set_background
set_background-Flags a c = ground (arith, set_output-Flags (record a { background_color = c }) c)

composite-Flags : (a : AnimationPlayer) → Flags a (composite a)
unfolding composite
composite-Flags a =
    let (ss, layers) = composite_slots a a.slots in
    let q = record a { slots = ss } in
    ground (
      arith,
      set_output-Flags q a.background_color,
      set_output-Flags q (fold_layers layers a.background_color),
    )

tick-Flags : (a : AnimationPlayer) (now : ℕ) → Flags a (tick a now)
unfolding tick
tick-Flags a now = ground (arith, composite-Flags (record a { now_ms = now; last_tick_ms = now }))

-- The LED has the colour of the player, unless that one is yet to be taken.
pub record IsMirrored (p : LightnetPanel) : Type 0 where
  pub mirrored :
      p.anim_player.output_dirty ≡ false → p.rgb_controller.color_value ≡ p.anim_player.last_output

update_outputs-color : (c : RgbController) → (update_outputs c).color_value ≡ c.color_value
unfolding update_outputs
update_outputs-color c = ground arith

handle_turn_on_off-color :
    (p : LightnetPanel) (frame : List ℕ)
    → (handle_turn_on_off p frame).rgb_controller.color_value ≡ p.rgb_controller.color_value
unfolding handle_turn_on_off turn_on turn_off
handle_turn_on_off-color p frame =
    ground (arith, update_outputs-color (record p.rgb_controller { is_on = true }))

handle_panel_configuration-color :
    (p : LightnetPanel) (frame : List ℕ)
    → (handle_panel_configuration p frame).rgb_controller.color_value ≡ p.rgb_controller.color_value
unfolding handle_panel_configuration gamma_correction set_color_correction set_color_temperature
    update_outputs
handle_panel_configuration-color p frame = ground arith

set_global_brightness-color :
    (c : RgbController) (v : ℕ) → (set_global_brightness c v).color_value ≡ c.color_value
unfolding set_global_brightness
set_global_brightness-color c v = update_outputs-color (record c { global_brightness_value = v })

-- A handler sets the flag if it changes the output, and leaves the LED its colour.
record Mirrors (p : LightnetPanel) (r : LightnetPanel × List Send) : Type 0 where
  flags : Flags p.anim_player r.0.anim_player
  color : r.0.rgb_controller.color_value ≡ p.rgb_controller.color_value

-- What holds of both branches holds of the conditional.
if_both {ℓ κ} :
    {A : Type ℓ} (P : A → Type κ) (b : Bool) {x y : A} → P x → P y → P (if b then x else y)
if_both P true px py = px
if_both P false px py = py

module _ (p : LightnetPanel) (frame : List ℕ) (millis : ℕ) where
  abbrev a : AnimationPlayer
  a = p.anim_player

  Kept-same : (ss : List Send) → Mirrors p (p, ss)
  Kept-same ss = record { flags = λ d. (d, refl); color = refl }

  Kept-player : (b : AnimationPlayer) → Flags a b → Mirrors p (with_player p b, [])
  Kept-player b f = record { flags = f; color = refl }

  Kept-rgb :
      (c : RgbController)
      → c.color_value ≡ p.rgb_controller.color_value
      → Mirrors p (with_rgb p c, [])
  Kept-rgb c e = record { flags = λ d. (d, refl); color = e }

  Kept-turn : Mirrors p (handle_turn_on_off p frame, [])
  unfolding handle_turn_on_off
  Kept-turn = record { flags = λ d. (d, refl); color = handle_turn_on_off-color p frame }

  Kept-color : (c : ColorRgb) → Mirrors p (with_player p (set_color_direct a c), [])
  unfolding set_color_direct
  Kept-color c = record { flags = λ d. absurd (cc d); color = refl }

  Kept-configuration : Mirrors p (handle_panel_configuration p frame, [])
  unfolding handle_panel_configuration
  Kept-configuration = record {
    flags = λ d. (d, refl);
    color = handle_panel_configuration-color p frame;
  }

  Kept-start : Mirrors p (handle_animation_start p frame millis, [])
  unfolding handle_animation_start
  Kept-start =
      let k = animation_start_of frame in
      record { flags = start-Flags a k.seq_id k.group_id (u16 millis); color = refl }

  Kept-control : Mirrors p (handle_animation_control p frame millis, [])
  unfolding handle_animation_control control
  Kept-control = record { flags = λ d. (d, refl); color = refl }

  Kept-params : Mirrors p (handle_animation_update_params p frame millis, [])
  unfolding handle_animation_update_params
  Kept-params =
      let k = animation_update_params_of frame in
      record {
        flags = update_params-Flags a k.seq_id k.group_id k.param_type k.value (u16 millis);
        color = refl;
      }

  Kept-palette : Mirrors p (handle_set_palette p frame, [])
  unfolding handle_set_palette
  Kept-palette =
      let k = set_palette_of frame in
      record { flags = set_palette-Flags a k.stops k.count; color = refl }

  Kept-colors : (cs : List ColorRgb) → Mirrors p (with_player p (set_base_colors a cs), [])
  unfolding set_base_colors
  Kept-colors cs = record { flags = λ d. (d, refl); color = refl }

  Kept-reset : (f : Fate) → Mirrors p (record p { fate = f }, [])
  Kept-reset f = record { flags = λ d. (d, refl); color = refl }

  Kept-bootloader : Mirrors p (handle_enter_bootloader p frame, [])
  unfolding handle_enter_bootloader
  Kept-bootloader = ground arith

  Kept-brightness : Mirrors p (
    with_rgb p (set_global_brightness p.rgb_controller (set_global_brightness_of frame).value),
    [],
  )
  Kept-brightness =
      Kept-rgb (set_global_brightness p.rgb_controller (set_global_brightness_of frame).value)
        (set_global_brightness-color p.rgb_controller (set_global_brightness_of frame).value)

  -- Every packet leaves the flag set if it changes the output, and the colour of the LED.
  handle_packet-Mirrors : Mirrors p (handle_packet p frame millis)
  unfolding handle_packet
  handle_packet-Mirrors =
      let type = (meta_of frame).header.type in
      let c = (set_background_of frame).color in
      if_both (Mirrors p) (type == packet_turn_on_off) Kept-turn (
        if_both (Mirrors p) (type == packet_set_color) (Kept-color (set_color_of frame).color) (
          if_both (Mirrors p) (type == packet_panel_configuration) Kept-configuration (
            if_both (Mirrors p) (type == packet_animation_prepare)
              (Kept-player (prepare a (animation_prepare_of frame))
                (prepare-Flags a (animation_prepare_of frame)))
              (if_both (Mirrors p) (type == packet_animation_start) Kept-start (
                if_both (Mirrors p) (type == packet_animation_control) Kept-control (
                  if_both (Mirrors p) (type == packet_animation_update_params) Kept-params (
                    if_both (Mirrors p) (type == packet_set_palette) Kept-palette (
                      if_both (Mirrors p) (type == packet_set_base_colors)
                        (Kept-colors (set_base_colors_of frame).colors)
                        (if_both (Mirrors p) (type == packet_set_global_brightness) Kept-brightness
                          (if_both (Mirrors p) (type == packet_set_background)
                            (Kept-player (set_background a c) (set_background-Flags a c))
                            (if_both (Mirrors p) (type == packet_reset_device)
                              (Kept-reset watchdog_reset)
                              (if_both (Mirrors p) (type == packet_enter_bootloader) Kept-bootloader
                                (if_both (Mirrors p) (type == packet_fetch_state)
                                  (Kept-same (handle_fetch_state p)) (Kept-same []))))))))))))))

dispatch-Mirrors :
    (p : LightnetPanel) (from : ℕ) (frame : List ℕ) (now millis : ℕ)
    → Mirrors p (dispatch p from frame now millis)
unfolding dispatch
dispatch-Mirrors p from frame now millis =
    let d = (PanelFrameDispatcher.on_frame_arrived p.driver from frame now).0 in
    let h =
      handle_packet-Mirrors (record p { driver = d; last_relay_activity_ms = now }) frame millis in
    if_both (Mirrors p) (PanelFrameDispatcher.on_frame_arrived p.driver from frame now).2
      (record { flags = h.flags; color = h.color })
      (record { flags = λ e. (e, refl); color = refl })

on_frame-Mirrors :
    (p : LightnetPanel) (from : ℕ) (frame : List ℕ) (now millis : ℕ)
    → Mirrors p (on_frame p from frame now millis)
unfolding on_frame
on_frame-Mirrors p from frame now millis =
    let noted = (check_and_note p.link_dedup from (crc16 frame) now).0 in
    let q = record p { link_dedup = noted; last_relay_activity_ms = now } in
    let h = dispatch-Mirrors q from frame now millis in
    let k = dispatch-Mirrors (record p { last_relay_activity_ms = now }) from frame now millis in
    let type = (meta_of frame).header.type in
    if_both (Mirrors p) (type == packet_link_ack) (record { flags = λ e. (e, refl); color = refl })
      (if_both (Mirrors p) (is_link_acked_type type)
        (if_both (Mirrors p) (check_and_note p.link_dedup from (crc16 frame) now).1
          (record { flags = λ e. (e, refl); color = refl })
          (record { flags = h.flags; color = h.color }))
        (record { flags = k.flags; color = k.color }))

-- What happens to a panel: a frame that its receiver has completed, or a tick of its player.
pub data Event : Type 0 where
  arrived : ℕ → List ℕ → ℕ → ℕ → Event
  ticked : ℕ → Event

abbrev pub apply : LightnetPanel → Event → LightnetPanel
apply p (arrived from f now millis) = (on_frame p from f now millis).0
apply p (ticked now) = tick_player p now

abbrev pub run : LightnetPanel → List Event → LightnetPanel
run p [] = p
run p (e ∷ es) = run (apply p e) es

tick_player-shown :
    (p : LightnetPanel) (now : ℕ)
    → IsMirrored p
    → (tick_player p now).rgb_controller.color_value ≡ (tick_player p now).anim_player.last_output
unfolding tick_player take_dirty set_color
tick_player-shown p now h =
    let t = tick p.anim_player (u16 now) in
    elim (Bool-cases t.output_dirty) [
      | inl dirty ↦
          rw (dirty, tick_player)
            (update_outputs-color (record p.rgb_controller { color_value = t.last_output }))
      | inr clean ↦
          let (before, same) = tick-Flags p.anim_player (u16 now) clean in
          rw (clean, tick_player) (h.mirrored before ∙ sym same)
    ]

apply-IsMirrored : (p : LightnetPanel) (e : Event) → IsMirrored p → IsMirrored (apply p e)
apply-IsMirrored p (arrived from f now millis) h =
    let k = on_frame-Mirrors p from f now millis in
    record { mirrored = λ d. k.color ∙ h.mirrored (k.flags d).0 ∙ sym (k.flags d).1 }
apply-IsMirrored p (ticked now) h = record { mirrored = λ d. tick_player-shown p now h }

run-IsMirrored : (es : List Event) (p : LightnetPanel) → IsMirrored p → IsMirrored (run p es)
run-IsMirrored [] p h = h
run-IsMirrored (e ∷ es) p h = run-IsMirrored es (apply p e) (apply-IsMirrored p e h)

-- Let the LED of a panel have the player's colour, or the player a colour that is yet to be taken. Then
-- after any frames and ticks, each further tick of the player leaves the LED controller with exactly the
-- colour that the player has come to.
pub tick_shows_output :
    (p : LightnetPanel) (es : List Event) (now : ℕ)
    → IsMirrored p
    → let q = tick_player (run p es) now in q.rgb_controller.color_value ≡ q.anim_player.last_output
tick_shows_output p es now h = tick_player-shown (run p es) now (run-IsMirrored es p h)
