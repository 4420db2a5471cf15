-- ===== src/Panel/Effects.antt =====
-- lib/Lightnet/Core/Panel/AnimationPlayer.cpp: the colour or value of one animation at one time. `int` is
-- taken to be wider than 16 bits.
pub mod Timeless
use lightnet_firmware.Common.{
  ℕ, ◌+◌, ◌-◌, ◌*◌, ◌/◌, ◌%◌, Bool, true, false, ◌||◌, List, ltb, leb, ◌==◌, if◌then◌else◌, u8, u16,
  get_or, take,
}
use lightnet_firmware.Protocol.Color.{ColorRgb, ColorRef, color_ref_scalar_value}
use lightnet_firmware.Protocol.Palette.{sample_palette}
use lightnet_firmware.Panel.ColorCompose.{rgb}
use lightnet_firmware.Panel.PlayerState.{AnimationState, Slot, AnimationPlayer, anim_reactive}

abbrev pub base_colors_count : ℕ
base_colors_count = 3

abbrev pub target_color : ℕ
target_color = 0

abbrev pub target_invert : ℕ
target_invert = 4

abbrev pub black : ColorRgb
black = rgb 0 0 0

-- `*outColor` and `*outValue`, which are zero before the call.
pub record Output : Type 0 where
  pub color : ColorRgb
  pub value : ℕ

abbrev pub nothing_written : Output
nothing_written = record { color = black; value = 0 }

abbrev pub color_written : ColorRgb → Output
color_written c = record { color = c; value = 0 }

abbrev pub value_written : ℕ → Output
value_written v = record { color = black; value = v }

unfoldable pub resolve_color_ref : AnimationPlayer → ColorRef → ColorRgb
resolve_color_ref p ref =
    let slot = if leb base_colors_count ref.raw0 then 0 else ref.raw0 in
    if ref.kind == 0
    then rgb ref.raw0 ref.raw1 ref.raw2
    else if ref.kind == 1
    then sample_palette (take p.palette_count p.palette) ref.raw0
    else if ref.kind == 2
    then get_or p.base_colors slot black
    else rgb 255 255 255

unfoldable pub lerp8 : ℕ → ℕ → ℕ → ℕ
lerp8 a b frac =
    if (a == b) || (frac == 0)
    then a
    else if frac == 255
    then b
    else if ltb a b
    then u8 (a + u8 ((b - a) * frac / 256))
    else u8 (a + 256 - u8 ((a - b) * frac / 256))

unfoldable pub rgb_lerp : ColorRgb → ColorRgb → ℕ → ColorRgb
unfolding lerp8
rgb_lerp a b frac = rgb (lerp8 a.r b.r frac) (lerp8 a.g b.g frac) (lerp8 a.b b.b frac)

unfoldable pub get_value_from : AnimationState → ℕ
unfolding color_ref_scalar_value
get_value_from a = if a.animates == target_invert then 0 else color_ref_scalar_value a.color_from

unfoldable pub get_value_to : AnimationState → ℕ
unfolding color_ref_scalar_value
get_value_to a = if a.animates == target_invert then 255 else color_ref_scalar_value a.color_to

unfoldable pub apply_progress : AnimationPlayer → AnimationState → ℕ → Output
unfolding resolve_color_ref rgb_lerp get_value_from get_value_to lerp8
apply_progress p a progress =
    if a.animates == target_color
    then color_written
        (rgb_lerp (resolve_color_ref p a.color_from) (resolve_color_ref p a.color_to) progress)
    else value_written (lerp8 (get_value_from a) (get_value_to a) progress)

-- `progress_q8` of `tickFade`.
unfoldable pub fade_progress : ℕ → ℕ → ℕ
fade_progress duration elapsed =
    let prog = elapsed * 256 / duration in
    if ltb 0 duration then (if ltb 255 prog then 255 else u8 prog) else 255

-- `phase_q8` of `tickBreathe`, where half the duration is not 0.
unfoldable pub breathe_phase : ℕ → ℕ → ℕ
breathe_phase duration elapsed =
    let t = elapsed % duration in
    let half = duration / 2 in
    if leb t half then u8 (t * 255 / half) else u8 ((duration - t) * 255 / half)

unfoldable pub ease : ℕ → ℕ
ease phase = let inv = u8 (255 - phase) in u8 (255 - u8 (inv * inv / 256))

unfoldable pub tick_breathe : AnimationPlayer → AnimationState → ℕ → Output
unfolding apply_progress breathe_phase ease
tick_breathe p a elapsed =
    if (a.duration_ms == 0) || (a.duration_ms / 2 == 0)
    then nothing_written
    else apply_progress p a (ease (breathe_phase a.duration_ms elapsed))

-- `rise_pct` and `fall_pct` of `tickPulse`, scaled to 255 together.
unfoldable pub pulse_pcts : ℕ → ℕ → ℕ × ℕ
pulse_pcts rise fall =
    let scaled = u8 (255 * rise / (rise + fall)) in
    if ltb 255 (rise + fall) then (scaled, u8 (255 - scaled)) else (rise, fall)

-- `progress_q8` of `tickPulse`, from the lengths of its parts.
unfoldable pub pulse_progress : ℕ → ℕ → ℕ → ℕ → ℕ
pulse_progress duration rise_ms hold_ms elapsed =
    let fall_elapsed = u16 (elapsed + 131072 - rise_ms - hold_ms) in
    let fall_duration = u16 (duration + 131072 - rise_ms - hold_ms) in
    if ltb elapsed rise_ms
    then u8 (elapsed * 256 / (rise_ms + 1))
    else if ltb elapsed (rise_ms + hold_ms)
    then 255
    else u8 (255 + 256 - u8 (fall_elapsed * 256 / (fall_duration + 1)))

unfoldable pub tick_pulse : AnimationPlayer → AnimationState → ℕ → Output
unfolding apply_progress pulse_pcts pulse_progress
tick_pulse p a elapsed =
    let (rise, fall) = pulse_pcts a.param1 a.param2 in
    let hold = u8 (255 + 512 - rise - fall) in
    apply_progress p a (
      pulse_progress a.duration_ms (u16 (a.duration_ms * rise / 256))
        (u16 (a.duration_ms * hold / 256)) elapsed)

unfoldable pub tick_blink : AnimationPlayer → AnimationState → ℕ → Output
unfolding apply_progress
tick_blink p a elapsed =
    let period = if a.param1 == 0 then 1 else a.param1 in
    apply_progress p a (if ltb (elapsed % (period * 2)) period then 255 else 0)

-- The `switch` of `tickHueCycle`.
unfoldable pub hue_segment : ℕ → ℕ → ColorRgb
hue_segment segment remainder =
    if segment == 0
    then rgb 255 remainder 0
    else if segment == 1
    then rgb (255 - remainder) 255 0
    else if segment == 2
    then rgb 0 255 remainder
    else if segment == 3
    then rgb 0 (255 - remainder) 255
    else if segment == 4
    then rgb remainder 0 255
    else if segment == 5
    then rgb 255 0 (255 - remainder)
    else black

unfoldable pub tick_hue_cycle : AnimationState → ℕ → Output
unfolding hue_segment
tick_hue_cycle a elapsed =
    let speed = if a.param1 == 0 then 1 else a.param1 in
    let hue_step = elapsed * speed / 10 % 1530 in
    color_written (hue_segment (hue_step / 255) (hue_step % 255))

unfoldable pub tick_strobe : AnimationPlayer → AnimationState → ℕ → Output
unfolding resolve_color_ref get_value_from get_value_to
tick_strobe p a elapsed =
    let hz = if a.param1 == 0 then 1 else a.param1 in
    let period = 1000 / hz in
    let on = ltb (elapsed % period) (period / 2) in
    if a.animates == target_color
    then color_written (if on then resolve_color_ref p a.color_to else black)
    else value_written (if on then get_value_to a else get_value_from a)

-- `tickReactive` up to `applyProgress`: the level after the decay.
unfoldable pub decay : ℕ → Slot → Slot
decay now s =
    let since = u16 (now + 65536 - s.reactive_trigger_ms) in
    let amount = s.cur.param1 * since / 1000 in
    if ltb 0 s.reactive_level
    then record s {
      reactive_level = (if leb s.reactive_level amount then 0 else u8 (s.reactive_level - amount));
    }
    else s

-- The slot after it, which changes in `tickReactive` alone, and the output.
unfoldable pub compute_slot_output : AnimationPlayer → Slot → ℕ → Slot × Output
compute_slot_output p s elapsed =
    let a = s.cur in
    let type = a.anim_type in
    if type == 0
    then (
      s,
      if a.animates == target_color
          then color_written (resolve_color_ref p a.color_to)
          else value_written (get_value_from a),
    )
    else if (type == 1) || (type == 2)
    then (s, apply_progress p a (fade_progress a.duration_ms elapsed))
    else if type == 3
    then (s, tick_breathe p a elapsed)
    else if type == 4
    then (s, tick_pulse p a elapsed)
    else if type == 5
    then (s, tick_blink p a elapsed)
    else if type == 6
    then (s, tick_hue_cycle a elapsed)
    else if type == 7
    then (s, tick_strobe p a elapsed)
    else if type == anim_reactive
    then (let t = decay p.now_ms s in (t, apply_progress p a t.reactive_level))
    else (s, nothing_written)
