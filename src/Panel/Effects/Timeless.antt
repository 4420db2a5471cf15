-- ===== src/Panel/Effects/Timeless.antt =====
-- computeSlotOutput: where it reads the clock.
use lightnet_firmware.Common.{ℕ, ◌≡◌, ◌≢◌, refl, false, arith, ◌==◌}
use lightnet_firmware.Panel.PlayerState.{AnimationState, Slot, AnimationPlayer, anim_reactive}
use lightnet_firmware.Panel.Effects.{
  resolve_color_ref, apply_progress, tick_breathe, tick_pulse, tick_blink, tick_strobe,
  compute_slot_output,
}

module _ (p : AnimationPlayer) (t : ℕ) (a : AnimationState) (e : ℕ) where
  abbrev later : AnimationPlayer
  later = record p { now_ms = t }

  apply_progress-later : (n : ℕ) → apply_progress later a n ≡ apply_progress p a n
  unfolding apply_progress
  apply_progress-later n = refl

  tick_breathe-later : tick_breathe later a e ≡ tick_breathe p a e
  unfolding tick_breathe
  tick_breathe-later = refl

  tick_pulse-later : tick_pulse later a e ≡ tick_pulse p a e
  unfolding tick_pulse
  tick_pulse-later = refl

  tick_blink-later : tick_blink later a e ≡ tick_blink p a e
  unfolding tick_blink
  tick_blink-later = refl

  tick_strobe-later : tick_strobe later a e ≡ tick_strobe p a e
  unfolding tick_strobe
  tick_strobe-later = refl

  resolve_color_ref-later : resolve_color_ref later a.color_to ≡ resolve_color_ref p a.color_to
  unfolding resolve_color_ref
  resolve_color_ref-later = refl

pub compute_slot_output-later :
    (p : AnimationPlayer) (t : ℕ) (s : Slot) (e : ℕ)
    → s.cur.anim_type ≢ anim_reactive
    → compute_slot_output (record p { now_ms = t }) s e ≡ compute_slot_output p s e
unfolding compute_slot_output
compute_slot_output-later p t s e n =
    let r : (s.cur.anim_type == anim_reactive) ≡ false = ground arith in
    rw
      (
        apply_progress-later p t s.cur e,
        tick_breathe-later p t s.cur e,
        tick_pulse-later p t s.cur e,
        tick_blink-later p t s.cur e,
        tick_strobe-later p t s.cur e,
        resolve_color_ref-later p t s.cur e,
        r,
      )
      refl
