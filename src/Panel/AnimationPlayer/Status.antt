-- ===== src/Panel/AnimationPlayer/Status.antt =====
-- AnimationPlayer: isAnimating, getAnimType, getGroupId and fillStatus.
use lightnet_firmware.Common.{
  ℕ, ◌+◌, ◌-◌, Bool, true, false, ◌&&◌, ◌||◌, not, List, [], ◌∷◌, Option, none, some, ltb, ◌==◌,
  if◌then◌else◌, u8,
}
use lightnet_firmware.Panel.PlayerState.{AnimationPlayer, Slot}
use lightnet_firmware.Panel.AnimationPlayer.{slot_elapsed}

-- `(flags & OCCUPIED) && (flags & STARTED)`.
abbrev pub plays : Slot → Bool
plays s = s.occupied && s.started

unfoldable pub is_animating : List Slot → Bool
is_animating [] = false
is_animating (s ∷ ss) =
    if plays s && (not (s.cur.anim_type == 0) || ltb 0 s.reactive_level)
    then true
    else is_animating ss

-- `(int16_t)s.cur.composeOrder > bestOrder`, where a missing best has the order -1.
abbrev pub above : Slot → Option Slot → Bool
above s none = true
above s (some best) = ltb best.cur.compose_order s.cur.compose_order

-- The loop of `fillStatus`, `getAnimType` and `getGroupId`: the slot with the greatest order so far.
unfoldable pub top_slot : List Slot → Option Slot → Option Slot
top_slot [] best = best
top_slot (s ∷ ss) best = top_slot ss (if plays s && above s best then some s else best)

unfoldable pub count_playing : List Slot → ℕ → ℕ
count_playing [] n = n
count_playing (s ∷ ss) n = count_playing ss (if plays s then u8 (n + 1) else n)

unfoldable pub get_anim_type : AnimationPlayer → ℕ
unfolding top_slot
get_anim_type p = elim (top_slot p.slots none) [ none ↦ 0 | some s ↦ s.cur.anim_type ]

unfoldable pub get_group_id : AnimationPlayer → ℕ
unfolding top_slot
get_group_id p = elim (top_slot p.slots none) [ none ↦ 0 | some s ↦ s.group_id ]

-- The fields of PacketAnimationStatus that are filled in.
pub record AnimationStatus : Type 0 where
  pub anim_type : ℕ
  pub group_id : ℕ
  pub elapsed_ms : ℕ
  pub duration_ms : ℕ
  pub queue_len : ℕ

unfoldable pub fill_status : AnimationPlayer → ℕ → AnimationPlayer × AnimationStatus
unfolding top_slot count_playing
fill_status p now =
    let playing = count_playing p.slots 0 in
    (
      record p { now_ms = now },
      elim (top_slot p.slots none) [
        | none ↦ record {
          anim_type = 0;
          group_id = 0;
          elapsed_ms = 0;
          duration_ms = 0;
          queue_len = 0;
        }
        | some s ↦ record {
          anim_type = s.cur.anim_type;
          group_id = s.group_id;
          elapsed_ms = slot_elapsed now s;
          duration_ms = s.cur.duration_ms;
          queue_len = (if ltb 0 playing then u8 (playing - 1) else 0);
        }
      ],
    )
