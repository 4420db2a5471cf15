-- ===== src/Panel/PlayerState.antt =====
-- lib/Lightnet/Core/Panel/AnimationPlayer.{hpp,cpp}: the state of the player, and its slots. The slots are an
-- array of MAX_ANIM_SLOTS. A pointer to a slot is only ever the one of a group: `find_slot` reads through
-- it and `update_slot` writes.
use mathlib.Core.Option
use lightnet_firmware.Common.{
  ℕ, Bool, true, false, ◌&&◌, ◌%◌, ◌/◌, List, [], ◌∷◌, Option, none, some, ◌==◌, if◌then◌else◌,
}
use lightnet_firmware.Protocol.Color.{ColorRgb, ColorRef, GradientStop, color_ref_rgb}

abbrev pub max_anim_slots : ℕ
max_anim_slots = 12

abbrev pub anim_reactive : ℕ
anim_reactive = 8

-- The bits of AnimationFlags.
abbrev pub flag_loop : ℕ → Bool
flag_loop flags = flags % 2 == 1

abbrev pub flag_current_color_from : ℕ → Bool
flag_current_color_from flags = flags / 8 % 2 == 1

abbrev pub flag_current_color_to : ℕ → Bool
flag_current_color_to flags = flags / 16 % 2 == 1

abbrev pub flag_reap_on_done : ℕ → Bool
flag_reap_on_done flags = flags / 128 % 2 == 1

pub record AnimationState : Type 0 where
  pub anim_type : ℕ
  pub group_id : ℕ
  pub flags : ℕ
  pub transition_ms : ℕ
  pub duration_ms : ℕ
  pub start_ms : ℕ
  pub color_from : ColorRef
  pub color_to : ColorRef
  pub param1 : ℕ
  pub param2 : ℕ
  pub compose_mode : ℕ
  pub compose_order : ℕ
  pub start_delay_ms : ℕ
  pub animates : ℕ

-- The first five fields are the bits of `flags`.
pub record Slot : Type 0 where
  pub occupied : Bool
  pub started : Bool
  pub holding : Bool
  pub paused : Bool
  pub has_pending : Bool
  pub paused_elapsed_ms : ℕ
  pub group_id : ℕ
  pub cur : AnimationState
  pub pending : AnimationState
  pub reactive_level : ℕ
  pub reactive_trigger_ms : ℕ

pub record AnimationPlayer : Type 0 where
  pub slots : List Slot
  pub last_start_seq_id : ℕ
  pub last_params_seq_id : ℕ
  pub now_ms : ℕ
  pub last_tick_ms : ℕ
  pub output_dirty : Bool
  pub last_output : ColorRgb
  pub background_color : ColorRgb
  pub palette : List GradientStop
  pub palette_count : ℕ
  pub base_colors : List ColorRgb

-- `flags = 0`.
unfoldable pub free_slot : Slot → Slot
free_slot s = record s {
  occupied = false;
  started = false;
  holding = false;
  paused = false;
  has_pending = false;
}

unfoldable pub clear_slot : Slot → Slot
unfolding free_slot
clear_slot s = record (free_slot s) {
  paused_elapsed_ms = 0;
  group_id = 0;
  reactive_level = 0;
  reactive_trigger_ms = 0;
}

abbrev pub serves : ℕ → Slot → Bool
serves group s = s.occupied && (s.group_id == group)

unfoldable pub find_slot : List Slot → ℕ → Option Slot
find_slot [] group = none
find_slot (s ∷ ss) group = if serves group s then some s else find_slot ss group

-- A write through the pointer that `findSlot` returns.
unfoldable pub update_slot : (Slot → Slot) → List Slot → ℕ → List Slot
update_slot f [] group = []
update_slot f (s ∷ ss) group = if serves group s then f s ∷ ss else s ∷ update_slot f ss group

-- The loop of `allocSlot`: the first free slot is claimed for the group.
unfoldable pub claim_slot : List Slot → ℕ → Option (List Slot)
unfolding clear_slot
claim_slot [] group = none
claim_slot (s ∷ ss) group =
    if s.occupied
    then Option.map (◌∷◌ s) (claim_slot ss group)
    else some (record (clear_slot s) { occupied = true; group_id = group } ∷ ss)

-- The slots in which the group has one, or none where there is no room.
unfoldable pub alloc_slot : List Slot → ℕ → Option (List Slot)
unfolding find_slot claim_slot
alloc_slot ss group = elim (find_slot ss group) [ some s ↦ some ss | none ↦ claim_slot ss group ]

-- The colours that FLAG_CURRENT_COLOR_FROM and _TO substitute.
unfoldable pub started_state : AnimationState → ColorRgb → ℕ → AnimationState
started_state a output now =
    let c = color_ref_rgb output.r output.g output.b in
    record a {
      start_ms = now;
      color_from = (if flag_current_color_from a.flags then c else a.color_from);
      color_to = (if flag_current_color_to a.flags then c else a.color_to);
    }

unfoldable pub activate_pending : ColorRgb → ℕ → Slot → Slot
unfolding started_state
activate_pending output now s =
    let reactive = s.pending.anim_type == anim_reactive in
    record s {
      started = true;
      holding = false;
      paused = false;
      has_pending = false;
      paused_elapsed_ms = 0;
      cur = started_state s.pending output now;
      reactive_level = (if reactive then 0 else s.reactive_level);
      reactive_trigger_ms = (if reactive then now else s.reactive_trigger_ms);
    }
