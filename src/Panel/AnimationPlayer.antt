-- ===== src/Panel/AnimationPlayer.antt =====
-- lib/Lightnet/Core/Panel/AnimationPlayer.{hpp,cpp}: the layers that a panel runs, and the colour that it
-- shows. Memory that a constructor leaves alone is an argument of it.
pub mod Soundness
pub mod Invariant
pub mod Events
pub mod Groups
pub mod Finishing
pub mod Pausing
pub mod Status
pub mod Starting
use lightnet_firmware.Common.{
  ℕ, ◌+◌, ◌-◌, ◌%◌, Bool, true, false, not, ◌&&◌, ◌||◌, List, [], ◌∷◌, ◌++◌, map, Option, none,
  some, ltb, leb, ◌==◌, ◌!=◌, if◌then◌else◌, u8, u16, take, drop, length,
}
use lightnet_firmware.Protocol.Color.{ColorRgb, GradientStop}
use lightnet_firmware.Protocol.Animation.{PacketAnimationPrepare}
use lightnet_firmware.Panel.ColorCompose.{
  CompositeLayer, fold_layers, rgb, mo_dim, mo_desaturate, mo_hue, mo_invert, mo_brighten,
  mo_saturate,
}
use lightnet_firmware.Panel.PlayerState.{
  AnimationState, Slot, AnimationPlayer, anim_reactive, flag_loop, flag_reap_on_done, free_slot,
  clear_slot, find_slot, update_slot, alloc_slot, activate_pending,
}
use lightnet_firmware.Panel.Effects.{
  Output, compute_slot_output, black, base_colors_count, target_color, target_invert,
}

abbrev pub palette_stops : ℕ
palette_stops = 16

abbrev pub frame_gate_ms : ℕ
frame_gate_ms = 16

unfoldable pub new : List Slot → List GradientStop → AnimationPlayer
unfolding clear_slot
new slots palette = record {
  slots = map clear_slot slots;
  last_start_seq_id = 255;
  last_params_seq_id = 255;
  now_ms = 0;
  last_tick_ms = 0;
  output_dirty = false;
  last_output = black;
  background_color = black;
  palette =
      record { pos = 0; r = 255; g = 255; b = 255 }
      ∷ record { pos = 255; r = 255; g = 255; b = 255 }
      ∷ drop 2 palette;
  palette_count = 2;
  base_colors = rgb 255 255 255 ∷ black ∷ black ∷ [];
}

unfoldable pub take_dirty : AnimationPlayer → AnimationPlayer × Bool
take_dirty p = (record p { output_dirty = false }, p.output_dirty)

-- `stops` is the array of PALETTE_STOPS entries.
unfoldable pub set_palette : AnimationPlayer → List GradientStop → ℕ → AnimationPlayer
set_palette p stops count =
    let n = if ltb palette_stops count then palette_stops else count in
    if count == 0
    then p
    else record p { palette = take n stops ++ drop n p.palette; palette_count = n }

unfoldable pub set_base_colors : AnimationPlayer → List ColorRgb → AnimationPlayer
set_base_colors p colors = record p { base_colors = take base_colors_count colors }

unfoldable pub set_output : AnimationPlayer → ColorRgb → AnimationPlayer
set_output p c =
    if (c.r == p.last_output.r) && (c.g == p.last_output.g) && (c.b == p.last_output.b)
    then p
    else record p { last_output = c; output_dirty = true }

-- The loop of `setBackground`.
unfoldable pub any_occupied : List Slot → Bool
any_occupied [] = false
any_occupied (s ∷ ss) = s.occupied || any_occupied ss

unfoldable pub set_background : AnimationPlayer → ColorRgb → AnimationPlayer
unfolding any_occupied set_output
set_background p c =
    let q = record p { background_color = c } in if any_occupied p.slots then q else set_output q c

unfoldable pub set_color_direct : AnimationPlayer → ColorRgb → AnimationPlayer
set_color_direct p c = record p { last_output = c; background_color = c; output_dirty = true }

-- The fields that `prepare` copies.
unfoldable pub prepared_state : PacketAnimationPrepare → AnimationState
prepared_state pkt = record {
  anim_type = pkt.anim_type;
  group_id = pkt.group_id;
  flags = pkt.flags;
  transition_ms = pkt.transition_ms;
  duration_ms = pkt.duration_ms;
  start_ms = 0;
  color_from = pkt.color_from;
  color_to = pkt.color_to;
  param1 = pkt.param1;
  param2 = pkt.param2;
  compose_mode = pkt.compose_mode;
  compose_order = pkt.compose_order;
  start_delay_ms = pkt.start_delay_ms;
  animates = pkt.animates;
}

abbrev pub prepare_slot : AnimationState → Slot → Slot
prepare_slot a s = record s { pending = a; has_pending = true }

unfoldable pub prepare : AnimationPlayer → PacketAnimationPrepare → AnimationPlayer
unfolding alloc_slot prepared_state update_slot
prepare p pkt = elim (alloc_slot p.slots pkt.group_id) [
  | none ↦ p
  | some ss ↦ record p { slots = update_slot (prepare_slot (prepared_state pkt)) ss pkt.group_id }
]

-- `!s || !(s->flags & HAS_PENDING)`, negated.
abbrev pub awaits_start : Option Slot → Bool
awaits_start none = false
awaits_start (some s) = s.has_pending

unfoldable pub start : AnimationPlayer → ℕ → ℕ → ℕ → AnimationPlayer
unfolding find_slot update_slot activate_pending
start p seq_id group_id now =
    let q = record p { now_ms = now; last_start_seq_id = seq_id } in
    if seq_id == p.last_start_seq_id
    then record p { now_ms = now }
    else if awaits_start (find_slot p.slots group_id)
    then record q { slots = update_slot (activate_pending p.last_output now) p.slots group_id }
    else q

-- `(uint16_t)(now - start)`
abbrev pub since : ℕ → ℕ → ℕ
since now start = u16 (now + 65536 - start)

-- The `switch` of `control` on one slot of those that it is for.
unfoldable pub control_slot : ℕ → ℕ → Slot → Slot
unfolding clear_slot
control_slot cmd now s =
    if cmd == 1
    then clear_slot s
    else if cmd == 2
    then (if s.started && not s.paused
        then record s { paused = true; paused_elapsed_ms = since now s.cur.start_ms }
        else s)
    else if cmd == 3
    then (let cur = record s.cur { start_ms = since now s.paused_elapsed_ms } in
        if s.paused then record s { paused = false; cur = cur } else s)
    else if cmd == 4
    then record s { has_pending = false }
    else s

-- Not `continue`: the slot is in use, and the group is 0 or its own.
abbrev pub addressed : ℕ → Slot → Bool
addressed group_id s = s.occupied && ((group_id == 0) || (s.group_id == group_id))

unfoldable pub control : AnimationPlayer → ℕ → ℕ → ℕ → AnimationPlayer
unfolding control_slot
control p cmd group_id now = record p {
  slots = map (λ s. if addressed group_id s then control_slot cmd now s else s) p.slots;
  now_ms = now;
}

unfoldable pub trigger_slot : ℕ → ℕ → Slot → Slot
trigger_slot value now s =
    if s.started && (s.cur.anim_type == anim_reactive)
    then record s { reactive_level = value; reactive_trigger_ms = now }
    else s

unfoldable pub update_params : AnimationPlayer → ℕ → ℕ → ℕ → ℕ → ℕ → AnimationPlayer
unfolding trigger_slot
update_params p seq_id group_id param_type value now =
    let q = record p { now_ms = now; last_params_seq_id = seq_id } in
    if seq_id == p.last_params_seq_id
    then record p { now_ms = now }
    else if param_type != 1
    then q
    else record q {
      slots = map (λ s. if addressed group_id s then trigger_slot value now s else s) p.slots;
    }

-- `c.op` of a modifier.
unfoldable pub modifier_op : ℕ → ℕ
modifier_op animates =
    if animates == 2
    then mo_desaturate
    else if animates == 3
    then mo_hue
    else if animates == target_invert
    then mo_invert
    else if animates == 5
    then mo_brighten
    else if animates == 6
    then mo_saturate
    else mo_dim

-- `contrib[n]`, whose members that its kind does not use are zero here.
unfoldable pub layer_of : AnimationState → Output → CompositeLayer
unfolding modifier_op
layer_of a out =
    if a.animates != target_color
    then record {
      compose_order = a.compose_order;
      is_modifier = true;
      op = modifier_op a.animates;
      value = out.value;
      color = black;
    }
    else record {
      compose_order = a.compose_order;
      is_modifier = false;
      op = a.compose_mode;
      value = 0;
      color = out.color;
    }

-- What is left of the body of the loop of `composite`, from `contrib[n]` on.
unfoldable pub contribute : AnimationPlayer → Slot → ℕ → Slot × Option CompositeLayer
unfolding layer_of
contribute p s elapsed =
    let (t, out) = compute_slot_output p s elapsed in (t, some (layer_of s.cur out))

-- `elapsed`.
abbrev pub slot_elapsed : ℕ → Slot → ℕ
slot_elapsed now s = if s.paused then s.paused_elapsed_ms else since now s.cur.start_ms

-- Whether a slot without a loop has come to its end at `elapsed` since its onset.
abbrev pub finishes : Slot → ℕ → Bool
finishes s elapsed =
    not s.paused
    && not s.holding
    && ltb 0 s.cur.duration_ms
    && leb s.cur.duration_ms elapsed
    && (s.cur.anim_type != anim_reactive)

-- The body of the loop of `composite`.
unfoldable pub composite_slot : AnimationPlayer → Slot → Slot × Option CompositeLayer
unfolding free_slot
composite_slot p s =
    let a = s.cur in
    let elapsed = slot_elapsed p.now_ms s in
    let offset = a.duration_ms - a.start_delay_ms % a.duration_ms in
    let e = since elapsed a.start_delay_ms in
    if not (s.occupied && s.started)
    then (s, none)
    else if flag_loop a.flags && ltb 0 a.duration_ms
    then contribute p s (u16 ((elapsed + offset) % a.duration_ms))
    else if not s.holding && ltb elapsed a.start_delay_ms
    then (s, none)
    else if finishes s e
    then (if flag_reap_on_done a.flags
        then (free_slot s, none)
        else contribute p (record s { holding = true }) a.duration_ms)
    else contribute p s (if s.holding && ltb 0 a.duration_ms then a.duration_ms else e)

-- The loop of `composite`.
unfoldable pub composite_slots : AnimationPlayer → List Slot → List Slot × List CompositeLayer
composite_slots p [] = ([], [])
composite_slots p (s ∷ ss) =
    let r = composite_slot p s in
    let rest = composite_slots p ss in
    (r.0 ∷ rest.0, elim (r.1) [ none ↦ rest.1 | some l ↦ l ∷ rest.1 ])

unfoldable pub composite : AnimationPlayer → AnimationPlayer
unfolding set_output
composite p =
    let (ss, layers) = composite_slots p p.slots in
    let q = record p { slots = ss } in
    if length layers == 0
    then set_output q p.background_color
    else set_output q (fold_layers layers p.background_color)

unfoldable pub tick : AnimationPlayer → ℕ → AnimationPlayer
tick p now =
    if ltb (since now p.last_tick_ms) frame_gate_ms
    then record p { now_ms = now }
    else composite (record p { now_ms = now; last_tick_ms = now })
