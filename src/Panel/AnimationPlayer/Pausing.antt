-- ===== src/Panel/AnimationPlayer/Pausing.antt =====
-- PAUSE, RESUME and STOP.
use mathlib.Core.Option
use lightnet_firmware.Common.{
  ℕ, ◌+◌, ◌-◌, ◌%◌, ◌<◌, ◌≡◌, ◌≢◌, refl, true, false, List, [], ◌∷◌, map, some, arith,
  if◌then◌else◌, u16,
}
use lightnet_firmware.Panel.PlayerState.{Slot, AnimationPlayer, anim_reactive, find_slot}
use lightnet_firmware.Panel.Effects.Timeless.{compute_slot_output-later}
use lightnet_firmware.Panel.AnimationPlayer.{
  control, control_slot, addressed, since, slot_elapsed, composite_slot, contribute,
}
use lightnet_firmware.Panel.AnimationPlayer.Starting.{KeepsGroup}

pub find_slot-map :
    (f : Slot → Slot) (ss : List Slot) (group : ℕ)
    → KeepsGroup f
    → find_slot (map f ss) group ≡ Option.map f (find_slot ss group)
unfolding find_slot
find_slot-map f [] group k = refl
find_slot-map f (s ∷ ss) group k = ground (arith, k s, find_slot-map f ss group k)

abbrev controlled : ℕ → ℕ → ℕ → Slot → Slot
controlled cmd group now s = if addressed group s then control_slot cmd now s else s

controlled-KeepsGroup : (cmd group now : ℕ) → cmd ≢ 1 → KeepsGroup (controlled cmd group now)
unfolding control_slot
controlled-KeepsGroup cmd group now n s = ground arith

find_slot-serves :
    (ss : List Slot) (group : ℕ) (s : Slot)
    → find_slot ss group ≡ some s
    → (s.occupied ≡ true) × (s.group_id ≡ group)
unfolding find_slot
find_slot-serves [] group s e = absurd (cc)
find_slot-serves (t ∷ ts) group s e = ground (arith, find_slot-serves ts group s)

find_slot-control :
    (p : AnimationPlayer) (cmd group now : ℕ) (s : Slot)
    → cmd ≢ 1
    → find_slot p.slots group ≡ some s
    → find_slot (control p cmd group now).slots group ≡ some (control_slot cmd now s)
unfolding control
find_slot-control p cmd group now s n e = ground (
  arith,
  find_slot-map (controlled cmd group now) p.slots group (controlled-KeepsGroup cmd group now n),
  find_slot-serves p.slots group s,
)

-- A running group that is paused at `t1` and resumed at `t2` goes on at `t2` as it would have at `t1`: the
-- time that it counts at any moment after `t2` is the one that it would have counted as long after
-- `t1`, whatever the counter's wraps in between.
pub resume_continues :
    (p : AnimationPlayer) (group t1 t2 d : ℕ) (s : Slot)
    → find_slot p.slots group ≡ some s
    → s.started ≡ true
    → s.paused ≡ false
    → s.cur.start_ms < 65536
    → t1 < 65536
    → t2 < 65536
    → (t : Slot) × (find_slot (control (control p 2 group t1) 3 group t2).slots group ≡ some t)
      × (slot_elapsed (u16 (t2 + d)) t ≡ slot_elapsed (u16 (t1 + d)) s)
unfolding control_slot
resume_continues p group t1 t2 d s e st np a b c =
    let q = control p 2 group t1 in
    (
      control_slot 3 t2 (control_slot 2 t1 s),
      find_slot-control q 3 group t2 (control_slot 2 t1 s) (omega arith)
          (find_slot-control p 2 group t1 s (omega arith) e),
      ground arith,
    )

pub contribute-later :
    (p : AnimationPlayer) (t : ℕ) (s : Slot) (e : ℕ)
    → s.cur.anim_type ≢ anim_reactive
    → contribute (record p { now_ms = t }) s e ≡ contribute p s e
unfolding contribute
contribute-later p t s e n = rw (compute_slot_output-later p t s e n) refl

-- Of a paused slot that is not reactive, every frame shows the same, at whatever time it is made.
pub paused_frozen :
    (p : AnimationPlayer) (s : Slot) (t : ℕ)
    → s.paused ≡ true
    → s.cur.anim_type ≢ anim_reactive
    → composite_slot (record p { now_ms = t }) s ≡ composite_slot p s
unfolding composite_slot
paused_frozen p s t h n =
    let a = s.cur in
    let offset = a.duration_ms - a.start_delay_ms % a.duration_ms in
    let e = since s.paused_elapsed_ms a.start_delay_ms in
    ground (
      arith,
      contribute-later p t s (u16 ((s.paused_elapsed_ms + offset) % a.duration_ms)) n,
      contribute-later p t s a.duration_ms n,
      contribute-later p t s e n,
    )
