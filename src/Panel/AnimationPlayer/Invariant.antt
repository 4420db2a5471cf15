-- ===== src/Panel/AnimationPlayer/Invariant.antt =====
-- What every sequence of calls keeps of a player.
use lightnet_firmware.Common.{
  ℕ, ◌≤◌, ◌≡◌, inl, inr, refl, ◌∙◌, List, [], ◌∷◌, ◌++◌, map, arith, ◌==◌, if◌then◌else◌,
  Option-cases, Bool-cases, length, All, take, drop, length-take, length-drop, length-append,
}
use lightnet_firmware.Protocol.Color.{ColorRgb, GradientStop}
use lightnet_firmware.Protocol.Animation.{PacketAnimationPrepare}
use lightnet_firmware.Panel.ColorCompose.{fold_layers}
use lightnet_firmware.Panel.PlayerState.{
  Slot, AnimationPlayer, alloc_slot, clear_slot, free_slot, activate_pending,
}
use lightnet_firmware.Panel.AnimationPlayer.{
  composite_slot, composite_slots, composite, control, control_slot, update_params, trigger_slot,
  prepare, prepare_slot, prepared_state, start, set_output, set_background, set_palette,
  set_base_colors, set_color_direct, tick, take_dirty, addressed, new,
}
use lightnet_firmware.Panel.AnimationPlayer.Groups.{AreDistinct, composite_slots-slots}
use lightnet_firmware.Panel.AnimationPlayer.Events.{Event, HasArrays, apply, run}
use lightnet_firmware.Panel.AnimationPlayer.Soundness.{
  IsCoherent, AreSound, length-map, AreSound-map, AreSound-update_slot, AreSound-alloc_slot, Drops,
  composite_slot-Drops, control_slot-Drops, trigger_slot-Drops,
}

-- What holds of a player at any time: twelve slots, no two of them for one group, whose flags fit
-- together, and arrays of their lengths with at least one stop.
pub record Inv (p : AnimationPlayer) : Type 0 where
  pub slots : AreSound p.slots
  pub palette : length p.palette ≡ 16
  pub count_pos : 1 ≤ p.palette_count
  pub count_le : p.palette_count ≤ 16
  pub colors : length p.base_colors ≡ 3

AreSound-Drops :
    (f : Slot → Slot) (ss : List Slot)
    → ((s : Slot) → Drops s (f s))
    → AreSound ss
    → AreSound (map f ss)
AreSound-Drops f ss d h = AreSound-map f ss (λ s. (d s).1) (λ s. (d s).0) h

prepare-Inv : (p : AnimationPlayer) (pkt : PacketAnimationPrepare) → Inv p → Inv (prepare p pkt)
unfolding prepare
prepare-Inv p pkt h = elim (Option-cases (alloc_slot p.slots pkt.group_id)) [
  | inl full ↦ rw (full, prepare) h
  | inr (ts, e) ↦
      rw (e, prepare)
        (record {
          slots =
              AreSound-update_slot (prepare_slot (prepared_state pkt)) ts pkt.group_id
                (λ s. (refl, refl)) (λ s o c. ground arith)
                (AreSound-alloc_slot p.slots ts pkt.group_id e h.slots);
          palette = h.palette;
          count_pos = h.count_pos;
          count_le = h.count_le;
          colors = h.colors;
        })
]

start-Inv : (p : AnimationPlayer) (seq group now : ℕ) → Inv p → Inv (start p seq group now)
unfolding start activate_pending
start-Inv p seq group now h =
    let activated =
      AreSound-update_slot (activate_pending p.last_output now) p.slots group (λ s. (refl, refl))
        (λ s o c. ground arith) h.slots in
    ground arith

control-Inv : (p : AnimationPlayer) (cmd group now : ℕ) → Inv p → Inv (control p cmd group now)
unfolding control
control-Inv p cmd group now h = record {
  slots =
      AreSound-Drops (λ s. if addressed group s then control_slot cmd now s else s) p.slots
        (λ s. ground (arith, control_slot-Drops cmd now s)) h.slots;
  palette = h.palette;
  count_pos = h.count_pos;
  count_le = h.count_le;
  colors = h.colors;
}

update_params-Inv :
    (p : AnimationPlayer) (seq group type value now : ℕ)
    → Inv p
    → Inv (update_params p seq group type value now)
unfolding update_params
update_params-Inv p seq group type value now h =
    let triggered =
      AreSound-Drops (λ s. if addressed group s then trigger_slot value now s else s) p.slots
        (λ s. ground (arith, trigger_slot-Drops value now s)) h.slots in
    ground arith

set_output-Inv : (p : AnimationPlayer) (c : ColorRgb) → Inv p → Inv (set_output p c)
unfolding set_output
set_output-Inv p c h = ground arith

composite-Inv : (p : AnimationPlayer) → Inv p → Inv (composite p)
unfolding composite
composite-Inv p h =
    let ss = (composite_slots p p.slots).0 in
    let layers = (composite_slots p p.slots).1 in
    let sound : AreSound ss =
      rw (composite_slots-slots p p.slots)
        (AreSound-Drops (λ s. (composite_slot p s).0) p.slots (composite_slot-Drops p) h.slots) in
    let q = record p { slots = ss } in
    let kept : Inv q = record {
      slots = sound;
      palette = h.palette;
      count_pos = h.count_pos;
      count_le = h.count_le;
      colors = h.colors;
    } in
    elim (Bool-cases (length layers == 0)) [
      | inl idle ↦ rw (idle, composite) (set_output-Inv q p.background_color kept)
      | inr busy ↦
          rw (busy, composite) (set_output-Inv q (fold_layers layers p.background_color) kept)
    ]

tick-Inv : (p : AnimationPlayer) (now : ℕ) → Inv p → Inv (tick p now)
unfolding tick
tick-Inv p now h = ground (arith, composite-Inv (record p { now_ms = now; last_tick_ms = now }))

palette_size :
    (n : ℕ) (stops palette : List GradientStop)
    → n ≤ 16
    → length stops ≡ 16
    → length palette ≡ 16
    → length (take n stops ++ drop n palette) ≡ 16
palette_size n stops palette l a b = omega (
  arith,
  length-append (take n stops) (drop n palette),
  length-take n stops,
  length-drop n palette,
)

set_palette-Inv :
    (p : AnimationPlayer) (stops : List GradientStop) (count : ℕ)
    → length stops ≡ 16
    → Inv p
    → Inv (set_palette p stops count)
unfolding set_palette
set_palette-Inv p stops count l h =
    ground (arith, palette_size 16 stops p.palette, palette_size count stops p.palette)

apply-Inv : (p : AnimationPlayer) (e : Event) → HasArrays e → Inv p → Inv (apply p e)
unfolding set_color_direct set_base_colors set_background take_dirty
apply-Inv p (Event.prepare pkt) a h = prepare-Inv p pkt h
apply-Inv p (Event.start seq group now) a h = start-Inv p seq group now h
apply-Inv p (Event.control cmd group now) a h = control-Inv p cmd group now h
apply-Inv p (Event.update_params seq group type value now) a h =
    update_params-Inv p seq group type value now h
apply-Inv p (Event.set_color c) a h = ground arith
apply-Inv p (Event.set_palette stops count) a h = set_palette-Inv p stops count a h
apply-Inv p (Event.set_base_colors colors) a h = ground (arith, length-take 3 colors)
apply-Inv p (Event.set_background c) a h =
    ground (arith, set_output-Inv (record p { background_color = c }) c)
apply-Inv p (Event.tick now) a h = tick-Inv p now h
apply-Inv p Event.take_output a h = ground arith

run-Inv : (es : List Event) (p : AnimationPlayer) → All HasArrays es → Inv p → Inv (run p es)
run-Inv [] p a h = h
run-Inv (e ∷ es) p a h = run-Inv es (apply p e) a.1 (apply-Inv p e a.0 h)

cleared : (ss : List Slot) → AreDistinct (map clear_slot ss) × All IsCoherent (map clear_slot ss)
unfolding clear_slot free_slot
cleared [] = (tt, tt)
cleared (s ∷ ss) = ((λ o. absurd (cc), (cleared ss).0), (ground arith, (cleared ss).1))

new-Inv :
    (slots : List Slot) (palette : List GradientStop)
    → length slots ≡ 12
    → length palette ≡ 16
    → Inv (new slots palette)
unfolding new
new-Inv slots palette a b = record {
  slots = record {
    size = length-map clear_slot slots ∙ a;
    distinct = (cleared slots).0;
    coherent = (cleared slots).1;
  };
  palette = omega (arith, length-drop 2 palette);
  count_pos = omega arith;
  count_le = omega arith;
  colors = refl;
}

-- A new player has, after any calls whose arrays have their lengths, twelve slots, of which no two in use
-- serve one group, only those in use are started or have an animation pending, and only started ones
-- hold or are paused; and its palette has between 1 and 16 stops.
pub run-new-Inv :
    (slots : List Slot) (palette : List GradientStop) (es : List Event)
    → length slots ≡ 12
    → length palette ≡ 16
    → All HasArrays es
    → Inv (run (new slots palette) es)
run-new-Inv slots palette es a b arrays =
    run-Inv es (new slots palette) arrays (new-Inv slots palette a b)
