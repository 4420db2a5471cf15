-- ===== src/Panel/AnimationPlayer/Soundness.antt =====
-- What the operations on slots keep.
use mathlib.Core.Path.{subst}
use lightnet_firmware.Common.{
  ℕ, suc, ◌+◌, ◌≡◌, inl, inr, refl, ap, ◌∙◌, true, List, [], ◌∷◌, map, some, arith, ◌==◌,
  if◌then◌else◌, Option-cases, Bool-cases, length, All, ◌-◌, ◌%◌, u16,
}
use lightnet_firmware.Panel.PlayerState.{
  Slot, anim_reactive, AnimationPlayer, find_slot, update_slot, claim_slot, alloc_slot, clear_slot,
  free_slot,
}
use lightnet_firmware.Panel.Effects.{compute_slot_output, decay}
use lightnet_firmware.Panel.AnimationPlayer.{
  composite_slot, contribute, control_slot, trigger_slot, slot_elapsed, since,
}
use lightnet_firmware.Panel.AnimationPlayer.Starting.{KeepsGroup}
use lightnet_firmware.Panel.AnimationPlayer.Groups.{
  AreDistinct, KeepsOrFrees, AreDistinct-map, AreDistinct-update_slot, AreDistinct-alloc_slot,
}

-- The bits of a slot's flags fit together.
pub record IsCoherent (s : Slot) : Type 0 where
  pub started_used : s.started ≡ true → s.occupied ≡ true
  pub pending_used : s.has_pending ≡ true → s.occupied ≡ true
  pub holding_started : s.holding ≡ true → s.started ≡ true
  pub paused_started : s.paused ≡ true → s.started ≡ true

pub record AreSound (ss : List Slot) : Type 0 where
  pub size : length ss ≡ 12
  pub distinct : AreDistinct ss
  pub coherent : All IsCoherent ss

abbrev KeepsCoherent : (Slot → Slot) → Type 0
KeepsCoherent f = (s : Slot) → IsCoherent s → IsCoherent (f s)

pub length-map : (f : Slot → Slot) (ss : List Slot) → length (map f ss) ≡ length ss
length-map f [] = refl
length-map f (s ∷ ss) = ap suc (length-map f ss)

All-map :
    (f : Slot → Slot) (ss : List Slot)
    → KeepsCoherent f
    → All IsCoherent ss
    → All IsCoherent (map f ss)
All-map f [] k a = tt
All-map f (s ∷ ss) k a = (k s a.0, All-map f ss k a.1)

pub AreSound-map :
    (f : Slot → Slot) (ss : List Slot)
    → KeepsOrFrees f
    → KeepsCoherent f
    → AreSound ss
    → AreSound (map f ss)
AreSound-map f ss k c h = record {
  size = length-map f ss ∙ h.size;
  distinct = AreDistinct-map f ss k h.distinct;
  coherent = All-map f ss c h.coherent;
}

length-update_slot :
    (f : Slot → Slot) (ss : List Slot) (group : ℕ) → length (update_slot f ss group) ≡ length ss
unfolding update_slot
length-update_slot f [] group = refl
length-update_slot f (s ∷ ss) group = ground (arith, length-update_slot f ss group)

-- A change of the group's slot needs to be sound only where the slot is in use.
All-update_slot :
    (f : Slot → Slot) (ss : List Slot) (group : ℕ)
    → ((s : Slot) → s.occupied ≡ true → IsCoherent s → IsCoherent (f s))
    → All IsCoherent ss
    → All IsCoherent (update_slot f ss group)
unfolding update_slot
All-update_slot f [] group k a = tt
All-update_slot f (s ∷ ss) group k a = ground (arith, k s, All-update_slot f ss group k)

pub AreSound-update_slot :
    (f : Slot → Slot) (ss : List Slot) (group : ℕ)
    → KeepsGroup f
    → ((s : Slot) → s.occupied ≡ true → IsCoherent s → IsCoherent (f s))
    → AreSound ss
    → AreSound (update_slot f ss group)
AreSound-update_slot f ss group k c h = record {
  size = length-update_slot f ss group ∙ h.size;
  distinct = AreDistinct-update_slot f ss group k h.distinct;
  coherent = All-update_slot f ss group c h.coherent;
}

claim_slot-keeps :
    (ss ts : List Slot) (group : ℕ)
    → claim_slot ss group ≡ some ts
    → All IsCoherent ss
    → (length ts ≡ length ss) × All IsCoherent ts
unfolding claim_slot clear_slot free_slot
claim_slot-keeps [] ts group e a = absurd (cc)
claim_slot-keeps (s ∷ ss) ts group e a = elim (Bool-cases s.occupied) [
  | inl used ↦ elim (Option-cases (claim_slot ss group)) [
    | inl full ↦ absurd (ground arith)
    | inr (us, e') ↦
        let made : s ∷ us ≡ ts = ground arith in
        let (size, coherent) = claim_slot-keeps ss us group e' a.1 in
        subst (λ l. (length l ≡ suc (length ss)) × All IsCoherent l) made
          (ap suc size, (a.0, coherent))
  ]
  | inr unused ↦
      let claimed = record (clear_slot s) { occupied = true; group_id = group } in
      let made : claimed ∷ ss ≡ ts = ground arith in
      let fresh : IsCoherent claimed = ground arith in
      subst (λ l. (length l ≡ suc (length ss)) × All IsCoherent l) made (refl, (fresh, a.1))
]

pub AreSound-alloc_slot :
    (ss ts : List Slot) (group : ℕ) → alloc_slot ss group ≡ some ts → AreSound ss → AreSound ts
unfolding alloc_slot
AreSound-alloc_slot ss ts group e h = elim (Option-cases (find_slot ss group)) [
  | inl absent ↦
      let (size, coherent) =
        claim_slot-keeps ss ts group (rw (absent, alloc_slot) at e) h.coherent in
      record {
        size = size ∙ h.size;
        distinct = AreDistinct-alloc_slot ss ts group e h.distinct;
        coherent = coherent;
      }
  | inr (s, found) ↦ let same : ss ≡ ts = ground arith in subst AreSound same h
]

-- A frame changes a slot only by the decay of a reactive level, or at its end.
contribute-slot :
    (p : AnimationPlayer) (s : Slot) (e : ℕ)
    → (contribute p s e).0 ≡ (if s.cur.anim_type == anim_reactive then decay p.now_ms s else s)
unfolding contribute compute_slot_output
contribute-slot p s e = ground arith

abbrev pub Drops : Slot → Slot → Type 0
Drops s t =
    (IsCoherent s → IsCoherent t)
    × (t.occupied ≡ true → (s.occupied ≡ true) × (t.group_id ≡ s.group_id))

contribute-Drops : (p : AnimationPlayer) (s : Slot) (e : ℕ) → Drops s (contribute p s e).0
unfolding decay
contribute-Drops p s e = rw (contribute-slot p s e) (ground arith)

pub composite_slot-Drops : (p : AnimationPlayer) (s : Slot) → Drops s (composite_slot p s).0
unfolding composite_slot free_slot
composite_slot-Drops p s =
    let a = s.cur in
    let elapsed = slot_elapsed p.now_ms s in
    let offset = a.duration_ms - a.start_delay_ms % a.duration_ms in
    let e = since elapsed a.start_delay_ms in
    let keep = λ (n : ℕ). contribute-Drops p s n in
    let hold = contribute-Drops p (record s { holding = true }) a.duration_ms in
    (
      λ c. ground (
        arith,
        (keep (u16 ((elapsed + offset) % a.duration_ms))).0,
        (keep e).0,
        (keep a.duration_ms).0,
        hold.0,
      ),
      λ o. ground (
        arith,
        (keep (u16 ((elapsed + offset) % a.duration_ms))).1,
        (keep e).1,
        (keep a.duration_ms).1,
        hold.1,
      ),
    )

pub control_slot-Drops : (cmd now : ℕ) (s : Slot) → Drops s (control_slot cmd now s)
unfolding control_slot clear_slot free_slot
control_slot-Drops cmd now s = ground arith

pub trigger_slot-Drops : (value now : ℕ) (s : Slot) → Drops s (trigger_slot value now s)
unfolding trigger_slot
trigger_slot-Drops value now s = ground arith
