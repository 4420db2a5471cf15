-- ===== src/Panel/AnimationPlayer/Groups.antt =====
-- The groups that the slots of a player serve.
use mathlib.Core.Path.{subst}
use lightnet_firmware.Common.{
  ℕ, ◌≡◌, ◌≢◌, inl, inr, refl, ap, ◌∙◌, true, List, [], ◌∷◌, map, none, some, arith, Option-cases,
  Bool-cases,
}
use lightnet_firmware.Panel.PlayerState.{
  Slot, AnimationPlayer, find_slot, update_slot, claim_slot, alloc_slot, clear_slot, free_slot,
}
use lightnet_firmware.Panel.AnimationPlayer.{composite_slot, composite_slots}
use lightnet_firmware.Panel.AnimationPlayer.Starting.{KeepsGroup, find_slot-claim_slot}

-- An occupied slot is the only one of its group.
abbrev pub AreDistinct : List Slot → Type 0
AreDistinct [] = Unit
AreDistinct (s ∷ ss) = (s.occupied ≡ true → find_slot ss s.group_id ≡ none) × AreDistinct ss

-- A change that may free a slot but gives it no other group.
abbrev pub KeepsOrFrees : (Slot → Slot) → Type 0
KeepsOrFrees f =
    (s : Slot) → (f s).occupied ≡ true → (s.occupied ≡ true) × ((f s).group_id ≡ s.group_id)

find_slot-map-none :
    (f : Slot → Slot) (ss : List Slot) (group : ℕ)
    → KeepsOrFrees f
    → find_slot ss group ≡ none
    → find_slot (map f ss) group ≡ none
unfolding find_slot
find_slot-map-none f [] group k e = refl
find_slot-map-none f (s ∷ ss) group k e = ground (arith, k s, find_slot-map-none f ss group k)

pub AreDistinct-map :
    (f : Slot → Slot) (ss : List Slot) → KeepsOrFrees f → AreDistinct ss → AreDistinct (map f ss)
AreDistinct-map f [] k d = tt
AreDistinct-map f (s ∷ ss) k d = (
  λ o. let (o', same) = k s o in rw same (find_slot-map-none f ss s.group_id k (d.0 o')),
  AreDistinct-map f ss k d.1,
)

find_slot-update_slot-none :
    (f : Slot → Slot) (ss : List Slot) (group other : ℕ)
    → KeepsGroup f
    → find_slot ss other ≡ none
    → find_slot (update_slot f ss group) other ≡ none
unfolding find_slot update_slot
find_slot-update_slot-none f [] group other k e = refl
find_slot-update_slot-none f (s ∷ ss) group other k e =
    ground (arith, k s, find_slot-update_slot-none f ss group other k)

pub AreDistinct-update_slot :
    (f : Slot → Slot) (ss : List Slot) (group : ℕ)
    → KeepsGroup f
    → AreDistinct ss
    → AreDistinct (update_slot f ss group)
unfolding update_slot
AreDistinct-update_slot f [] group k d = tt
AreDistinct-update_slot f (s ∷ ss) group k d = ground (
  arith,
  k s,
  AreDistinct-update_slot f ss group k,
  find_slot-update_slot-none f ss group s.group_id k,
)

AreDistinct-claim_slot :
    (ss ts : List Slot) (group : ℕ)
    → find_slot ss group ≡ none
    → claim_slot ss group ≡ some ts
    → AreDistinct ss
    → AreDistinct ts
unfolding claim_slot find_slot clear_slot free_slot
AreDistinct-claim_slot [] ts group e c d = absurd (cc)
AreDistinct-claim_slot (s ∷ ss) ts group e c d = elim (Bool-cases s.occupied) [
  | inl used ↦ elim (Option-cases (claim_slot ss group)) [
    | inl full ↦ absurd (ground arith)
    | inr (us, e') ↦
        let made : s ∷ us ≡ ts = ground arith in
        let absent : find_slot ss group ≡ none = ground arith in
        let other : group ≢ s.group_id = ground arith in
        subst AreDistinct made (
          λ o. find_slot-claim_slot ss us group s.group_id absent e' other ∙ d.0 o,
          AreDistinct-claim_slot ss us group absent e' d.1,
        )
  ]
  | inr unused ↦
      let claimed = record (clear_slot s) { occupied = true; group_id = group } in
      let made : claimed ∷ ss ≡ ts = ground arith in
      let absent : find_slot ss group ≡ none = ground arith in
      subst AreDistinct made (λ o. absent, d.1)
]

pub AreDistinct-alloc_slot :
    (ss ts : List Slot) (group : ℕ)
    → alloc_slot ss group ≡ some ts
    → AreDistinct ss
    → AreDistinct ts
unfolding alloc_slot
AreDistinct-alloc_slot ss ts group e d = elim (Option-cases (find_slot ss group)) [
  | inl new ↦ AreDistinct-claim_slot ss ts group new (rw (new, alloc_slot) at e) d
  | inr (s, found) ↦ ground arith
]

pub composite_slots-slots :
    (p : AnimationPlayer) (ss : List Slot)
    → (composite_slots p ss).0 ≡ map (λ s. (composite_slot p s).0) ss
unfolding composite_slots
composite_slots-slots p [] = refl
composite_slots-slots p (s ∷ ss) = ap (◌∷◌ (composite_slot p s).0) (composite_slots-slots p ss)
