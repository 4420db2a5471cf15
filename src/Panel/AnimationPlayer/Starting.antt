-- ===== src/Panel/AnimationPlayer/Starting.antt =====
-- PREPARE and START: what a group plays after them.
use mathlib.Core.Option
use lightnet_firmware.Common.{
  ℕ, ◌/◌, ◌%◌, ◌≡◌, ◌≢◌, ◌⊎◌, inl, inr, refl, true, false, List, [], ◌∷◌, none, some, arith, ◌==◌,
  if◌then◌else◌, Option-cases, Bool-cases,
}
use lightnet_firmware.Protocol.Color.{ColorRgb, ColorRef, color_ref_rgb}
use lightnet_firmware.Protocol.Animation.{PacketAnimationPrepare}
use lightnet_firmware.Panel.PlayerState.{
  AnimationState, Slot, AnimationPlayer, free_slot, clear_slot, find_slot, update_slot, claim_slot,
  alloc_slot, activate_pending, started_state,
}
use lightnet_firmware.Panel.AnimationPlayer.{prepare, start, prepared_state, prepare_slot}

-- A change of a slot that leaves it with its group.
abbrev pub KeepsGroup : (Slot → Slot) → Type 0
KeepsGroup f = (s : Slot) → ((f s).occupied ≡ s.occupied) × ((f s).group_id ≡ s.group_id)

pub find_slot-update_slot :
    (f : Slot → Slot) (ss : List Slot) (group other : ℕ)
    → KeepsGroup f
    → find_slot (update_slot f ss group) other
      ≡ (if group == other then Option.map f (find_slot ss group) else find_slot ss other)
unfolding find_slot update_slot
find_slot-update_slot f [] group other k = ground arith
find_slot-update_slot f (s ∷ ss) group other k =
    ground (arith, k s, find_slot-update_slot f ss group other)

-- A claimed slot is the group's, started afresh, and no other group's changes.
pub find_slot-claim_slot :
    (ss ts : List Slot) (group other : ℕ)
    → find_slot ss group ≡ none
    → claim_slot ss group ≡ some ts
    → group ≢ other
    → find_slot ts other ≡ find_slot ss other
unfolding find_slot claim_slot clear_slot free_slot
find_slot-claim_slot [] ts group other h e n = cc
find_slot-claim_slot (s ∷ ss) ts group other h e n = elim (Option-cases (claim_slot ss group)) [
  | inl full ↦ ground arith
  | inr (us, e') ↦ ground (arith, find_slot-claim_slot ss us group other)
]

find_slot-claim_slot_self :
    (ss ts : List Slot) (group : ℕ)
    → find_slot ss group ≡ none
    → claim_slot ss group ≡ some ts
    → (s : Slot) × (find_slot ts group ≡ some s)
unfolding find_slot claim_slot clear_slot free_slot
find_slot-claim_slot_self [] ts group h e = absurd (cc)
find_slot-claim_slot_self (s ∷ ss) ts group h e = elim (Option-cases (claim_slot ss group)) [
  | inl full ↦ elim (Bool-cases s.occupied) [
    | inl used ↦ absurd (ground arith)
    | inr unused ↦ (record (clear_slot s) { occupied = true; group_id = group }, ground arith)
  ]
  | inr (us, e') ↦ elim (Bool-cases s.occupied) [
    | inl used ↦
        let (t, found) = find_slot-claim_slot_self ss us group (ground arith) e' in
        (t, ground arith)
    | inr unused ↦ (record (clear_slot s) { occupied = true; group_id = group }, ground arith)
  ]
]

find_slot-alloc_slot_self :
    (ss ts : List Slot) (group : ℕ)
    → alloc_slot ss group ≡ some ts
    → (s : Slot) × (find_slot ts group ≡ some s)
unfolding alloc_slot
find_slot-alloc_slot_self ss ts group e = elim (Option-cases (find_slot ss group)) [
  | inl new ↦ find_slot-claim_slot_self ss ts group new (rw (new, alloc_slot) at e)
  | inr (s, found) ↦ (s, ground arith)
]

find_slot-alloc_slot :
    (ss ts : List Slot) (group other : ℕ)
    → alloc_slot ss group ≡ some ts
    → group ≢ other
    → find_slot ts other ≡ find_slot ss other
unfolding alloc_slot
find_slot-alloc_slot ss ts group other e n = elim (Option-cases (find_slot ss group)) [
  | inl new ↦ find_slot-claim_slot ss ts group other new (rw (new, alloc_slot) at e) n
  | inr (s, found) ↦ ground arith
]

-- The colour `c` as a reference: its kind is COLORREF_RGB.
abbrev pub as_ref : ColorRgb → ColorRef
as_ref c = record { kind = 0; raw0 = c.r; raw1 = c.g; raw2 = c.b }

-- A slot that plays the animation `a` since `now`, with nothing pending. Bit 3 of the flags,
-- FLAG_CURRENT_COLOR_FROM, asks for the colour `c` in place of the one to start from, and bit 4,
-- FLAG_CURRENT_COLOR_TO, in place of the one to go to. A REACTIVE animation starts from level 0.
pub record Plays (s : Slot) (a : AnimationState) (c : ColorRgb) (now : ℕ) : Type 0 where
  pub started : s.started ≡ true
  pub running : s.holding ≡ false
  pub unpaused : s.paused ≡ false
  pub settled : s.has_pending ≡ false
  pub begun : s.cur.start_ms ≡ now
  pub anim_type : s.cur.anim_type ≡ a.anim_type
  pub group_id : s.cur.group_id ≡ a.group_id
  pub flags : s.cur.flags ≡ a.flags
  pub transition : s.cur.transition_ms ≡ a.transition_ms
  pub duration : s.cur.duration_ms ≡ a.duration_ms
  pub from : s.cur.color_from ≡ (if a.flags / 8 % 2 == 1 then as_ref c else a.color_from)
  pub to : s.cur.color_to ≡ (if a.flags / 16 % 2 == 1 then as_ref c else a.color_to)
  pub first_param : s.cur.param1 ≡ a.param1
  pub second_param : s.cur.param2 ≡ a.param2
  pub mode : s.cur.compose_mode ≡ a.compose_mode
  pub order : s.cur.compose_order ≡ a.compose_order
  pub delay : s.cur.start_delay_ms ≡ a.start_delay_ms
  pub animates : s.cur.animates ≡ a.animates
  pub level : (a.anim_type ≢ 8) ⊎ ((s.reactive_level ≡ 0) × (s.reactive_trigger_ms ≡ now))

-- The animation that a PREPARE describes, member by member.
abbrev pub described : PacketAnimationPrepare → AnimationState
described pkt = record {
  anim_type = pkt.anim_type;
  group_id = pkt.group_id;
  flags = pkt.flags;
  transition_ms = pkt.transition_ms;
  duration_ms = pkt.duration_ms;
  start_ms = 0;
  color_from = pkt.color_from;
  color_to = pkt.color_to;
  param1 = pkt.param1;
  param2 = pkt.param2;
  compose_mode = pkt.compose_mode;
  compose_order = pkt.compose_order;
  start_delay_ms = pkt.start_delay_ms;
  animates = pkt.animates;
}

prepare_slot-KeepsGroup : (a : AnimationState) → KeepsGroup (prepare_slot a)
prepare_slot-KeepsGroup a s = (refl, refl)

activate_pending-KeepsGroup :
    (p : AnimationPlayer) (now : ℕ) → KeepsGroup (activate_pending p.last_output now)
unfolding activate_pending
activate_pending-KeepsGroup p now s = (refl, refl)

abbrev prepared : AnimationPlayer → PacketAnimationPrepare → List Slot → AnimationPlayer
prepared p pkt ts = record p {
  slots = update_slot (prepare_slot (prepared_state pkt)) ts pkt.group_id;
}

prepare_lem :
    (p : AnimationPlayer) (pkt : PacketAnimationPrepare) (ts : List Slot)
    → alloc_slot p.slots pkt.group_id ≡ some ts
    → prepare p pkt ≡ prepared p pkt ts
unfolding prepare
prepare_lem p pkt ts e = rw (e, prepare) refl

slots-start :
    (p : AnimationPlayer) (seq group now : ℕ) (s : Slot)
    → seq ≢ p.last_start_seq_id
    → find_slot p.slots group ≡ some s
    → s.has_pending ≡ true
    → (start p seq group now).slots ≡ update_slot (activate_pending p.last_output now) p.slots group
unfolding start
slots-start p seq group now s n found pending = ground arith

-- A slot in which the animation has been prepared, when it is activated.
activated :
    (p : AnimationPlayer) (pkt : PacketAnimationPrepare) (s : Slot) (now : ℕ)
    → let t = prepare_slot (prepared_state pkt) s in
      Plays (activate_pending p.last_output now t) (described pkt) p.last_output now
unfolding activate_pending started_state prepared_state color_ref_rgb
activated p pkt s now = record {
  started = refl;
  running = refl;
  unpaused = refl;
  settled = refl;
  begun = refl;
  anim_type = refl;
  group_id = refl;
  flags = refl;
  transition = refl;
  duration = refl;
  from = refl;
  to = refl;
  first_param = refl;
  second_param = refl;
  mode = refl;
  order = refl;
  delay = refl;
  animates = refl;
  level = elim (Bool-cases (pkt.anim_type == 8)) [
    | inl r ↦ inr (ground arith)
    | inr r ↦ inl (ground arith)
  ];
}

-- The groups after a PREPARE and a START: the one that is played, and all others.
pub prepare-start :
    (p : AnimationPlayer) (pkt : PacketAnimationPrepare) (seq now : ℕ) (ts : List Slot)
    → alloc_slot p.slots pkt.group_id ≡ some ts
    → seq ≢ p.last_start_seq_id
    → ((s : Slot) × (find_slot (start (prepare p pkt) seq pkt.group_id now).slots pkt.group_id
          ≡ some s)
        × Plays s (described pkt) p.last_output now)
      × ((other : ℕ)
          → pkt.group_id ≢ other
          → find_slot (start (prepare p pkt) seq pkt.group_id now).slots other
            ≡ find_slot p.slots other)
prepare-start p pkt seq now ts e n =
    let g = pkt.group_id in
    let f = prepare_slot (prepared_state pkt) in
    let kf = prepare_slot-KeepsGroup (prepared_state pkt) in
    let q = prepared p pkt ts in
    let activate = activate_pending p.last_output now in
    let ka = activate_pending-KeepsGroup p now in
    let (s, allocated) = find_slot-alloc_slot_self p.slots ts g e in
    let found : find_slot q.slots g ≡ some (f s) =
      ground (arith, find_slot-update_slot f ts g g kf) in
    let started = slots-start q seq g now (f s) n found refl in
    rw (prepare_lem p pkt ts e, started)
      (
        (
          activate (f s),
          ground (arith, find_slot-update_slot activate q.slots g g ka),
          activated p pkt s now,
        ),
        λ other m. ground (
          arith,
          find_slot-update_slot activate q.slots g other ka,
          find_slot-update_slot f ts g other kf,
          find_slot-alloc_slot p.slots ts g other,
        ),
      )

-- What a PREPARE and then a START of its group, with another sequence number than the last, make of a
-- player that has a slot for the group or one free: the group plays the animation that the PREPARE
-- describes, in all its members, from the moment of the START, with nothing pending; in place of its
-- colours the one shown until then, of the first where FLAG_CURRENT_COLOR_FROM and of the second where
-- FLAG_CURRENT_COLOR_TO asks for it; and the slots of the other groups are as they were.
pub prepare_then_start :
    (p : AnimationPlayer) (pkt : PacketAnimationPrepare) (seq now : ℕ) (ts : List Slot) (other : ℕ)
    → alloc_slot p.slots pkt.group_id ≡ some ts
    → seq ≢ p.last_start_seq_id
    → pkt.group_id ≢ other
    → ((s : Slot) × (find_slot (start (prepare p pkt) seq pkt.group_id now).slots pkt.group_id
          ≡ some s)
        × Plays s (described pkt) p.last_output now)
      × (find_slot (start (prepare p pkt) seq pkt.group_id now).slots other
          ≡ find_slot p.slots other)
prepare_then_start p pkt seq now ts other e n m =
    let r = prepare-start p pkt seq now ts e n in (r.0, r.1 other m)
