-- ===== src/Panel/LightnetPanel/Play.antt =====
-- From the controller's play to the panel's slot.
use mathlib.Core.Path.{subst}
use lightnet_firmware.Common.{
  ℕ, ◌<◌, ◌≡◌, ◌≢◌, refl, ap, sym, ◌∙◌, ◌||◌, List, [], ◌∷◌, ◌++◌, map, replicate, some, arith,
  ◌==◌, if◌then◌else◌, All, u16, read16-bytes16,
}
use lightnet_firmware.Protocol.Meta.{make_meta}
use lightnet_firmware.Controller.AnimationScheduler.{
  AnimationScheduler, Animation, play_on_panels, prepare_frame, start_frame,
}
use lightnet_firmware.Controller.AnimationScheduler.Order.{sends, play_prepares_then_starts}
use lightnet_firmware.Panel.PlayerState.{
  AnimationState, Slot, AnimationPlayer, find_slot, alloc_slot,
}
use lightnet_firmware.Panel.AnimationPlayer.{prepare, start}
use lightnet_firmware.Panel.AnimationPlayer.Starting.{Plays, described, prepare-start}
use lightnet_firmware.Panel.Packets.{animation_prepare_of, animation_start_of}
use lightnet_firmware.Panel.LightnetPanel.{
  LightnetPanel, handle_packet, handle_animation_start, with_player,
}

-- The frames among the sends that a panel acts on: those to it and those to all.
abbrev pub frames_for : ℕ → List (ℕ × List ℕ) → List (List ℕ)
frames_for i [] = []
frames_for i ((target, frame) ∷ rest) =
    if (target == 0) || (target == i) then frame ∷ frames_for i rest else frames_for i rest

-- The panel handles the frames, the n-th at the n-th time.
abbrev pub handle_all : LightnetPanel → List (List ℕ) → List ℕ → LightnetPanel
handle_all p [] times = p
handle_all p (f ∷ fs) [] = p
handle_all p (f ∷ fs) (t ∷ times) = handle_all (handle_packet p f t).0 fs times

-- What an animation of the scheduler is on the panel, before its start.
abbrev pub played_state : Animation → AnimationState
played_state a = record {
  anim_type = a.anim_type;
  group_id = a.group_id;
  flags = a.flags;
  transition_ms = 0;
  duration_ms = a.duration_ms;
  start_ms = 0;
  color_from = a.color_from;
  color_to = a.color_to;
  param1 = a.param1;
  param2 = a.param2;
  compose_mode = a.compose_mode;
  compose_order = a.compose_order;
  start_delay_ms = 0;
  animates = a.animates;
}

abbrev Others : ℕ → List ℕ → Type 0
Others i = All (λ j. (j ≢ 0) × (j ≢ i))

frames_for-Others :
    (i : ℕ) (js : List ℕ) (f : List ℕ) (rest : List (ℕ × List ℕ))
    → Others i js
    → frames_for i (map (λ j. (j, f)) js ++ rest) ≡ frames_for i rest
frames_for-Others i [] f rest o = refl
frames_for-Others i (j ∷ js) f rest o = ground (arith, frames_for-Others i js f rest)

frames_for-one :
    (i : ℕ) (before after : List ℕ) (f : List ℕ) (rest : List (ℕ × List ℕ))
    → Others i before
    → Others i after
    → frames_for i (map (λ j. (j, f)) (before ++ i ∷ after) ++ rest) ≡ f ∷ frames_for i rest
frames_for-one i [] after f rest o q = ground (arith, frames_for-Others i after f rest)
frames_for-one i (j ∷ js) after f rest o q = ground (arith, frames_for-one i js after f rest)

described-frame :
    (a : Animation)
    → a.duration_ms < 65536
    → described (animation_prepare_of (prepare_frame a 0)) ≡ played_state a
unfolding animation_prepare_of
described-frame a h = ground (arith, read16-bytes16 a.duration_ms h)

handle_packet-prepare :
    (p : LightnetPanel) (a : Animation) (t : ℕ)
    → (handle_packet p (prepare_frame a 0) t).0
      ≡ with_player p (prepare p.anim_player (animation_prepare_of (prepare_frame a 0)))
unfolding handle_packet make_meta
handle_packet-prepare p a t = refl

handle_packet-start :
    (p : LightnetPanel) (seq group t : ℕ)
    → (handle_packet p (start_frame seq group) t).0
      ≡ with_player p (start p.anim_player seq group (u16 t))
unfolding handle_packet handle_animation_start animation_start_of make_meta
handle_packet-start p seq group t = refl

last_start_seq_id-start :
    (p : AnimationPlayer) (seq group now : ℕ) → (start p seq group now).last_start_seq_id ≡ seq
unfolding start
last_start_seq_id-start p seq group now = ground arith

-- A START that is repeated changes no slot.
slots-start_again :
    (p : AnimationPlayer) (seq group now : ℕ)
    → p.last_start_seq_id ≡ seq
    → (start p seq group now).slots ≡ p.slots
unfolding start
slots-start_again p seq group now e = ground arith

abbrev after_play : LightnetPanel → Animation → ℕ → List ℕ → LightnetPanel
after_play p a seq times =
    handle_all p (prepare_frame a 0 ∷ replicate 3 (start_frame seq a.group_id)) times

slots-after_play :
    (p : LightnetPanel) (a : Animation) (seq t0 t1 t2 t3 : ℕ)
    → (after_play p a seq (t0 ∷ t1 ∷ t2 ∷ t3 ∷ [])).anim_player.slots
      ≡ (start
          (prepare p.anim_player (animation_prepare_of (prepare_frame a 0)))
          seq
          a.group_id
          (u16 t1)).slots
slots-after_play p a seq t0 t1 t2 t3 =
    let g = a.group_id in
    let p0 = prepare p.anim_player (animation_prepare_of (prepare_frame a 0)) in
    let p1 = start p0 seq g (u16 t1) in
    let p2 = start p1 seq g (u16 t2) in
    let e1 = last_start_seq_id-start p0 seq g (u16 t1) in
    let e2 = last_start_seq_id-start p1 seq g (u16 t2) in
    let f = start_frame seq g in
    ap (λ q. (handle_all q (f ∷ f ∷ f ∷ []) (t1 ∷ t2 ∷ t3 ∷ [])).anim_player.slots)
      (handle_packet-prepare p a t0)
    ∙ ap (λ q. (handle_all q (f ∷ f ∷ []) (t2 ∷ t3 ∷ [])).anim_player.slots)
        (handle_packet-start (with_player p p0) seq g t1)
    ∙ ap (λ q. (handle_all q (f ∷ []) (t3 ∷ [])).anim_player.slots)
        (handle_packet-start (with_player p p1) seq g t2)
    ∙ ap (λ q. q.anim_player.slots) (handle_packet-start (with_player p p2) seq g t3)
    ∙ slots-start_again p2 seq g (u16 t3) e2
    ∙ slots-start_again p1 seq g (u16 t2) e1

-- What a PREPARE frame of the scheduler and a START of its group make of a player.
prepare_frame_then_start :
    (a : Animation) (p : AnimationPlayer) (seq now : ℕ) (ts : List Slot)
    → a.duration_ms < 65536
    → alloc_slot p.slots a.group_id ≡ some ts
    → seq ≢ p.last_start_seq_id
    → let ss =
        (start (prepare p (animation_prepare_of (prepare_frame a 0))) seq a.group_id now).slots in
      ((u : Slot) × (find_slot ss a.group_id ≡ some u) × Plays u (played_state a) p.last_output now)
      × ((other : ℕ) → a.group_id ≢ other → find_slot ss other ≡ find_slot p.slots other)
unfolding animation_prepare_of
prepare_frame_then_start a p seq now ts h e n =
    let pkt = animation_prepare_of (prepare_frame a 0) in
    let ((u, found, plays), others) = prepare-start p pkt seq now ts e n in
    ((u, found, subst (λ st. Plays u st p.last_output now) (described-frame a h) plays), others)

-- The frames of a play for panel `i`, which is once among the panels played on, handled by it in order,
-- make its group play the animation of the scheduler, in all its members, from the time of the first
-- START, without transition or delay, and with nothing pending; in place of its colours the one that the
-- panel showed, of the first where FLAG_CURRENT_COLOR_FROM and of the second where FLAG_CURRENT_COLOR_TO
-- asks for it. The slots of the other groups are as they were. Provided that the panel has a slot for
-- the group or one free, that its last START had another sequence number, and that the duration fits
-- its 16 bits.
pub play_reaches_panel :
    (s : AnimationScheduler) (a : Animation) (p : LightnetPanel) (i : ℕ) (before after : List ℕ)
    (t0 t1 t2 t3 : ℕ) (ts : List Slot) (other : ℕ)
    → Others i before
    → Others i after
    → a.duration_ms < 65536
    → alloc_slot p.anim_player.slots a.group_id ≡ some ts
    → s.next_seq_id ≢ p.anim_player.last_start_seq_id
    → a.group_id ≢ other
    → let frames = frames_for i (sends (play_on_panels s a (before ++ i ∷ after)).1) in
      let q = handle_all p frames (t0 ∷ t1 ∷ t2 ∷ t3 ∷ []) in
      ((u : Slot) × (find_slot q.anim_player.slots a.group_id ≡ some u)
        × Plays u (played_state a) p.anim_player.last_output (u16 t1))
      × (find_slot q.anim_player.slots other ≡ find_slot p.anim_player.slots other)
play_reaches_panel s a p i before after t0 t1 t2 t3 ts other ob oa h e n m =
    let played = prepare_frame_then_start a p.anim_player s.next_seq_id (u16 t1) ts h e n in
    let g = start_frame s.next_seq_id a.group_id in
    let f = prepare_frame a 0 in
    let tail : frames_for i (replicate 3 (0, g)) ≡ replicate 3 g = refl in
    let sent = play_prepares_then_starts s a (before ++ i ∷ after) in
    let frames : frames_for i (sends (play_on_panels s a (before ++ i ∷ after)).1)
        ≡ f ∷ replicate 3 g =
      ap (frames_for i) sent
      ∙ frames_for-one i before after f (replicate 3 (0, g)) ob oa
      ∙ ap (◌∷◌ f) tail in
    let ss = sym (slots-after_play p a s.next_seq_id t0 t1 t2 t3) in
    rw frames (
      subst
        (λ l.
          ((u : Slot) × (find_slot l a.group_id ≡ some u)
            × Plays u (played_state a) p.anim_player.last_output (u16 t1))
          × (find_slot l other ≡ find_slot p.anim_player.slots other))
        ss (played.0, played.1 other m))
