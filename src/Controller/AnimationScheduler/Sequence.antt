-- ===== src/Controller/AnimationScheduler/Sequence.antt =====
-- The sequence numbers of START and UPDATE_PARAMS, by which panels tell a repetition from the next one.
use lightnet_firmware.Common.{ℕ, ◌+◌, ◌-◌, ◌%◌, ◌<◌, ◌≡◌, ◌≢◌, List, [], ◌∷◌, arith, ap, get_or}
use lightnet_firmware.Protocol.Meta.{make_meta}
use lightnet_firmware.Controller.AnimationScheduler.{
  AnimationScheduler, advance_seq_id, start_frame, send_group_start, play_on_panels,
  play_on_panels_rgb, trigger_group, send_general_call_update_params,
}
use lightnet_firmware.Controller.AnimationScheduler.Calls.{
  Call, prepare, start, play, play_rgb, black, stop, clear_queues, trigger, control, palette,
  palette_to, turn_on, base_colors, brightness, background, apply, run, takes_seq_id, count_seq_ids,
}

-- The number in use is a byte, and never 0.
abbrev pub InRange : AnimationScheduler → Type 0
InRange s = (0 < s.next_seq_id) × (s.next_seq_id < 256)

advance-seq_id :
    (s : AnimationScheduler)
    → InRange s
    → (advance_seq_id s).next_seq_id ≡ (s.next_seq_id - 1 + 1) % 255 + 1
unfolding advance_seq_id
advance-seq_id s h = ground arith

apply-seq_id :
    (s : AnimationScheduler) (c : Call)
    → InRange s
    → (apply s c).0.next_seq_id ≡ (s.next_seq_id - 1 + takes_seq_id c) % 255 + 1
unfolding apply send_group_start play_on_panels play_on_panels_rgb trigger_group
    send_general_call_update_params
apply-seq_id s (prepare p a d) h = omega arith
apply-seq_id s (start g) h = advance-seq_id s h
apply-seq_id s (play a ps) h = advance-seq_id s h
apply-seq_id s (play_rgb a f t ps) h = advance-seq_id s h
apply-seq_id s black h = omega arith
apply-seq_id s stop h = omega arith
apply-seq_id s clear_queues h = omega arith
apply-seq_id s (trigger g v) h = advance-seq_id s h
apply-seq_id s (control g c ps) h = omega arith
apply-seq_id s (palette gs) h = omega arith
apply-seq_id s (palette_to gs ps) h = omega arith
apply-seq_id s (turn_on ps) h = omega arith
apply-seq_id s (base_colors cs) h = omega arith
apply-seq_id s (brightness v) h = omega arith
apply-seq_id s (background c) h = omega arith

-- From a next sequence number that is a byte other than 0, any sequence of calls leaves the one
-- reached by counting round 1, …, 255 once for each start, play or trigger among them.
pub run_counts_seq_ids :
    (cs : List Call) (s : AnimationScheduler)
    → InRange s
    → (run s cs).0.next_seq_id ≡ (s.next_seq_id - 1 + count_seq_ids cs) % 255 + 1
unfolding run
run_counts_seq_ids [] s h = omega arith
run_counts_seq_ids (c ∷ cs) s h =
    let e = apply-seq_id s c h in
    omega (arith, e, run_counts_seq_ids cs (apply s c).0 (omega (arith, e)))

-- Of a scheduler whose next sequence number is a byte other than 0, two STARTs with fewer than 254
-- starts, plays and triggers between them are different frames, for the same group too.
pub starts_differ :
    (s : AnimationScheduler) (g k : ℕ) (cs : List Call)
    → InRange s
    → count_seq_ids cs < 254
    → start_frame s.next_seq_id g ≢ start_frame (run (send_group_start s g).0 cs).0.next_seq_id k
unfolding make_meta send_group_start
starts_differ s g k cs h b = λ e.
    let t = advance_seq_id s in
    let q = advance-seq_id s h in
    let x : s.next_seq_id ≡ (run t cs).0.next_seq_id = ap (λ (f : List ℕ). get_or f 7 0) e in
    absurd (omega (arith, x, q, run_counts_seq_ids cs t (omega (arith, q))))
