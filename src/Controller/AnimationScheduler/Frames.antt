-- ===== src/Controller/AnimationScheduler/Frames.antt =====
-- What the scheduler sends is what a panel's framer takes.
use lightnet_firmware.Common.{
  ℕ, zero, suc, ◌+◌, ◌-◌, ◌*◌, ◌<◌, ◌≡◌, refl, true, List, [], ◌∷◌, ◌++◌, arith, length,
  length-append, length-take, take, replicate, All, All-append,
}
use lightnet_firmware.Protocol.Meta.{make_meta, meta_bytes, packet_size_for_type}
use lightnet_firmware.Protocol.Validation.{validate_packet-make_meta}
use lightnet_firmware.Protocol.Color.{ColorRgb, GradientStop, stop_bytes, colors_bytes}
use lightnet_firmware.Protocol.Types.{
  packet_animation_prepare, packet_animation_start, packet_animation_control,
  packet_animation_update_params, packet_set_palette, packet_set_base_colors,
  packet_set_global_brightness, packet_set_background, packet_turn_on_off, packet_set_color,
}
use lightnet_firmware.Protocol.Animation.{set_palette_bytes}
use lightnet_firmware.Framing.PacketFramer.Stream.{IsFrame}
use lightnet_firmware.Controller.PacketSink.{Command, send, pace, pace_for_hop}
use lightnet_firmware.Controller.AnimationScheduler.{
  AnimationScheduler, Animation, send_prepare_to_panel, send_group_start, flood_start,
  play_on_panels, play_on_panels_rgb, prepare_panels, prepare_frame, start_frame, control_frame,
  broadcast_black, broadcast_stop, clear_all_panel_queues, trigger_group,
  send_general_call_update_params, send_control_to_panels, broadcast_palette,
  make_set_palette_packet, no_stop, unicast, unicast_palette_to_panels, turn_on_panels,
  broadcast_base_colors, broadcast_global_brightness, broadcast_background,
}
use lightnet_firmware.Controller.AnimationScheduler.Calls.{
  Call, prepare, start, play, play_rgb, black, stop, clear_queues, trigger, control, palette,
  palette_to, turn_on, base_colors, brightness, background, apply, run,
}

-- A command sends a frame that a framer takes, if it sends at all.
abbrev pub SendsFrame : Command → Type 0
SendsFrame (send a f w) = IsFrame true f
SendsFrame (pace n) = Unit
SendsFrame (pace_for_hop n) = Unit

-- A packet with a stamped header and the payload that its type calls for.
stamped-IsFrame :
    (t : ℕ) (rest : List ℕ)
    → t < 256
    → packet_size_for_type t ≡ 7 + length rest
    → IsFrame true (meta_bytes (make_meta t 0) ++ rest)
unfolding make_meta
stamped-IsFrame t rest h e = record {
  nonempty = omega arith;
  sized = omega (arith, e);
  checked =
      validate_packet-make_meta t 0 (length (meta_bytes (make_meta t 0) ++ rest)) rest true h
        (omega arith) (omega arith);
}

length-replicate {ℓ} : {A : Type ℓ} (n : ℕ) (x : A) → length (replicate n x) ≡ n
length-replicate zero x = refl
length-replicate (suc n) x = omega (arith, length-replicate n x)

length-stop_bytes : (gs : List GradientStop) → length (stop_bytes gs) ≡ 4 * length gs
length-stop_bytes [] = refl
length-stop_bytes (g ∷ gs) = omega (arith, length-stop_bytes gs)

length-make_set_palette_packet :
    (gs : List GradientStop) → length (make_set_palette_packet gs).stops ≡ 16
unfolding make_set_palette_packet
length-make_set_palette_packet gs = ground (
  arith,
  length-take 16 gs,
  length-take (length gs) gs,
  length-replicate (16 - length gs) no_stop,
  length-append (take 16 gs) (replicate 0 no_stop),
  length-append (take (length gs) gs) (replicate (16 - length gs) no_stop),
)

palette-IsFrame :
    (gs : List GradientStop) → IsFrame true (set_palette_bytes (make_set_palette_packet gs))
unfolding make_set_palette_packet packet_size_for_type
palette-IsFrame gs =
    let p = make_set_palette_packet gs in
    stamped-IsFrame packet_set_palette (p.count ∷ stop_bytes p.stops) (omega arith)
      (omega (arith, length-stop_bytes p.stops, length-make_set_palette_packet gs))

prepare-IsFrame : (a : Animation) (delay : ℕ) → IsFrame true (prepare_frame a delay)
unfolding packet_size_for_type
prepare-IsFrame a delay = stamped-IsFrame packet_animation_prepare _ (omega arith) refl

start-IsFrame : (i g : ℕ) → IsFrame true (start_frame i g)
unfolding packet_size_for_type
start-IsFrame i g = stamped-IsFrame packet_animation_start (i ∷ g ∷ []) (omega arith) refl

control-IsFrame : (c g : ℕ) → IsFrame true (control_frame c g)
unfolding packet_size_for_type
control-IsFrame c g = stamped-IsFrame packet_animation_control (c ∷ g ∷ []) (omega arith) refl

unicast-SendsFrame :
    (f : List ℕ) (n : ℕ) (ps : List ℕ) → IsFrame true f → All SendsFrame (unicast f n ps)
unfolding unicast
unicast-SendsFrame f n [] h = tt
unicast-SendsFrame f n (p ∷ ps) h = (h, (tt, unicast-SendsFrame f n ps h))

prepares-SendsFrame : (a : Animation) (ps : List ℕ) → All SendsFrame (prepare_panels a ps)
unfolding prepare_panels send_prepare_to_panel
prepares-SendsFrame a [] = tt
prepares-SendsFrame a (p ∷ ps) = (prepare-IsFrame a 0, (tt, prepares-SendsFrame a ps))

flood-SendsFrame : (n : ℕ) (f : List ℕ) → IsFrame true f → All SendsFrame (flood_start n f)
unfolding flood_start
flood-SendsFrame zero f h = tt
flood-SendsFrame (suc n) f h = (h, (tt, flood-SendsFrame n f h))

play-SendsFrame :
    (s : AnimationScheduler) (a : Animation) (ps : List ℕ)
    → All SendsFrame (play_on_panels s a ps).1
unfolding play_on_panels send_group_start
play-SendsFrame s a ps =
    All-append SendsFrame (prepare_panels a ps)
      (pace 300 ∷ flood_start 3 (start_frame s.next_seq_id a.group_id)) (prepares-SendsFrame a ps)
      (tt, flood-SendsFrame 3 _ (start-IsFrame s.next_seq_id a.group_id))

-- `broadcastBaseColors` takes an array of three colours.
abbrev pub Fits : Call → Type 0
Fits (base_colors cs) = length cs ≡ 3
Fits _ = Unit

length-colors_bytes : (cs : List ColorRgb) → length (colors_bytes cs) ≡ 3 * length cs
length-colors_bytes [] = refl
length-colors_bytes (c ∷ cs) = omega (arith, length-colors_bytes cs)

apply-SendsFrame : (s : AnimationScheduler) (c : Call) → Fits c → All SendsFrame (apply s c).1
unfolding apply send_prepare_to_panel send_group_start play_on_panels_rgb broadcast_black
    broadcast_stop clear_all_panel_queues trigger_group send_general_call_update_params
    send_control_to_panels broadcast_palette unicast_palette_to_panels turn_on_panels
    broadcast_base_colors broadcast_global_brightness broadcast_background packet_size_for_type
apply-SendsFrame s (prepare p a d) h = (prepare-IsFrame a d, (tt, tt))
apply-SendsFrame s (start g) h = flood-SendsFrame 3 _ (start-IsFrame s.next_seq_id g)
apply-SendsFrame s (play a ps) h = play-SendsFrame s a ps
apply-SendsFrame s (play_rgb a f t ps) h = play-SendsFrame s _ ps
apply-SendsFrame s black h =
    (stamped-IsFrame packet_set_color (0 ∷ 0 ∷ 0 ∷ []) (omega arith) refl, tt)
apply-SendsFrame s stop h = (control-IsFrame 1 0, tt)
apply-SendsFrame s clear_queues h = (control-IsFrame 4 0, tt)
apply-SendsFrame s (trigger g v) h = (
  stamped-IsFrame packet_animation_update_params (s.next_seq_id ∷ g ∷ 1 ∷ v ∷ 10 ∷ []) (omega arith)
      refl,
  tt,
)
apply-SendsFrame s (control g c ps) h = unicast-SendsFrame _ 9 ps (control-IsFrame c g)
apply-SendsFrame s (palette gs) h = ground (arith, palette-IsFrame gs)
apply-SendsFrame s (palette_to gs ps) h = ground (
  arith,
  unicast-SendsFrame (set_palette_bytes (make_set_palette_packet gs)) 72 ps (palette-IsFrame gs),
)
apply-SendsFrame s (turn_on ps) h =
    unicast-SendsFrame _ 8 ps (stamped-IsFrame packet_turn_on_off (1 ∷ []) (omega arith) refl)
apply-SendsFrame s (base_colors cs) h = (
  stamped-IsFrame packet_set_base_colors (colors_bytes cs) (omega arith)
      (omega (arith, length-colors_bytes cs)),
  tt,
)
apply-SendsFrame s (brightness v) h =
    (stamped-IsFrame packet_set_global_brightness (v ∷ []) (omega arith) refl, tt)
apply-SendsFrame s (background c) h =
    (stamped-IsFrame packet_set_background (c.r ∷ c.g ∷ c.b ∷ []) (omega arith) refl, tt)

-- Whatever calls the scheduler gets, base colours always as three, every frame that it sends has
-- its type's size and a header that passes the check with the version.
pub run-SendsFrame :
    (cs : List Call) (s : AnimationScheduler) → All Fits cs → All SendsFrame (run s cs).1
unfolding run
run-SendsFrame [] s h = tt
run-SendsFrame (c ∷ cs) s h =
    All-append SendsFrame (apply s c).1 (run (apply s c).0 cs).1 (apply-SendsFrame s c h.0)
      (run-SendsFrame cs (apply s c).0 h.1)
