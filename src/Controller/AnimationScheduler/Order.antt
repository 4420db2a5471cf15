-- ===== src/Controller/AnimationScheduler/Order.antt =====
-- The order in which an animation is played out.
use lightnet_firmware.Common.{ℕ, zero, suc, ◌≡◌, refl, ◌∙◌, ap, List, [], ◌∷◌, ◌++◌, map, replicate}
use lightnet_firmware.Controller.PacketSink.{Command, send, pace, pace_for_hop}
use lightnet_firmware.Controller.AnimationScheduler.{
  AnimationScheduler, Animation, send_prepare_to_panel, send_group_start, flood_start,
  play_on_panels, prepare_panels, prepare_frame, start_frame,
}

-- The sends among the commands, each with its address.
abbrev pub sends : List Command → List (ℕ × List ℕ)
sends [] = []
sends (send p f w ∷ cs) = (p, f) ∷ sends cs
sends (pace n ∷ cs) = sends cs
sends (pace_for_hop n ∷ cs) = sends cs

sends-append : (xs ys : List Command) → sends (xs ++ ys) ≡ sends xs ++ sends ys
sends-append [] ys = refl
sends-append (send p f w ∷ xs) ys = ap (◌∷◌ (p, f)) (sends-append xs ys)
sends-append (pace n ∷ xs) ys = sends-append xs ys
sends-append (pace_for_hop n ∷ xs) ys = sends-append xs ys

sends-prepare_panels :
    (a : Animation) (ps : List ℕ)
    → sends (prepare_panels a ps) ≡ map (λ p. (p, prepare_frame a 0)) ps
unfolding prepare_panels send_prepare_to_panel
sends-prepare_panels a [] = refl
sends-prepare_panels a (p ∷ ps) = ap (◌∷◌ (p, prepare_frame a 0)) (sends-prepare_panels a ps)

sends-flood_start : (n : ℕ) (f : List ℕ) → sends (flood_start n f) ≡ replicate n (0, f)
unfolding flood_start
sends-flood_start zero f = refl
sends-flood_start (suc n) f = ap (◌∷◌ (0, f)) (sends-flood_start n f)

-- Playing an animation first sends every panel, in the order given, the same PREPARE, and only then
-- the same START three times to all panels.
pub play_prepares_then_starts :
    (s : AnimationScheduler) (a : Animation) (ps : List ℕ)
    → sends (play_on_panels s a ps).1
      ≡ map (λ p. (p, prepare_frame a 0)) ps
        ++ replicate 3 (0, start_frame s.next_seq_id a.group_id)
unfolding play_on_panels send_group_start
play_prepares_then_starts s a ps =
    let f = start_frame s.next_seq_id a.group_id in
    sends-append (prepare_panels a ps) (pace 300 ∷ flood_start 3 f)
    ∙ rw (sends-prepare_panels a ps, sends-flood_start 3 f) refl
