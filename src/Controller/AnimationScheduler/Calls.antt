-- ===== src/Controller/AnimationScheduler/Calls.antt =====
-- Any call of a public method, and sequences of calls.
use lightnet_firmware.Common.{ℕ, ◌+◌, List, [], ◌∷◌, ◌++◌}
use lightnet_firmware.Protocol.Color.{ColorRgb, GradientStop}
use lightnet_firmware.Controller.PacketSink.{Command}
use lightnet_firmware.Controller.AnimationScheduler.{
  AnimationScheduler, Animation, send_prepare_to_panel, send_group_start, play_on_panels,
  play_on_panels_rgb, broadcast_black, broadcast_stop, clear_all_panel_queues, trigger_group,
  send_control_to_panels, broadcast_palette, unicast_palette_to_panels, turn_on_panels,
  broadcast_base_colors, broadcast_global_brightness, broadcast_background,
}

pub data Call : Type 0 where
  prepare : ℕ → Animation → ℕ → Call
  start : ℕ → Call
  play : Animation → List ℕ → Call
  play_rgb : Animation → ColorRgb → ColorRgb → List ℕ → Call
  black : Call
  stop : Call
  clear_queues : Call
  trigger : ℕ → ℕ → Call
  control : ℕ → ℕ → List ℕ → Call
  palette : List GradientStop → Call
  palette_to : List GradientStop → List ℕ → Call
  turn_on : List ℕ → Call
  base_colors : List ColorRgb → Call
  brightness : ℕ → Call
  background : ColorRgb → Call

unfoldable pub apply : AnimationScheduler → Call → AnimationScheduler × List Command
apply s (prepare p a d) = (s, send_prepare_to_panel p a d)
apply s (start g) = send_group_start s g
apply s (play a ps) = play_on_panels s a ps
apply s (play_rgb a f t ps) = play_on_panels_rgb s a f t ps
apply s black = (s, broadcast_black)
apply s stop = (s, broadcast_stop)
apply s clear_queues = (s, clear_all_panel_queues)
apply s (trigger g v) = trigger_group s g v
apply s (control g c ps) = (s, send_control_to_panels g c ps)
apply s (palette gs) = (s, broadcast_palette gs)
apply s (palette_to gs ps) = (s, unicast_palette_to_panels gs ps)
apply s (turn_on ps) = (s, turn_on_panels ps)
apply s (base_colors cs) = (s, broadcast_base_colors cs)
apply s (brightness v) = (s, broadcast_global_brightness v)
apply s (background c) = (s, broadcast_background c)

unfoldable pub run : AnimationScheduler → List Call → AnimationScheduler × List Command
unfolding apply
run s [] = (s, [])
run s (c ∷ cs) = let (t, now) = apply s c in let (u, later) = run t cs in (u, now ++ later)

-- Calls that take a sequence number.
abbrev pub takes_seq_id : Call → ℕ
takes_seq_id (start g) = 1
takes_seq_id (play a ps) = 1
takes_seq_id (play_rgb a f t ps) = 1
takes_seq_id (trigger g v) = 1
takes_seq_id _ = 0

abbrev pub count_seq_ids : List Call → ℕ
count_seq_ids [] = 0
count_seq_ids (c ∷ cs) = takes_seq_id c + count_seq_ids cs
