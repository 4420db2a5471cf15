-- ===== src/Panel/AnimationPlayer/Events.antt =====
-- The calls that a player gets, as a list.
use lightnet_firmware.Common.{ℕ, ◌≡◌, List, [], ◌∷◌, length}
use lightnet_firmware.Protocol.Color.{ColorRgb, GradientStop}
use lightnet_firmware.Protocol.Animation.{PacketAnimationPrepare}
use lightnet_firmware.Panel.PlayerState.{AnimationPlayer}
use lightnet_firmware.Panel.AnimationPlayer
use lightnet_firmware.Panel.AnimationPlayer.{palette_stops, take_dirty}
use lightnet_firmware.Panel.Effects.{base_colors_count}

pub data Event : Type 0 where
  prepare : PacketAnimationPrepare → Event
  start : ℕ → ℕ → ℕ → Event
  control : ℕ → ℕ → ℕ → Event
  update_params : ℕ → ℕ → ℕ → ℕ → ℕ → Event
  set_color : ColorRgb → Event
  set_palette : List GradientStop → ℕ → Event
  set_base_colors : List ColorRgb → Event
  set_background : ColorRgb → Event
  tick : ℕ → Event
  take_output : Event

-- Arrays have the lengths of their declarations.
abbrev pub HasArrays : Event → Type 0
HasArrays (set_palette stops count) = length stops ≡ palette_stops
HasArrays (set_base_colors colors) = length colors ≡ base_colors_count
HasArrays _ = Unit

abbrev pub apply : AnimationPlayer → Event → AnimationPlayer
apply p (prepare pkt) = AnimationPlayer.prepare p pkt
apply p (start seq group now) = AnimationPlayer.start p seq group now
apply p (control cmd group now) = AnimationPlayer.control p cmd group now
apply p (update_params seq group type value now) =
    AnimationPlayer.update_params p seq group type value now
apply p (set_color c) = AnimationPlayer.set_color_direct p c
apply p (set_palette stops count) = AnimationPlayer.set_palette p stops count
apply p (set_base_colors colors) = AnimationPlayer.set_base_colors p colors
apply p (set_background c) = AnimationPlayer.set_background p c
apply p (tick now) = AnimationPlayer.tick p now
apply p take_output = (take_dirty p).0

abbrev pub run : AnimationPlayer → List Event → AnimationPlayer
run p [] = p
run p (e ∷ es) = run (apply p e) es
