-- ===== src/Controller/Tests.antt =====
-- A scheduler and calls on which the theorems about it apply.
use lightnet_firmware.Common.{◌≡◌, refl, List, [], ◌∷◌, ◌++◌, map, replicate, All}
use lightnet_firmware.Protocol.Color.{ColorRgb, ColorRef}
use lightnet_firmware.Controller.AnimationScheduler.{
  AnimationScheduler, Animation, prepare_frame, start_frame, play_on_panels,
}
use lightnet_firmware.Controller.AnimationScheduler.Calls.{
  Call, run, play, trigger, base_colors, palette,
}
use lightnet_firmware.Controller.AnimationScheduler.Frames.{SendsFrame, run-SendsFrame}
use lightnet_firmware.Controller.AnimationScheduler.Order.{sends, play_prepares_then_starts}

-- About to wrap round.
abbrev scheduler : AnimationScheduler
scheduler = record { next_seq_id = 254 }

abbrev red : ColorRef
red = record { kind = 0; raw0 = 255; raw1 = 0; raw2 = 0 }

abbrev fade : Animation
fade = record {
  group_id = 2;
  anim_type = 1;
  flags = 1;
  duration_ms = 500;
  color_from = red;
  color_to = red;
  param1 = 0;
  param2 = 0;
  compose_mode = 1;
  compose_order = 0;
  animates = 0;
}

abbrev black_rgb : ColorRgb
black_rgb = record { r = 0; g = 0; b = 0 }

abbrev calls : List Call
calls =
    base_colors (black_rgb ∷ black_rgb ∷ black_rgb ∷ [])
    ∷ palette (record { pos = 0; r = 1; g = 2; b = 3 } ∷ [])
    ∷ play fade (3 ∷ 1 ∷ [])
    ∷ trigger 2 90
    ∷ []

run-SendsFrame_example : All SendsFrame (run scheduler calls).1
run-SendsFrame_example = run-SendsFrame calls scheduler (refl, (tt, (tt, (tt, tt))))

play_prepares_then_starts_example :
    sends (play_on_panels scheduler fade (3 ∷ 1 ∷ [])).1
    ≡ map (λ p. (p, prepare_frame fade 0)) (3 ∷ 1 ∷ []) ++ replicate 3 (0, start_frame 254 2)
play_prepares_then_starts_example = play_prepares_then_starts scheduler fade (3 ∷ 1 ∷ [])
