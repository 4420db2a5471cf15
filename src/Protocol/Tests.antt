-- ===== src/Protocol/Tests.antt =====
-- Concrete packets on which the theorems about the wire protocol apply.
use lightnet_firmware.Common.{refl, ◌≡◌, true, [], ◌∷◌, ◌++◌, arith}
use lightnet_firmware.Protocol.Types.{packet_set_color}
use lightnet_firmware.Protocol.Meta.{make_meta, meta_bytes, meta_of, validate_packet}
use lightnet_firmware.Protocol.Color.{GradientStop}
use lightnet_firmware.Protocol.Palette.{sample_palette}
use lightnet_firmware.Protocol.Palette.Sampling.{IsStop, AreAround, AreBetween, sample_between}
use lightnet_firmware.Protocol.Validation.{validate_packet-make_meta}

validate_packet-make_meta_example :
    validate_packet
      (meta_of (meta_bytes (make_meta packet_set_color 12) ++ (0 ∷ 255 ∷ 0 ∷ [])))
      10
      true
    ≡ 0
validate_packet-make_meta_example =
    validate_packet-make_meta packet_set_color 12 10 (0 ∷ 255 ∷ 0 ∷ []) true (omega arith)
      (omega arith) (omega arith)

abbrev black_stop : GradientStop
black_stop = record { pos = 0; r = 0; g = 0; b = 0 }

abbrev red_stop : GradientStop
red_stop = record { pos = 100; r = 255; g = 0; b = 0 }

abbrev blue_stop : GradientStop
blue_stop = record { pos = 255; r = 0; g = 0; b = 255 }

black_stop-IsStop : IsStop black_stop
black_stop-IsStop = omega arith

red_stop-IsStop : IsStop red_stop
red_stop-IsStop = omega arith

blue_stop-IsStop : IsStop blue_stop
blue_stop-IsStop = omega arith

-- Half way to red, and at red.
sampled :
    (sample_palette (black_stop ∷ red_stop ∷ blue_stop ∷ []) 50 ≡ record { r = 127; g = 0; b = 0 })
    × (sample_palette (black_stop ∷ red_stop ∷ blue_stop ∷ []) 100
        ≡ record { r = 255; g = 0; b = 0 })
unfolding sample_palette
sampled = (refl, refl)

sample_between_example :
    (a : GradientStop) × (b : GradientStop) × AreAround 50 a b black_stop
      (red_stop ∷ blue_stop ∷ [])
    × AreBetween a b (sample_palette (black_stop ∷ red_stop ∷ blue_stop ∷ []) 50)
sample_between_example =
    sample_between black_stop (red_stop ∷ blue_stop ∷ []) 50
      (black_stop-IsStop, (red_stop-IsStop, (blue_stop-IsStop, tt)))
