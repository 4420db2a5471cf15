-- ===== src/Panel/RgbController.antt =====
-- lib/Lightnet/Panel/RGBController.{hpp,cpp} and lib/Lightnet/Utils/Gamma.{hpp,cpp}: from a colour to what the LED is
-- driven with. The LED is the last call of `LNLed.show`.
pub mod Calls
pub mod Scaling
pub mod Output
use lightnet_firmware.Common.{
  ℕ, ◌+◌, ◌*◌, ◌/◌, Bool, true, false, List, [], ◌∷◌, if◌then◌else◌, u8, get_or,
}
use lightnet_firmware.Protocol.Color.{ColorRgb}
use lightnet_firmware.Panel.ColorCompose.{rgb}

unfoldable pub gamma_table : List ℕ
gamma_table =
    0 ∷ 0 ∷ 0 ∷ 0 ∷ 0 ∷ 0 ∷ 0 ∷ 0 ∷ 0 ∷ 0 ∷ 0 ∷ 0 ∷ 0 ∷ 0 ∷ 0 ∷ 1 ∷ 1 ∷ 1 ∷ 1 ∷ 1 ∷ 1 ∷ 1 ∷ 1 ∷ 1
    ∷ 1 ∷ 2 ∷ 2 ∷ 2 ∷ 2 ∷ 2 ∷ 2 ∷ 2 ∷ 3 ∷ 3 ∷ 3 ∷ 3 ∷ 3 ∷ 4 ∷ 4 ∷ 4 ∷ 4 ∷ 5 ∷ 5 ∷ 5 ∷ 5 ∷ 6 ∷ 6 ∷ 6
    ∷ 6 ∷ 7 ∷ 7 ∷ 7 ∷ 8 ∷ 8 ∷ 8 ∷ 9 ∷ 9 ∷ 9 ∷ 10 ∷ 10 ∷ 11 ∷ 11 ∷ 11 ∷ 12 ∷ 12 ∷ 12 ∷ 13 ∷ 13 ∷ 14
    ∷ 14 ∷ 15 ∷ 15 ∷ 16 ∷ 16 ∷ 16 ∷ 17 ∷ 17 ∷ 18 ∷ 19 ∷ 19 ∷ 20 ∷ 21 ∷ 21 ∷ 22 ∷ 22 ∷ 23 ∷ 23 ∷ 24
    ∷ 24 ∷ 25 ∷ 26 ∷ 26 ∷ 27 ∷ 28 ∷ 28 ∷ 29 ∷ 30 ∷ 31 ∷ 31 ∷ 32 ∷ 33 ∷ 33 ∷ 34 ∷ 35 ∷ 36 ∷ 36 ∷ 37
    ∷ 38 ∷ 39 ∷ 39 ∷ 40 ∷ 41 ∷ 42 ∷ 43 ∷ 44 ∷ 44 ∷ 45 ∷ 46 ∷ 47 ∷ 48 ∷ 49 ∷ 50 ∷ 50 ∷ 51 ∷ 52 ∷ 53
    ∷ 54 ∷ 55 ∷ 56 ∷ 57 ∷ 58 ∷ 59 ∷ 60 ∷ 61 ∷ 62 ∷ 63 ∷ 64 ∷ 65 ∷ 66 ∷ 67 ∷ 68 ∷ 69 ∷ 70 ∷ 71 ∷ 72
    ∷ 73 ∷ 74 ∷ 75 ∷ 76 ∷ 78 ∷ 79 ∷ 80 ∷ 81 ∷ 82 ∷ 83 ∷ 85 ∷ 86 ∷ 87 ∷ 88 ∷ 90 ∷ 91 ∷ 93 ∷ 94 ∷ 95
    ∷ 97 ∷ 98 ∷ 99 ∷ 100 ∷ 102 ∷ 103 ∷ 104 ∷ 106 ∷ 107 ∷ 109 ∷ 110 ∷ 111 ∷ 113 ∷ 114 ∷ 116 ∷ 117
    ∷ 119 ∷ 120 ∷ 122 ∷ 123 ∷ 124 ∷ 126 ∷ 127 ∷ 129 ∷ 130 ∷ 132 ∷ 134 ∷ 135 ∷ 137 ∷ 139 ∷ 140 ∷ 142
    ∷ 143 ∷ 145 ∷ 147 ∷ 148 ∷ 150 ∷ 151 ∷ 153 ∷ 155 ∷ 156 ∷ 158 ∷ 160 ∷ 161 ∷ 163 ∷ 165 ∷ 166 ∷ 168
    ∷ 170 ∷ 172 ∷ 173 ∷ 175 ∷ 177 ∷ 179 ∷ 181 ∷ 182 ∷ 184 ∷ 186 ∷ 188 ∷ 190 ∷ 192 ∷ 194 ∷ 196 ∷ 198
    ∷ 200 ∷ 202 ∷ 203 ∷ 205 ∷ 207 ∷ 209 ∷ 211 ∷ 213 ∷ 215 ∷ 217 ∷ 219 ∷ 221 ∷ 223 ∷ 225 ∷ 227 ∷ 229
    ∷ 231 ∷ 234 ∷ 236 ∷ 238 ∷ 240 ∷ 242 ∷ 244 ∷ 246 ∷ 248 ∷ 251 ∷ 253 ∷ 255 ∷ []

unfoldable pub gamma_value : ℕ → ℕ
unfolding gamma_table
gamma_value value = get_or gamma_table value 0

-- `LNLed.show(r, g, b, brightness)`.
pub record Shown : Type 0 where
  pub color : ColorRgb
  pub brightness : ℕ

pub record RgbController : Type 0 where
  pub color_value : ColorRgb
  pub global_brightness_value : ℕ
  pub is_on : Bool
  pub use_gamma_correction : Bool
  pub color_correction : ColorRgb
  pub color_temperature : ColorRgb
  pub led : Shown

unfoldable pub new : Shown → RgbController
new led = record {
  color_value = rgb 0 0 0;
  global_brightness_value = 255;
  is_on = false;
  use_gamma_correction = true;
  color_correction = rgb 255 255 255;
  color_temperature = rgb 255 255 255;
  led = led;
}

unfoldable pub scale_channel : ℕ → ℕ → ℕ
scale_channel value scale = u8 (value * (scale + 1) / 256)

-- One channel of `updateOutputs`.
unfoldable pub output_channel : RgbController → ℕ → ℕ → ℕ → ℕ
output_channel c value temperature correction =
    let v = if c.use_gamma_correction then gamma_value value else value in
    scale_channel (scale_channel (scale_channel v temperature) correction) c.global_brightness_value

unfoldable pub update_outputs : RgbController → RgbController
update_outputs c =
    let v = c.color_value in
    let t = c.color_temperature in
    let k = c.color_correction in
    if c.is_on
    then record c {
      led = record {
        color =
            rgb (output_channel c v.r t.r k.r) (output_channel c v.g t.g k.g)
              (output_channel c v.b t.b k.b);
        brightness = 31;
      };
    }
    else c

unfoldable pub turn_on : RgbController → RgbController
unfolding update_outputs
turn_on c = update_outputs (record c { is_on = true })

unfoldable pub turn_off : RgbController → RgbController
turn_off c = record c { is_on = false; led = record { color = rgb 0 0 0; brightness = 0 } }

unfoldable pub set_color : RgbController → ColorRgb → RgbController
unfolding update_outputs
set_color c v = update_outputs (record c { color_value = v })

unfoldable pub set_global_brightness : RgbController → ℕ → RgbController
unfolding update_outputs
set_global_brightness c v = update_outputs (record c { global_brightness_value = v })

unfoldable pub gamma_correction : RgbController → Bool → RgbController
unfolding update_outputs
gamma_correction c v = update_outputs (record c { use_gamma_correction = v })

unfoldable pub set_color_correction : RgbController → ColorRgb → RgbController
unfolding update_outputs
set_color_correction c v = update_outputs (record c { color_correction = v })

unfoldable pub set_color_temperature : RgbController → ColorRgb → RgbController
unfolding update_outputs
set_color_temperature c v = update_outputs (record c { color_temperature = v })
