-- ===== src/Protocol/Palette.antt =====
-- lib/Lightnet/Core/Common/Palette.hpp: colours between the stops of a palette. `stops` with `count` is
-- the list of the `count` stops. `int` is taken to be wide enough for the products.
pub mod Sampling
pub mod Stops
use lightnet_firmware.Common.{
  ℕ, ◌+◌, ◌-◌, ◌*◌, ◌/◌, ◌%◌, Bool, true, false, ◌||◌, List, [], ◌∷◌, ◌==◌, leb, ltb, if◌then◌else◌,
  u8, length,
}
use lightnet_firmware.Protocol.Color.{ColorRgb, GradientStop}

abbrev pub stop_color : GradientStop → ColorRgb
stop_color s = record { r = s.r; g = s.g; b = s.b }

-- The last stop, where `s` is before `rest`.
abbrev pub last_stop : GradientStop → List GradientStop → GradientStop
last_stop s [] = s
last_stop s (t ∷ rest) = last_stop t rest

-- `while (i + 1 < count && stops[i + 1].pos <= pos) i++`, from the stop `s` before `rest`: the stops `i`
-- and `i + 1`. Past the last stop, which is read out of range, it gives that stop twice.
unfoldable pub find_segment : ℕ → GradientStop → List GradientStop → GradientStop × GradientStop
find_segment pos s [] = (s, s)
find_segment pos s (t ∷ rest) = if leb t.pos pos then find_segment pos t rest else (s, t)

-- `(uint8_t)(a + ((b - a) * frac_q8) / 255)`, whose quotient is rounded towards `a`.
unfoldable pub blend : ℕ → ℕ → ℕ → ℕ
blend a b frac = if leb a b then u8 (a + (b - a) * frac / 255) else u8 (a - (a - b) * frac / 255)

-- `samplePalette` between two stops.
unfoldable pub sample_segment : ℕ → GradientStop → GradientStop → ColorRgb
unfolding blend
sample_segment pos a b =
    let span = u8 (b.pos + 256 - a.pos) in
    let frac = u8 ((pos - a.pos) * 255 / span) in
    if span == 0
    then stop_color a
    else record { r = blend a.r b.r frac; g = blend a.g b.g frac; b = blend a.b b.b frac }

unfoldable pub sample_palette : List GradientStop → ℕ → ColorRgb
unfolding find_segment sample_segment
sample_palette [] pos = record { r = 255; g = 255; b = 255 }
sample_palette (s ∷ rest) pos =
    if (length rest == 0) || leb pos s.pos
    then stop_color s
    else if leb (last_stop s rest).pos pos
    then stop_color (last_stop s rest)
    else (let (a, b) = find_segment pos s rest in sample_segment pos a b)
