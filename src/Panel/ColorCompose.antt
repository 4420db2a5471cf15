-- ===== src/Panel/ColorCompose.antt =====
-- lib/Lightnet/Core/Panel/ColorCompose.hpp: blending and modifying colours, and the fold of a panel's
-- layers. RGB8 is the record of a ColorRGB. `int` is taken to be wide enough for the products.
pub mod Order
pub mod Modifiers
use lightnet_firmware.Common.{
  ℕ, ◌+◌, ◌-◌, ◌*◌, ◌/◌, Bool, true, false, List, [], ◌∷◌, ltb, leb, ◌==◌, if◌then◌else◌, u8,
}
use lightnet_firmware.Protocol.Color.{ColorRgb}
use lightnet_firmware.Protocol.Palette.{blend}

abbrev pub co_add : ℕ
co_add = 2

abbrev pub co_max : ℕ
co_max = 3

abbrev pub co_multiply : ℕ
co_multiply = 4

abbrev pub co_screen : ℕ
co_screen = 5

abbrev pub co_darken : ℕ
co_darken = 6

abbrev pub co_overlay : ℕ
co_overlay = 7

abbrev pub co_difference : ℕ
co_difference = 8

abbrev pub co_subtract : ℕ
co_subtract = 9

unfoldable pub clamp_add : ℕ → ℕ → ℕ
clamp_add a b = if ltb 255 (a + b) then 255 else u8 (a + b)

unfoldable pub mul : ℕ → ℕ → ℕ
mul a b = u8 (a * b / 255)

unfoldable pub screen : ℕ → ℕ → ℕ
unfolding mul
screen a b = u8 (255 - mul (255 - a) (255 - b))

unfoldable pub max : ℕ → ℕ → ℕ
max a b = if ltb b a then a else b

unfoldable pub darken : ℕ → ℕ → ℕ
darken a b = if ltb a b then a else b

unfoldable pub overlay : ℕ → ℕ → ℕ
overlay a b = if ltb a 128 then u8 (2 * a * b / 255) else u8 (255 - 2 * (255 - a) * (255 - b) / 255)

unfoldable pub diff : ℕ → ℕ → ℕ
diff a b = if ltb b a then a - b else b - a

unfoldable pub sub : ℕ → ℕ → ℕ
sub a b = if ltb b a then a - b else 0

-- A blend of two colours, channel by channel.
abbrev pub channels : (ℕ → ℕ → ℕ) → ColorRgb → ColorRgb → ColorRgb
channels f acc src = record { r = f acc.r src.r; g = f acc.g src.g; b = f acc.b src.b }

unfoldable pub compose_color : ColorRgb → ColorRgb → ℕ → ColorRgb
unfolding clamp_add max mul screen darken overlay diff sub
compose_color acc src op =
    if op == co_add
    then channels clamp_add acc src
    else if op == co_max
    then channels max acc src
    else if op == co_multiply
    then channels mul acc src
    else if op == co_screen
    then channels screen acc src
    else if op == co_darken
    then channels darken acc src
    else if op == co_overlay
    then channels overlay acc src
    else if op == co_difference
    then channels diff acc src
    else if op == co_subtract
    then channels sub acc src
    else src

pub record Hsv8 : Type 0 where
  pub h : ℕ
  pub s : ℕ
  pub v : ℕ

-- `(uint8_t)((base + (a - b) * 43 / delta) & 0xFF)`, whose quotient is rounded towards 0.
unfoldable pub hue : ℕ → ℕ → ℕ → ℕ → ℕ
hue base a b delta =
    if leb b a then u8 (base + (a - b) * 43 / delta) else u8 (base + 256 - (b - a) * 43 / delta)

unfoldable pub least : ℕ → ℕ → ℕ → ℕ
least r g b = if ltb r g then (if ltb r b then r else b) else if ltb g b then g else b

unfoldable pub rgb2hsv : ColorRgb → Hsv8
unfolding max least hue
rgb2hsv c =
    let mx = max (max c.r c.g) c.b in
    let delta = u8 (mx + 256 - least c.r c.g c.b) in
    let s = u8 (delta * 255 / mx) in
    if mx == 0
    then record { h = 0; s = 0; v = mx }
    else if delta == 0
    then record { h = 0; s = s; v = mx }
    else if mx == c.r
    then record { h = hue 0 c.g c.b delta; s = s; v = mx }
    else if mx == c.g
    then record { h = hue 85 c.b c.r delta; s = s; v = mx }
    else record { h = hue 171 c.r c.g delta; s = s; v = mx }

abbrev pub rgb : ℕ → ℕ → ℕ → ColorRgb
rgb r g b = record { r = r; g = g; b = b }

-- The `switch` of `hsv2rgb` on the region.
unfoldable pub sector : ℕ → ℕ → ℕ → ℕ → ℕ → ColorRgb
sector region v p q t =
    if region == 0
    then rgb v t p
    else if region == 1
    then rgb q v p
    else if region == 2
    then rgb p v t
    else if region == 3
    then rgb p q v
    else if region == 4
    then rgb t p v
    else rgb v p q

unfoldable pub hsv2rgb : Hsv8 → ColorRgb
unfolding sector
hsv2rgb c =
    let region = c.h / 43 in
    let remainder = u8 ((c.h - region * 43) * 6) in
    let p = u8 (c.v * (255 - c.s) / 255) in
    let q = u8 (c.v * (255 - c.s * remainder / 255) / 255) in
    let t = u8 (c.v * (255 - c.s * (255 - remainder) / 255) / 255) in
    if c.s == 0 then rgb c.v c.v c.v else sector region c.v p q t

unfoldable pub mod_dim : ColorRgb → ℕ → ColorRgb
unfolding mul
mod_dim acc value = rgb (mul acc.r value) (mul acc.g value) (mul acc.b value)

unfoldable pub mod_desaturate : ColorRgb → ℕ → ColorRgb
unfolding rgb2hsv hsv2rgb mul
mod_desaturate acc value =
    let h = rgb2hsv acc in if value == 255 then acc else hsv2rgb (record h { s = mul h.s value })

-- `(uint8_t)(c + ((255 - c) * value) / 255)`
unfoldable pub lift : ℕ → ℕ → ℕ
lift c value = u8 (c + (255 - c) * value / 255)

unfoldable pub mod_brighten : ColorRgb → ℕ → ColorRgb
unfolding lift
mod_brighten acc value =
    if value == 0 then acc else rgb (lift acc.r value) (lift acc.g value) (lift acc.b value)

unfoldable pub mod_saturate : ColorRgb → ℕ → ColorRgb
unfolding rgb2hsv hsv2rgb lift
mod_saturate acc value =
    let h = rgb2hsv acc in
    if value == 0 then acc else if h.s == 0 then acc else hsv2rgb (record h { s = lift h.s value })

unfoldable pub mod_hue_shift : ColorRgb → ℕ → ColorRgb
unfolding rgb2hsv hsv2rgb
mod_hue_shift acc value =
    let h = rgb2hsv acc in if value == 0 then acc else hsv2rgb (record h { h = u8 (h.h + value) })

unfoldable pub mod_invert : ColorRgb → ℕ → ColorRgb
unfolding blend
mod_invert acc value =
    let inv = rgb (255 - acc.r) (255 - acc.g) (255 - acc.b) in
    if value == 0
    then acc
    else if value == 255
    then inv
    else rgb (blend acc.r inv.r value) (blend acc.g inv.g value) (blend acc.b inv.b value)

abbrev pub mo_dim : ℕ
mo_dim = 0

abbrev pub mo_desaturate : ℕ
mo_desaturate = 1

abbrev pub mo_hue : ℕ
mo_hue = 2

abbrev pub mo_invert : ℕ
mo_invert = 3

abbrev pub mo_brighten : ℕ
mo_brighten = 4

abbrev pub mo_saturate : ℕ
mo_saturate = 5

-- The `switch` of `foldLayers` on a modifier's op.
unfoldable pub apply_modifier : ColorRgb → ℕ → ℕ → ColorRgb
unfolding mod_dim mod_desaturate mod_hue_shift mod_invert mod_brighten mod_saturate
apply_modifier acc op value =
    if op == mo_dim
    then mod_dim acc value
    else if op == mo_desaturate
    then mod_desaturate acc value
    else if op == mo_hue
    then mod_hue_shift acc value
    else if op == mo_invert
    then mod_invert acc value
    else if op == mo_brighten
    then mod_brighten acc value
    else if op == mo_saturate
    then mod_saturate acc value
    else acc

pub record CompositeLayer : Type 0 where
  pub compose_order : ℕ
  pub is_modifier : Bool
  pub op : ℕ
  pub value : ℕ
  pub color : ColorRgb

-- The inner loop of the sort: `tmp` moves down past the layers of a greater order. The sorted part of the
-- array is listed from its end.
unfoldable pub insert_layer : CompositeLayer → List CompositeLayer → List CompositeLayer
insert_layer tmp [] = tmp ∷ []
insert_layer tmp (l ∷ ls) =
    if ltb tmp.compose_order l.compose_order then l ∷ insert_layer tmp ls else tmp ∷ l ∷ ls

-- The outer loop, with the rest of the array behind the sorted part.
unfoldable pub sort_layers : List CompositeLayer → List CompositeLayer → List CompositeLayer
unfolding insert_layer
sort_layers sorted [] = sorted
sort_layers sorted (tmp ∷ rest) = sort_layers (insert_layer tmp sorted) rest

unfoldable pub fold_layer : ColorRgb → CompositeLayer → ColorRgb
unfolding apply_modifier compose_color
fold_layer acc l =
    if l.is_modifier then apply_modifier acc l.op l.value else compose_color acc l.color l.op

-- The last loop, over the sorted array, listed from its end.
unfoldable pub fold_sorted : ColorRgb → List CompositeLayer → ColorRgb
unfolding fold_layer
fold_sorted base [] = base
fold_sorted base (l ∷ ls) = fold_layer (fold_sorted base ls) l

unfoldable pub fold_layers : List CompositeLayer → ColorRgb → ColorRgb
unfolding sort_layers fold_sorted
fold_layers layers base = fold_sorted base (sort_layers [] layers)
