-- ===== src/Panel/ColorCompose/Modifiers.antt =====
-- What the modifiers do to a colour.
use native.Mathlib.Nat.{mul-le-mul_left, div-le_of_le-mul}
use lightnet_firmware.Common.{
  ℕ, zero, suc, ◌+◌, ◌-◌, ◌*◌, ◌/◌, ◌<◌, ◌≤◌, ◌≡◌, refl, false, arith, ◌==◌, ◌||◌, if◌then◌else◌,
  u8,
}
use lightnet_firmware.Protocol.Color.{ColorRgb}
use lightnet_firmware.Panel.ColorCompose.{
  mul, max, Hsv8, rgb2hsv, hsv2rgb, sector, mod_desaturate, mod_hue_shift, mod_saturate, mod_dim,
  lift, mod_brighten, apply_modifier, mo_dim, mo_hue, mo_invert, mo_brighten, mo_saturate,
  mo_desaturate, mod_invert,
}

pub record IsColor (c : ColorRgb) : Type 0 where
  pub red : c.r < 256
  pub green : c.g < 256
  pub blue : c.b < 256

-- The value at which a modifier does nothing, as the comments on the operations give it.
abbrev pub identity_value : ℕ → ℕ
identity_value op = if (op == mo_dim) || (op == mo_desaturate) then 255 else 0

mod_dim-identity : (acc : ColorRgb) → IsColor acc → mod_dim acc 255 ≡ acc
unfolding mod_dim mul
mod_dim-identity acc h = ground arith

module _ (acc : ColorRgb) where
  mod_desaturate-identity : mod_desaturate acc 255 ≡ acc
  unfolding mod_desaturate
  mod_desaturate-identity = refl

  mod_hue_shift-identity : mod_hue_shift acc 0 ≡ acc
  unfolding mod_hue_shift
  mod_hue_shift-identity = refl

  mod_invert-identity : mod_invert acc 0 ≡ acc
  unfolding mod_invert
  mod_invert-identity = refl

  mod_brighten-identity : mod_brighten acc 0 ≡ acc
  unfolding mod_brighten
  mod_brighten-identity = refl

  mod_saturate-identity : mod_saturate acc 0 ≡ acc
  unfolding mod_saturate
  mod_saturate-identity = refl

-- Every other op leaves the colour.
apply_modifier-other : (acc : ColorRgb) (op value : ℕ) → 5 < op → apply_modifier acc op value ≡ acc
unfolding apply_modifier
apply_modifier-other acc op value h =
    let n0 : (op == mo_dim) ≡ false = ground arith in
    let n1 : (op == mo_desaturate) ≡ false = ground arith in
    let n2 : (op == mo_hue) ≡ false = ground arith in
    let n3 : (op == mo_invert) ≡ false = ground arith in
    let n4 : (op == mo_brighten) ≡ false = ground arith in
    let n5 : (op == mo_saturate) ≡ false = ground arith in rw (n0, n1, n2, n3, n4, n5) refl

-- Every modifier, and every unknown one, leaves a colour of bytes as it is at its identity value:
-- 255 for dimming and desaturating, and 0 for the others.
pub apply_modifier-identity :
    (acc : ColorRgb) (op : ℕ) → IsColor acc → apply_modifier acc op (identity_value op) ≡ acc
unfolding apply_modifier
apply_modifier-identity acc zero h = mod_dim-identity acc h
apply_modifier-identity acc (suc zero) h = mod_desaturate-identity acc
apply_modifier-identity acc (suc (suc zero)) h = mod_hue_shift-identity acc
apply_modifier-identity acc (suc (suc (suc zero))) h = mod_invert-identity acc
apply_modifier-identity acc (suc (suc (suc (suc zero)))) h = mod_brighten-identity acc
apply_modifier-identity acc (suc (suc (suc (suc (suc zero))))) h = mod_saturate-identity acc
apply_modifier-identity acc (suc (suc (suc (suc (suc (suc n)))))) h =
    apply_modifier-other acc (suc (suc (suc (suc (suc (suc n))))))
      (identity_value (suc (suc (suc (suc (suc (suc n))))))) (omega arith)

le_mul : (v x : ℕ) → x ≤ 255 → v * x ≤ 255 * v
le_mul v x h = omega (arith, mul-le-mul_left v h)

scaled-le : (v x : ℕ) → v < 256 → x ≤ 255 → u8 (v * x / 255) ≤ v
scaled-le v x l h = omega (arith, div-le_of_le-mul 255 (le_mul v x h))

-- The brightest of the channels.
abbrev pub brightest : ColorRgb → ℕ
brightest c = max (max c.r c.g) c.b

brightest-sector :
    (region v p q t : ℕ) → p ≤ v → q ≤ v → t ≤ v → brightest (sector region v p q t) ≡ v
unfolding sector max
brightest-sector region v p q t hp hq ht = ground arith

brightest-grey : (v : ℕ) → max (max v v) v ≡ v
unfolding max
brightest-grey v = ground arith

brightest-hsv2rgb : (c : Hsv8) → c.v < 256 → brightest (hsv2rgb c) ≡ c.v
unfolding hsv2rgb
brightest-hsv2rgb c h =
    let remainder = u8 ((c.h - c.h / 43 * 43) * 6) in
    ground (
      arith,
      brightest-grey c.v,
      scaled-le c.v (255 - c.s),
      scaled-le c.v (255 - c.s * remainder / 255),
      scaled-le c.v (255 - c.s * (255 - remainder) / 255),
      brightest-sector (c.h / 43) c.v (u8 (c.v * (255 - c.s) / 255))
          (u8 (c.v * (255 - c.s * remainder / 255) / 255))
          (u8 (c.v * (255 - c.s * (255 - remainder) / 255) / 255)),
    )

rgb2hsv-v : (c : ColorRgb) → (rgb2hsv c).v ≡ brightest c
unfolding rgb2hsv
rgb2hsv-v c = ground arith

brightest-lt : (c : ColorRgb) → IsColor c → brightest c < 256
unfolding max
brightest-lt c h = ground arith

-- Desaturating, saturating and turning the hue of a colour of bytes keep its brightest channel's
-- value, whatever the rounding in between does to the others.
pub brightest-modifiers :
    (acc : ColorRgb) (value : ℕ)
    → IsColor acc
    → (brightest (mod_desaturate acc value) ≡ brightest acc)
      × (brightest (mod_saturate acc value) ≡ brightest acc)
      × (brightest (mod_hue_shift acc value) ≡ brightest acc)
unfolding mod_desaturate mod_saturate mod_hue_shift
brightest-modifiers acc value h =
    let c = rgb2hsv acc in
    let l = brightest-lt acc h in
    let e = rgb2hsv-v acc in
    (
      ground (arith, brightest-hsv2rgb (record c { s = mul c.s value })),
      ground (arith, brightest-hsv2rgb (record c { s = lift c.s value })),
      ground (arith, brightest-hsv2rgb (record c { h = u8 (c.h + value) })),
    )
