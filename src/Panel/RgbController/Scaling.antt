-- ===== src/Panel/RgbController/Scaling.antt =====
-- What updateOutputs makes of a channel: the scalings, written as arithmetic, and their bounds.
use native.Mathlib.Nat.{mul-le-mul_left, div-le_of_le-mul}
use lightnet_firmware.Common.{
  List, [], ◌∷◌, ℕ, ◌+◌, ◌*◌, ◌/◌, ◌≤◌, ◌<◌, ◌≡◌, refl, ap, ◌∙◌, inl, inr, Bool-cases, true, Bool,
  ◌&&◌, zero, suc, arith, leb, get_or, if◌then◌else◌,
}
use lightnet_firmware.Panel.RgbController.{
  RgbController, gamma_table, gamma_value, scale_channel, output_channel,
}

-- No entry of a table exceeds its index, the first being `i`.
abbrev darkens : ℕ → List ℕ → Bool
darkens i [] = true
darkens i (v ∷ vs) = leb v i && darkens (i + 1) vs

get_or-darkens : (vs : List ℕ) (i k : ℕ) → darkens i vs ≡ true → get_or vs k 0 ≤ i + k
get_or-darkens [] i k h = omega arith
get_or-darkens (v ∷ vs) i zero h = ground arith
get_or-darkens (v ∷ vs) i (suc k) h =
    let rest : darkens (i + 1) vs ≡ true = ground arith in
    omega (arith, get_or-darkens vs (i + 1) k rest)

gamma_value-le : (x : ℕ) → gamma_value x ≤ x
unfolding gamma_value gamma_table
gamma_value-le x = omega (arith, get_or-darkens gamma_table 0 x refl)

scale_le_mul : (v s : ℕ) → s < 256 → v * (s + 1) ≤ 256 * v
scale_le_mul v s h = omega (arith, mul-le-mul_left v (let l : s + 1 ≤ 256 = omega arith in l))

scale_channel-le : (v s : ℕ) → v < 256 → s < 256 → scale_channel v s ≤ v
unfolding scale_channel
scale_channel-le v s a b = omega (arith, div-le_of_le-mul 256 (scale_le_mul v s b))

-- A channel scaled by a byte, of which 255 leaves it alone.
abbrev scaled : ℕ → ℕ → ℕ
scaled v s = v * (s + 1) / 256

scale_channel_lem : (v s : ℕ) → v < 256 → s < 256 → scale_channel v s ≡ scaled v s
unfolding scale_channel
scale_channel_lem v s a b =
    let l : v * (s + 1) / 256 ≤ v = div-le_of_le-mul 256 (scale_le_mul v s b) in omega (arith, l)

scale_thrice-le :
    (v t k n : ℕ)
    → v < 256
    → t < 256
    → k < 256
    → n < 256
    → scale_channel (scale_channel (scale_channel v t) k) n ≤ v
scale_thrice-le v t k n a b d e =
    let l1 = scale_channel-le v t a b in
    let l2 = scale_channel-le (scale_channel v t) k (omega arith) d in
    let l3 = scale_channel-le (scale_channel (scale_channel v t) k) n (omega arith) e in omega arith

pub output_channel-le :
    (c : RgbController) (v t k : ℕ)
    → c.global_brightness_value < 256
    → v < 256
    → t < 256
    → k < 256
    → output_channel c v t k ≤ v
unfolding output_channel
output_channel-le c v t k n a b d =
    let l = gamma_value-le v in
    ground (
      arith,
      scale_thrice-le (gamma_value v) t k c.global_brightness_value,
      scale_thrice-le v t k c.global_brightness_value,
    )

-- What a channel of value `v` is driven with, by the gamma curve if it is used, the temperature `t`, the
-- correction `k` and the brightness `n`.
abbrev pub driven : Bool → ℕ → ℕ → ℕ → ℕ → ℕ
driven gammas n v t k =
    let curved = if gammas then gamma_value v else v in scaled (scaled (scaled curved t) k) n

scale_thrice_lem :
    (v t k n : ℕ)
    → v < 256
    → t < 256
    → k < 256
    → n < 256
    → scale_channel (scale_channel (scale_channel v t) k) n ≡ scaled (scaled (scaled v t) k) n
scale_thrice_lem v t k n a b d e =
    let l1 = scale_channel-le v t a b in
    let l2 = scale_channel-le (scale_channel v t) k (omega arith) d in
    scale_channel_lem (scale_channel (scale_channel v t) k) n (omega arith) e
    ∙ ap (λ x. scaled x n) (scale_channel_lem (scale_channel v t) k (omega arith) d)
    ∙ ap (λ x. scaled (scaled x k) n) (scale_channel_lem v t a b)

pub output_channel-driven :
    (c : RgbController) (v t k : ℕ)
    → c.global_brightness_value < 256
    → v < 256
    → t < 256
    → k < 256
    → output_channel c v t k ≡ driven c.use_gamma_correction c.global_brightness_value v t k
unfolding output_channel
output_channel-driven c v t k n a b d = elim (Bool-cases c.use_gamma_correction) [
  | inl g ↦ rw g (
      let l = gamma_value-le v in
      scale_thrice_lem (gamma_value v) t k c.global_brightness_value (omega arith) b d n)
  | inr g ↦ rw g (scale_thrice_lem v t k c.global_brightness_value a b d n)
]
