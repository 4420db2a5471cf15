-- ===== src/Panel/RgbController/Calls.antt =====
-- The calls of RGBController, and what was set last among them.
use lightnet_firmware.Common.{
  List, [], ◌∷◌, ℕ, ◌<◌, ◌≡◌, Bool, true, false, Option, none, some, arith,
}
use lightnet_firmware.Protocol.Color.{ColorRgb}
use lightnet_firmware.Panel.RgbController.{
  RgbController, update_outputs, turn_on, turn_off, set_color, set_global_brightness,
  gamma_correction, set_color_correction, set_color_temperature,
}

pub record IsByteColor (c : ColorRgb) : Type 0 where
  pub red : c.r < 256
  pub green : c.g < 256
  pub blue : c.b < 256

-- What is asked of a controller.
pub data Request : Type 0 where
  on : Request
  off : Request
  color : ColorRgb → Request
  brightness : ℕ → Request
  gamma : Bool → Request
  correction : ColorRgb → Request
  temperature : ColorRgb → Request

abbrev pub Fits : Request → Type 0
Fits (color c) = IsByteColor c
Fits (brightness v) = v < 256
Fits (correction c) = IsByteColor c
Fits (temperature c) = IsByteColor c
Fits _ = Unit

abbrev pub apply : RgbController → Request → RgbController
apply c on = turn_on c
apply c off = turn_off c
apply c (color v) = set_color c v
apply c (brightness v) = set_global_brightness c v
apply c (gamma v) = gamma_correction c v
apply c (correction v) = set_color_correction c v
apply c (temperature v) = set_color_temperature c v

abbrev pub run : RgbController → List Request → RgbController
run c [] = c
run c (r ∷ rs) = run (apply c r) rs

abbrev pub or_else {ℓ} : {A : Type ℓ} → Option A → A → A
or_else none v = v
or_else (some w) v = w

-- What the last of the requests that ask for such a thing asks, and `v` if none does.
abbrev pub last_of {ℓ} : {A : Type ℓ} → (Request → Option A) → A → List Request → A
last_of asks v [] = v
last_of asks v (r ∷ rs) = last_of asks (or_else (asks r) v) rs

abbrev pub asks_on : Request → Option Bool
asks_on on = some true
asks_on off = some false
asks_on _ = none

abbrev pub asks_color : Request → Option ColorRgb
asks_color (color c) = some c
asks_color _ = none

abbrev pub asks_brightness : Request → Option ℕ
asks_brightness (brightness n) = some n
asks_brightness _ = none

abbrev pub asks_gamma : Request → Option Bool
asks_gamma (gamma b) = some b
asks_gamma _ = none

abbrev pub asks_correction : Request → Option ColorRgb
asks_correction (correction c) = some c
asks_correction _ = none

abbrev pub asks_temperature : Request → Option ColorRgb
asks_temperature (temperature c) = some c
asks_temperature _ = none

-- The members of the controller, but for the LED.
pub record Members (c : RgbController) (lit gammas : Bool) (n : ℕ) (v t k : ColorRgb) : Type 0 where
  pub is_on : c.is_on ≡ lit
  pub gamma : c.use_gamma_correction ≡ gammas
  pub brightness : c.global_brightness_value ≡ n
  pub color : c.color_value ≡ v
  pub temperature : c.color_temperature ≡ t
  pub correction : c.color_correction ≡ k

apply-Members :
    (c : RgbController) (r : Request) (lit gammas : Bool) (n : ℕ) (v t k : ColorRgb)
    → Members c lit gammas n v t k
    → Members
        (apply c r)
        (or_else (asks_on r) lit)
        (or_else (asks_gamma r) gammas)
        (or_else (asks_brightness r) n)
        (or_else (asks_color r) v)
        (or_else (asks_temperature r) t)
        (or_else (asks_correction r) k)
unfolding turn_on turn_off set_color set_global_brightness gamma_correction set_color_correction
    set_color_temperature update_outputs
apply-Members c on lit gammas n v t k h = ground (arith, h)
apply-Members c off lit gammas n v t k h = ground (arith, h)
apply-Members c (color w) lit gammas n v t k h = ground (arith, h)
apply-Members c (brightness w) lit gammas n v t k h = ground (arith, h)
apply-Members c (gamma w) lit gammas n v t k h = ground (arith, h)
apply-Members c (correction w) lit gammas n v t k h = ground (arith, h)
apply-Members c (temperature w) lit gammas n v t k h = ground (arith, h)

pub run-Members :
    (c : RgbController) (rs : List Request) (lit gammas : Bool) (n : ℕ) (v t k : ColorRgb)
    → Members c lit gammas n v t k
    → Members
        (run c rs)
        (last_of asks_on lit rs)
        (last_of asks_gamma gammas rs)
        (last_of asks_brightness n rs)
        (last_of asks_color v rs)
        (last_of asks_temperature t rs)
        (last_of asks_correction k rs)
run-Members c [] lit gammas n v t k h = h
run-Members c (r ∷ rs) lit gammas n v t k h =
    run-Members (apply c r) rs (or_else (asks_on r) lit) (or_else (asks_gamma r) gammas)
      (or_else (asks_brightness r) n) (or_else (asks_color r) v) (or_else (asks_temperature r) t)
      (or_else (asks_correction r) k) (apply-Members c r lit gammas n v t k h)
