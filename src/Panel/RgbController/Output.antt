-- ===== src/Panel/RgbController/Output.antt =====
-- RGBController: what the LED shows after any calls of it.
use lightnet_firmware.Common.{
  List, [], ◌∷◌, ℕ, ◌≤◌, ◌<◌, ◌≡◌, ◌⊎◌, refl, ap, sym, ◌∙◌, All, inl, inr, Bool-cases, true, false,
  Bool, arith,
}
use lightnet_firmware.Protocol.Color.{ColorRgb}
use lightnet_firmware.Panel.ColorCompose.{rgb}
use lightnet_firmware.Panel.RgbController.{
  new, Shown, output_channel, RgbController, update_outputs, turn_on, turn_off, set_color,
  set_global_brightness, gamma_correction, set_color_correction, set_color_temperature,
}
use lightnet_firmware.Panel.RgbController.Scaling.{driven, output_channel-le, output_channel-driven}
use lightnet_firmware.Panel.RgbController.Calls.{
  IsByteColor, Request, on, off, color, brightness, gamma, correction, temperature, Fits, apply,
  run, last_of, asks_on, asks_color, asks_brightness, asks_gamma, asks_correction, asks_temperature,
  Members, run-Members,
}

-- The members are bytes.
pub record FitsBytes (c : RgbController) : Type 0 where
  pub color : IsByteColor c.color_value
  pub temperature : IsByteColor c.color_temperature
  pub correction : IsByteColor c.color_correction
  pub brightness : c.global_brightness_value < 256

update_outputs_twice : (c : RgbController) → update_outputs (update_outputs c) ≡ update_outputs c
unfolding update_outputs output_channel
update_outputs_twice c = elim (Bool-cases c.is_on) [
  | inl lit ↦ rw (lit, update_outputs) refl
  | inr dark ↦ rw (dark, update_outputs) refl
]

-- The members are bytes, and the LED of a controller that is on shows what they call for.
pub record IsCurrent (c : RgbController) : Type 0 where
  pub fits : FitsBytes c
  pub shown : c.is_on ≡ true → update_outputs c ≡ c

update_outputs-IsCurrent : (c : RgbController) → FitsBytes c → IsCurrent (update_outputs c)
unfolding update_outputs
update_outputs-IsCurrent c f =
    let kept : FitsBytes (update_outputs c) = ground arith in
    record { fits = kept; shown = λ lit. update_outputs_twice c }

apply-IsCurrent : (c : RgbController) (r : Request) → Fits r → IsCurrent c → IsCurrent (apply c r)
unfolding turn_on turn_off set_color set_global_brightness gamma_correction set_color_correction
    set_color_temperature
apply-IsCurrent c on f h = update_outputs-IsCurrent (record c { is_on = true }) (omega arith)
apply-IsCurrent c off f h = ground arith
apply-IsCurrent c (color v) f h =
    update_outputs-IsCurrent (record c { color_value = v }) (ground arith)
apply-IsCurrent c (brightness v) f h =
    update_outputs-IsCurrent (record c { global_brightness_value = v }) (ground arith)
apply-IsCurrent c (gamma v) f h =
    update_outputs-IsCurrent (record c { use_gamma_correction = v }) (ground arith)
apply-IsCurrent c (correction v) f h =
    update_outputs-IsCurrent (record c { color_correction = v }) (ground arith)
apply-IsCurrent c (temperature v) f h =
    update_outputs-IsCurrent (record c { color_temperature = v }) (ground arith)

run-IsCurrent :
    (c : RgbController) (rs : List Request) → All Fits rs → IsCurrent c → IsCurrent (run c rs)
run-IsCurrent c [] f h = h
run-IsCurrent c (r ∷ rs) f h = run-IsCurrent (apply c r) rs f.1 (apply-IsCurrent c r f.0 h)

new-IsCurrent : (led : Shown) → IsCurrent (new led)
unfolding new
new-IsCurrent led = ground arith

shown_channels :
    (c : RgbController)
    → c.is_on ≡ true
    → update_outputs c ≡ c
    → c.led.color
      ≡ rgb
          (output_channel c c.color_value.r c.color_temperature.r c.color_correction.r)
          (output_channel c c.color_value.g c.color_temperature.g c.color_correction.g)
          (output_channel c c.color_value.b c.color_temperature.b c.color_correction.b)
unfolding update_outputs output_channel
shown_channels c lit e = rw (lit, update_outputs) at (ap (λ d. d.led.color) (sym e))

shown_brightness :
    (c : RgbController) → c.is_on ≡ true → update_outputs c ≡ c → c.led.brightness ≡ 31
unfolding update_outputs
shown_brightness c lit e = rw (lit, update_outputs) at (ap (λ d. d.led.brightness) (sym e))

-- Of a controller that is off, the LED is as it was at first, or dark.
abbrev StaysDark : Shown → RgbController → Type 0
StaysDark led c =
    (c.is_on ≡ true) ⊎ (c.led ≡ led) ⊎ (c.led ≡ record { color = rgb 0 0 0; brightness = 0 })

apply-StaysDark :
    (led : Shown) (c : RgbController) (r : Request) → StaysDark led c → StaysDark led (apply c r)
unfolding turn_on turn_off set_color set_global_brightness gamma_correction set_color_correction
    set_color_temperature update_outputs
apply-StaysDark led c on h = ground arith
apply-StaysDark led c off h = ground arith
apply-StaysDark led c (color v) h = ground arith
apply-StaysDark led c (brightness v) h = ground arith
apply-StaysDark led c (gamma v) h = ground arith
apply-StaysDark led c (correction v) h = ground arith
apply-StaysDark led c (temperature v) h = ground arith

run-StaysDark :
    (led : Shown) (c : RgbController) (rs : List Request)
    → StaysDark led c
    → StaysDark led (run c rs)
run-StaysDark led c [] h = h
run-StaysDark led c (r ∷ rs) h = run-StaysDark led (apply c r) rs (apply-StaysDark led c r h)

unlit :
    (c : RgbController) (led : Shown)
    → c.is_on ≡ false
    → StaysDark led c
    → (c.led ≡ led) ⊎ (c.led ≡ record { color = rgb 0 0 0; brightness = 0 })
unlit c led out h = ground arith

-- What the LED shows of a colour `v`, by the temperature `t` and the correction `k`.
abbrev pub driven_color : Bool → ℕ → ColorRgb → ColorRgb → ColorRgb → ColorRgb
driven_color gammas n v t k =
    rgb (driven gammas n v.r t.r k.r) (driven gammas n v.g t.g k.g) (driven gammas n v.b t.b k.b)

shown_lem :
    (c : RgbController)
    → c.is_on ≡ true
    → IsCurrent c
    → let v = c.color_value in
      (c.led.color
        ≡ driven_color c.use_gamma_correction c.global_brightness_value v c.color_temperature
            c.color_correction)
      × (c.led.brightness ≡ 31)
      × (c.led.color.r ≤ v.r)
      × (c.led.color.g ≤ v.g)
      × (c.led.color.b ≤ v.b)
shown_lem c lit h =
    let v = c.color_value in
    let t = c.color_temperature in
    let k = c.color_correction in
    let b = h.fits in
    let n = b.brightness in
    let current = h.shown lit in
    let e = shown_channels c lit current in
    (
      rw
          (
            output_channel-driven c v.r t.r k.r n b.color.red b.temperature.red b.correction.red,
            output_channel-driven c v.g t.g k.g n b.color.green b.temperature.green
                b.correction.green,
            output_channel-driven c v.b t.b k.b n b.color.blue b.temperature.blue b.correction.blue,
          )
          at e,
      shown_brightness c lit current,
      rw e (output_channel-le c v.r t.r k.r n b.color.red b.temperature.red b.correction.red),
      rw e (output_channel-le c v.g t.g k.g n b.color.green b.temperature.green b.correction.green),
      rw e (output_channel-le c v.b t.b k.b n b.color.blue b.temperature.blue b.correction.blue),
    )

members_lem :
    (c : RgbController) (lit gammas : Bool) (n : ℕ) (v t k : ColorRgb)
    → Members c lit gammas n v t k
    → c.is_on ≡ true
    → IsCurrent c
    → (c.led.color ≡ driven_color gammas n v t k)
      × (c.led.brightness ≡ 31)
      × (c.led.color.r ≤ v.r)
      × (c.led.color.g ≤ v.g)
      × (c.led.color.b ≤ v.b)
members_lem c lit gammas n v t k m lighted h =
    rw (m.gamma, m.brightness, m.color, m.temperature, m.correction) at (shown_lem c lighted h)

new-Members :
    (led : Shown) → Members (new led) false true 255 (rgb 0 0 0) (rgb 255 255 255) (rgb 255 255 255)
unfolding new
new-Members led = record {
  is_on = refl;
  gamma = refl;
  brightness = refl;
  color = refl;
  temperature = refl;
  correction = refl;
}

-- What the LED of a new controller shows after any calls with bytes. If the last call of turnOn and
-- turnOff was turnOn, it is the colour that was set last: each channel is put through the gamma curve
-- if that was last set to be used, and then scaled by the temperature, the correction and the brightness
-- that were set last, a byte x scaling by (x + 1) / 256; so it is no greater than it was set. What was
-- never set is as at the start: black, the gamma curve used, all else 255. If that last call was turnOff,
-- or neither was made, the LED is dark, or still as it was before the calls.
pub run_shows :
    (led : Shown) (rs : List Request)
    → All Fits rs
    → let shown = (run (new led) rs).led in
      let v = last_of asks_color (rgb 0 0 0) rs in
      let t = last_of asks_temperature (rgb 255 255 255) rs in
      let k = last_of asks_correction (rgb 255 255 255) rs in
      let n = last_of asks_brightness 255 rs in
      ((last_of asks_on false rs ≡ true)
        × (shown.color ≡ driven_color (last_of asks_gamma true rs) n v t k)
        × (shown.brightness ≡ 31)
        × (shown.color.r ≤ v.r)
        × (shown.color.g ≤ v.g)
        × (shown.color.b ≤ v.b))
      ⊎ ((last_of asks_on false rs ≡ false)
          × ((shown ≡ led) ⊎ (shown ≡ record { color = rgb 0 0 0; brightness = 0 })))
unfolding new
run_shows led rs f =
    let v = last_of asks_color (rgb 0 0 0) rs in
    let t = last_of asks_temperature (rgb 255 255 255) rs in
    let k = last_of asks_correction (rgb 255 255 255) rs in
    let n = last_of asks_brightness 255 rs in
    let g = last_of asks_gamma true rs in
    let l = last_of asks_on false rs in
    let c = run (new led) rs in
    let m =
      run-Members (new led) rs false true 255 (rgb 0 0 0) (rgb 255 255 255) (rgb 255 255 255)
        (new-Members led) in
    elim (Bool-cases c.is_on) [
      | inl lit ↦
          (let (shown, full, red, green, blue) =
              members_lem c l g n v t k m lit (run-IsCurrent (new led) rs f (new-IsCurrent led)) in
            inl (sym m.is_on ∙ lit, shown, full, red, green, blue))
      | inr out ↦
          inr (sym m.is_on ∙ out, unlit c led out (run-StaysDark led (new led) rs (inr (inl refl))))
    ]
