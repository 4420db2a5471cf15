-- ===== src/Protocol/Color.antt =====
-- lib/Lightnet/Core/Common/ColorRef.hpp, Palette.hpp and the colours of ProtocolTypes.hpp.
use lightnet_firmware.Common.{ℕ, List, [], ◌∷◌, ◌++◌}

pub record ColorRgb : Type 0 where
  pub r : ℕ
  pub g : ℕ
  pub b : ℕ

abbrev pub color_bytes : ColorRgb → List ℕ
color_bytes c = c.r ∷ c.g ∷ c.b ∷ []

abbrev pub colors_bytes : List ColorRgb → List ℕ
colors_bytes [] = []
colors_bytes (c ∷ cs) = color_bytes c ++ colors_bytes cs

-- `kind` says how the three payload bytes of the union are read.
pub record ColorRef : Type 0 where
  pub kind : ℕ
  pub raw0 : ℕ
  pub raw1 : ℕ
  pub raw2 : ℕ

abbrev pub color_ref_bytes : ColorRef → List ℕ
color_ref_bytes c = c.kind ∷ c.raw0 ∷ c.raw1 ∷ c.raw2 ∷ []

unfoldable pub color_ref_rgb : ℕ → ℕ → ℕ → ColorRef
color_ref_rgb r g b = record { kind = 0; raw0 = r; raw1 = g; raw2 = b }

unfoldable pub color_ref_palette : ℕ → ColorRef
color_ref_palette pos = record { kind = 1; raw0 = pos; raw1 = 0; raw2 = 0 }

unfoldable pub color_ref_use_color : ℕ → ColorRef
color_ref_use_color slot = record { kind = 2; raw0 = slot; raw1 = 0; raw2 = 0 }

unfoldable pub color_ref_scalar : ℕ → ColorRef
unfolding color_ref_rgb
color_ref_scalar value = color_ref_rgb value 0 0

unfoldable pub color_ref_scalar_value : ColorRef → ℕ
color_ref_scalar_value c = c.raw0

pub record GradientStop : Type 0 where
  pub pos : ℕ
  pub r : ℕ
  pub g : ℕ
  pub b : ℕ

abbrev pub stop_bytes : List GradientStop → List ℕ
stop_bytes [] = []
stop_bytes (s ∷ ss) = s.pos ∷ s.r ∷ s.g ∷ s.b ∷ stop_bytes ss
