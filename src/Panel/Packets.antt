-- ===== src/Panel/Packets.antt =====
-- lib/Lightnet/Panel/LightnetPanel.cpp, handlePacket: the casts of a frame to the packets that a panel acts on.
use lightnet_firmware.Common.{ℕ, zero, suc, ◌+◌, List, [], ◌∷◌, get_or, read16}
use lightnet_firmware.Protocol.Meta.{meta_of}
use lightnet_firmware.Protocol.Color.{ColorRgb, ColorRef, GradientStop}
use lightnet_firmware.Protocol.Animation.{
  PacketAnimationPrepare, PacketAnimationStart, PacketAnimationControl, PacketAnimationUpdateParams,
  PacketSetPalette, PacketSetBaseColors, PacketSetGlobalBrightness, PacketSetBackground,
  PacketTurnOnOff, PacketSetColor,
}
use lightnet_firmware.Protocol.Panel.{PacketPanelConfiguration, PacketEnterBootloader}

abbrev pub color_at : List ℕ → ℕ → ColorRgb
color_at b i = record { r = get_or b i 0; g = get_or b (i + 1) 0; b = get_or b (i + 2) 0 }

abbrev pub color_ref_at : List ℕ → ℕ → ColorRef
color_ref_at b i = record {
  kind = get_or b i 0;
  raw0 = get_or b (i + 1) 0;
  raw1 = get_or b (i + 2) 0;
  raw2 = get_or b (i + 3) 0;
}

abbrev pub read16_at : List ℕ → ℕ → ℕ
read16_at b i = read16 (get_or b i 0) (get_or b (i + 1) 0)

unfoldable pub animation_prepare_of : List ℕ → PacketAnimationPrepare
animation_prepare_of b = record {
  meta = meta_of b;
  anim_type = get_or b 7 0;
  group_id = get_or b 8 0;
  flags = get_or b 9 0;
  transition_ms = get_or b 10 0;
  duration_ms = read16_at b 11;
  color_from = color_ref_at b 13;
  color_to = color_ref_at b 17;
  param1 = get_or b 21 0;
  param2 = get_or b 22 0;
  compose_mode = get_or b 23 0;
  compose_order = get_or b 24 0;
  start_delay_ms = read16_at b 25;
  animates = get_or b 27 0;
}

unfoldable pub animation_start_of : List ℕ → PacketAnimationStart
animation_start_of b = record { meta = meta_of b; seq_id = get_or b 7 0; group_id = get_or b 8 0 }

unfoldable pub animation_control_of : List ℕ → PacketAnimationControl
animation_control_of b = record { meta = meta_of b; cmd = get_or b 7 0; group_id = get_or b 8 0 }

unfoldable pub animation_update_params_of : List ℕ → PacketAnimationUpdateParams
animation_update_params_of b = record {
  meta = meta_of b;
  seq_id = get_or b 7 0;
  group_id = get_or b 8 0;
  param_type = get_or b 9 0;
  value = get_or b 10 0;
  transition_ms = get_or b 11 0;
}

-- The `n` stops of the array that begins at byte `i`.
unfoldable pub stops_at : ℕ → List ℕ → ℕ → List GradientStop
stops_at zero b i = []
stops_at (suc n) b i =
    record {
      pos = get_or b i 0;
      r = get_or b (i + 1) 0;
      g = get_or b (i + 2) 0;
      b = get_or b (i + 3) 0;
    }
    ∷ stops_at n b (i + 4)

unfoldable pub set_palette_of : List ℕ → PacketSetPalette
unfolding stops_at
set_palette_of b = record { meta = meta_of b; count = get_or b 7 0; stops = stops_at 16 b 8 }

unfoldable pub set_base_colors_of : List ℕ → PacketSetBaseColors
set_base_colors_of b = record {
  meta = meta_of b;
  colors = color_at b 7 ∷ color_at b 10 ∷ color_at b 13 ∷ [];
}

unfoldable pub set_global_brightness_of : List ℕ → PacketSetGlobalBrightness
set_global_brightness_of b = record { meta = meta_of b; value = get_or b 7 0 }

unfoldable pub set_background_of : List ℕ → PacketSetBackground
set_background_of b = record { meta = meta_of b; color = color_at b 7 }

unfoldable pub turn_on_off_of : List ℕ → PacketTurnOnOff
turn_on_off_of b = record { meta = meta_of b; on = get_or b 7 0 }

unfoldable pub set_color_of : List ℕ → PacketSetColor
set_color_of b = record { meta = meta_of b; color = color_at b 7 }

unfoldable pub panel_configuration_of : List ℕ → PacketPanelConfiguration
panel_configuration_of b = record {
  meta = meta_of b;
  use_gamma_correction = get_or b 7 0;
  color_temperature = color_at b 8;
  color_correction = color_at b 11;
}

unfoldable pub enter_bootloader_of : List ℕ → PacketEnterBootloader
enter_bootloader_of b = record { meta = meta_of b; token = get_or b 7 0 }
