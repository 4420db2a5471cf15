-- ===== src/Protocol/Animation.antt =====
-- lib/Lightnet/Core/Common/ProtocolTypes.hpp: the packed structs of the animation framework and the appearance broadcasts,
-- with the bytes that they occupy on the wire.
use lightnet_firmware.Common.{ℕ, List, [], ◌∷◌, ◌++◌, ◌≡◌, refl, length, bytes16}
use lightnet_firmware.Protocol.Types.{PacketMeta}
use lightnet_firmware.Protocol.Meta.{
  meta_bytes, sizeof_animation_prepare, sizeof_animation_start, sizeof_animation_control,
  sizeof_animation_update_params, sizeof_set_global_brightness, sizeof_set_background,
  sizeof_turn_on_off, sizeof_set_color,
}
use lightnet_firmware.Protocol.Color.{
  ColorRef, color_ref_bytes, ColorRgb, color_bytes, colors_bytes, GradientStop, stop_bytes,
}

pub record PacketAnimationPrepare : Type 0 where
  pub meta : PacketMeta
  pub anim_type : ℕ
  pub group_id : ℕ
  pub flags : ℕ
  pub transition_ms : ℕ
  pub duration_ms : ℕ
  pub color_from : ColorRef
  pub color_to : ColorRef
  pub param1 : ℕ
  pub param2 : ℕ
  pub compose_mode : ℕ
  pub compose_order : ℕ
  pub start_delay_ms : ℕ
  pub animates : ℕ

abbrev pub animation_prepare_bytes : PacketAnimationPrepare → List ℕ
animation_prepare_bytes p =
    meta_bytes p.meta
    ++ p.anim_type ∷ []
    ++ p.group_id ∷ []
    ++ p.flags ∷ []
    ++ p.transition_ms ∷ []
    ++ bytes16 p.duration_ms
    ++ color_ref_bytes p.color_from
    ++ color_ref_bytes p.color_to
    ++ p.param1 ∷ []
    ++ p.param2 ∷ []
    ++ p.compose_mode ∷ []
    ++ p.compose_order ∷ []
    ++ bytes16 p.start_delay_ms
    ++ p.animates ∷ []

animation_prepare-length :
    (p : PacketAnimationPrepare) → length (animation_prepare_bytes p) ≡ sizeof_animation_prepare
animation_prepare-length p = refl

pub record PacketAnimationStart : Type 0 where
  pub meta : PacketMeta
  pub seq_id : ℕ
  pub group_id : ℕ

abbrev pub animation_start_bytes : PacketAnimationStart → List ℕ
animation_start_bytes p = meta_bytes p.meta ++ p.seq_id ∷ [] ++ p.group_id ∷ []

animation_start-length :
    (p : PacketAnimationStart) → length (animation_start_bytes p) ≡ sizeof_animation_start
animation_start-length p = refl

pub record PacketAnimationControl : Type 0 where
  pub meta : PacketMeta
  pub cmd : ℕ
  pub group_id : ℕ

abbrev pub animation_control_bytes : PacketAnimationControl → List ℕ
animation_control_bytes p = meta_bytes p.meta ++ p.cmd ∷ [] ++ p.group_id ∷ []

animation_control-length :
    (p : PacketAnimationControl) → length (animation_control_bytes p) ≡ sizeof_animation_control
animation_control-length p = refl

pub record PacketAnimationUpdateParams : Type 0 where
  pub meta : PacketMeta
  pub seq_id : ℕ
  pub group_id : ℕ
  pub param_type : ℕ
  pub value : ℕ
  pub transition_ms : ℕ

abbrev pub animation_update_params_bytes : PacketAnimationUpdateParams → List ℕ
animation_update_params_bytes p =
    meta_bytes p.meta
    ++ p.seq_id ∷ []
    ++ p.group_id ∷ []
    ++ p.param_type ∷ []
    ++ p.value ∷ []
    ++ p.transition_ms ∷ []

animation_update_params-length :
    (p : PacketAnimationUpdateParams)
    → length (animation_update_params_bytes p) ≡ sizeof_animation_update_params
animation_update_params-length p = refl

pub record PacketSetPalette : Type 0 where
  pub meta : PacketMeta
  pub count : ℕ
  pub stops : List GradientStop

abbrev pub set_palette_bytes : PacketSetPalette → List ℕ
set_palette_bytes p = meta_bytes p.meta ++ p.count ∷ [] ++ stop_bytes p.stops

pub record PacketSetBaseColors : Type 0 where
  pub meta : PacketMeta
  pub colors : List ColorRgb

abbrev pub set_base_colors_bytes : PacketSetBaseColors → List ℕ
set_base_colors_bytes p = meta_bytes p.meta ++ colors_bytes p.colors

pub record PacketSetGlobalBrightness : Type 0 where
  pub meta : PacketMeta
  pub value : ℕ

abbrev pub set_global_brightness_bytes : PacketSetGlobalBrightness → List ℕ
set_global_brightness_bytes p = meta_bytes p.meta ++ p.value ∷ []

set_global_brightness-length :
    (p : PacketSetGlobalBrightness)
    → length (set_global_brightness_bytes p) ≡ sizeof_set_global_brightness
set_global_brightness-length p = refl

pub record PacketSetBackground : Type 0 where
  pub meta : PacketMeta
  pub color : ColorRgb

abbrev pub set_background_bytes : PacketSetBackground → List ℕ
set_background_bytes p = meta_bytes p.meta ++ color_bytes p.color

set_background-length :
    (p : PacketSetBackground) → length (set_background_bytes p) ≡ sizeof_set_background
set_background-length p = refl

pub record PacketTurnOnOff : Type 0 where
  pub meta : PacketMeta
  pub on : ℕ

abbrev pub turn_on_off_bytes : PacketTurnOnOff → List ℕ
turn_on_off_bytes p = meta_bytes p.meta ++ p.on ∷ []

turn_on_off-length : (p : PacketTurnOnOff) → length (turn_on_off_bytes p) ≡ sizeof_turn_on_off
turn_on_off-length p = refl

pub record PacketSetColor : Type 0 where
  pub meta : PacketMeta
  pub color : ColorRgb

abbrev pub set_color_bytes : PacketSetColor → List ℕ
set_color_bytes p = meta_bytes p.meta ++ color_bytes p.color

set_color-length : (p : PacketSetColor) → length (set_color_bytes p) ≡ sizeof_set_color
set_color-length p = refl
