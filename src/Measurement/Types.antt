-- ===== src/Measurement/Types.antt =====
-- The base and extended types of measurements: include/step/measurement/base.h, ext_color.h,
-- ext_light.h, ext_orientation.h and ext_temperature.h.
use step.Common.{ℕ}

-- `enum step_mes_type`
pub data MesType : Type 0 where
  undefined area acceleration amplitude capacitance color coordinates current dimension : MesType
  frequency humidity inductance light magnetic_field mass momentum orientation phase : MesType
  pressure resistance sound temperature time velocity voltage volume acidity conductivity : MesType
  force energy user_1 user_2 user_3 user_4 user_5 user_6 user_7 user_8 user_9 user_10 : MesType
  user_11 user_12 user_13 user_14 user_15 last : MesType

-- The values of the base types.
unfoldable pub type_code : MesType → ℕ
type_code undefined = 0x00
type_code area = 0x10
type_code acceleration = 0x11
type_code amplitude = 0x12
type_code capacitance = 0x13
type_code color = 0x14
type_code coordinates = 0x15
type_code current = 0x16
type_code dimension = 0x17
type_code frequency = 0x18
type_code humidity = 0x19
type_code inductance = 0x1A
type_code light = 0x1B
type_code magnetic_field = 0x1C
type_code mass = 0x1D
type_code momentum = 0x1E
type_code orientation = 0x1F
type_code phase = 0x20
type_code pressure = 0x21
type_code resistance = 0x22
type_code sound = 0x23
type_code temperature = 0x24
type_code time = 0x25
type_code velocity = 0x26
type_code voltage = 0x27
type_code volume = 0x28
type_code acidity = 0x29
type_code conductivity = 0x2A
type_code force = 0x2B
type_code energy = 0x2C
type_code user_1 = 0xF0
type_code user_2 = 0xF1
type_code user_3 = 0xF2
type_code user_4 = 0xF3
type_code user_5 = 0xF4
type_code user_6 = 0xF5
type_code user_7 = 0xF6
type_code user_8 = 0xF7
type_code user_9 = 0xF8
type_code user_10 = 0xF9
type_code user_11 = 0xFA
type_code user_12 = 0xFB
type_code user_13 = 0xFC
type_code user_14 = 0xFD
type_code user_15 = 0xFE
type_code last = 0xFF

-- `enum step_mes_ext_color`
pub data ColorExt : Type 0 where
  color_undefined color_rgba8 color_rgba16 color_rgbaf color_cie1931_xyz color_cie1931_xyy :
      ColorExt
  color_cie1960_ucs color_cie1976_ucs color_cie1960_cct color_cie1960_cct_duv : ColorExt

-- The values of the extended types.
unfoldable pub color_code : ColorExt → ℕ
color_code color_undefined = 0
color_code color_rgba8 = 0x10
color_code color_rgba16 = 0x11
color_code color_rgbaf = 0x12
color_code color_cie1931_xyz = 0x20
color_code color_cie1931_xyy = 0x21
color_code color_cie1960_ucs = 0x22
color_code color_cie1976_ucs = 0x23
color_code color_cie1960_cct = 0x24
color_code color_cie1960_cct_duv = 0x25

-- `enum step_mes_ext_light`
pub data LightExt : Type 0 where
  light_undefined light_radio_radiant_flux light_radio_radiant_inten light_radio_irradiance :
      LightExt
  light_radio_radiance light_photo_lum_flux light_photo_lum_inten light_photo_illuminance : LightExt
  light_photo_luminance : LightExt

-- The values of the extended types.
unfoldable pub light_code : LightExt → ℕ
light_code light_undefined = 0
light_code light_radio_radiant_flux = 0x10
light_code light_radio_radiant_inten = 0x11
light_code light_radio_irradiance = 0x12
light_code light_radio_radiance = 0x13
light_code light_photo_lum_flux = 0x20
light_code light_photo_lum_inten = 0x21
light_code light_photo_illuminance = 0x22
light_code light_photo_luminance = 0x23

-- `enum step_mes_ext_orientation`
pub data OrientationExt : Type 0 where
  orientation_undefined orientation_ang_measure orientation_unit_quaternion : OrientationExt

-- The values of the extended types.
unfoldable pub orientation_code : OrientationExt → ℕ
orientation_code orientation_undefined = 0
orientation_code orientation_ang_measure = 1
orientation_code orientation_unit_quaternion = 2

-- `enum step_mes_ext_temperature`
pub data TemperatureExt : Type 0 where
  temp_undefined temp_ambient temp_die temp_object : TemperatureExt

-- The values of the extended types.
unfoldable pub temperature_code : TemperatureExt → ℕ
temperature_code temp_undefined = 0
temperature_code temp_ambient = 1
temperature_code temp_die = 2
temperature_code temp_object = 3
