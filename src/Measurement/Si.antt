-- ===== src/Measurement/Si.antt =====
-- The SI units and scales of measurements: include/step/measurement/unit.h.
use step.Common.{ℕ, ℤ, pos, negsuc}

-- `enum step_mes_unit_si`
pub data SiUnit : Type 0 where
  undefined ampere candela kelvin kilogram meter mole second becquerel coulomb degree_celsius :
      SiUnit
  farad gray henry hertz joule katal lumen lux newton ohm pascal radian siemens sievert : SiUnit
  steradian tesla volt watt weber percent interval degree meters_2 meter_per_second_2 : SiUnit
  relative_humidity candela_per_meter_2 joule_per_meter_2 joule_per_meter_2_per_hz : SiUnit
  joule_per_meter_2_per_nm joule_per_meter_3 lumen_per_meter_2 lumen_per_watt lumen_second : SiUnit
  lumen_second_per_meter_3 lux_second watts_per_hertz watts_per_meter_2 watts_per_meter_2_per_hz :
      SiUnit
  watts_per_meter_2_per_nm watts_per_nm watts_per_steradian watts_per_steradian_per_hertz : SiUnit
  watts_per_steradian_per_meter_2 watts_per_steradian_per_meter_2_per_hz
        watts_per_steradian_per_meter_2_per_nm :
      SiUnit
  watts_per_steradian_per_nm microtesla grams hectopascal meters_3_second millivolts : SiUnit
  meters_3 ph siemens_per_meter user_defined_1 user_defined_255 max : SiUnit

-- The values of the units.
unfoldable pub si_code : SiUnit → ℕ
si_code undefined = 0
si_code ampere = 0x10
si_code candela = 0x11
si_code kelvin = 0x12
si_code kilogram = 0x13
si_code meter = 0x14
si_code mole = 0x15
si_code second = 0x16
si_code becquerel = 0x20
si_code coulomb = 0x21
si_code degree_celsius = 0x22
si_code farad = 0x23
si_code gray = 0x24
si_code henry = 0x25
si_code hertz = 0x26
si_code joule = 0x27
si_code katal = 0x28
si_code lumen = 0x29
si_code lux = 0x2A
si_code newton = 0x2B
si_code ohm = 0x2C
si_code pascal = 0x2D
si_code radian = 0x2E
si_code siemens = 0x2F
si_code sievert = 0x30
si_code steradian = 0x31
si_code tesla = 0x32
si_code volt = 0x33
si_code watt = 0x34
si_code weber = 0x35
si_code percent = 0x80
si_code interval = 0x81
si_code degree = 0x82
si_code meters_2 = 0x1000
si_code meter_per_second_2 = 0x1100
si_code relative_humidity = 0x1900
si_code candela_per_meter_2 = 0x1B00
si_code joule_per_meter_2 = 0x1B01
si_code joule_per_meter_2_per_hz = 0x1B02
si_code joule_per_meter_2_per_nm = 0x1B03
si_code joule_per_meter_3 = 0x1B04
si_code lumen_per_meter_2 = 0x1B05
si_code lumen_per_watt = 0x1B06
si_code lumen_second = 0x1B07
si_code lumen_second_per_meter_3 = 0x1B08
si_code lux_second = 0x1B09
si_code watts_per_hertz = 0x1B0A
si_code watts_per_meter_2 = 0x1B0B
si_code watts_per_meter_2_per_hz = 0x1B0C
si_code watts_per_meter_2_per_nm = 0x1B0D
si_code watts_per_nm = 0x1B0E
si_code watts_per_steradian = 0x1B0F
si_code watts_per_steradian_per_hertz = 0x1B10
si_code watts_per_steradian_per_meter_2 = 0x1B11
si_code watts_per_steradian_per_meter_2_per_hz = 0x1B12
si_code watts_per_steradian_per_meter_2_per_nm = 0x1B13
si_code watts_per_steradian_per_nm = 0x1B14
si_code microtesla = 0x1C00
si_code grams = 0x1D00
si_code hectopascal = 0x2100
si_code meters_3_second = 0x2601
si_code millivolts = 0x2700
si_code meters_3 = 0x2800
si_code ph = 0x2900
si_code siemens_per_meter = 0x2A00
si_code user_defined_1 = 0xFF00
si_code user_defined_255 = 0xFFFE
si_code max = 0xFFFF

-- `enum step_mes_si_scale`
pub data SiScale : Type 0 where
  yotta zetta exa peta tera giga mega kilo hecto deca no_scale deci centi milli micro : SiScale
  nano pico femto atto zepto yocto : SiScale

-- The powers of ten of the scales.
unfoldable pub scale_value : SiScale → ℤ
scale_value yotta = pos 24
scale_value zetta = pos 21
scale_value exa = pos 18
scale_value peta = pos 15
scale_value tera = pos 12
scale_value giga = pos 9
scale_value mega = pos 6
scale_value kilo = pos 3
scale_value hecto = pos 2
scale_value deca = pos 1
scale_value no_scale = pos 0
scale_value deci = negsuc 0
scale_value centi = negsuc 1
scale_value milli = negsuc 2
scale_value micro = negsuc 5
scale_value nano = negsuc 8
scale_value pico = negsuc 11
scale_value femto = negsuc 14
scale_value atto = negsuc 17
scale_value zepto = negsuc 20
scale_value yocto = negsuc 23
