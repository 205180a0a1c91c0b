-- ===== src/Measurement/Codes.antt =====
-- The values of the enumerators of include/step/measurement/base.h and measurement.h, as
-- values of the fields of the filter word.
use step.Common.{◌≡◌, refl, ◌<◌, ◌^◌, some, List, [], ◌∷◌, arith}
use step.Measurement.Distinct.{find, find-injective}
use step.Measurement.Types.{
  MesType, type_code, undefined, area, acceleration, amplitude, capacitance, color, coordinates,
  current, dimension, frequency, humidity, inductance, light, magnetic_field, mass, momentum,
  orientation, phase, pressure, resistance, sound, temperature, time, velocity, voltage, volume,
  acidity, conductivity, force, energy, user_1, user_2, user_3, user_4, user_5, user_6, user_7,
  user_8, user_9, user_10, user_11, user_12, user_13, user_14, user_15, last,
}
use step.Measurement.FieldValues.{
  Format, format_code, Encoding, encoding_code, Compression, compression_code, Timestamp,
  timestamp_code, format_none, format_cbor, encoding_none, encoding_base64, encoding_base45,
  compression_none, compression_lz4, timestamp_none, timestamp_epoch_32, timestamp_epoch_64,
  timestamp_uptime_ms_32, timestamp_uptime_ms_64, timestamp_uptime_us_64,
}

unfoldable all_type_code : List MesType
all_type_code =
    undefined ∷ area ∷ acceleration ∷ amplitude ∷ capacitance ∷ color ∷ coordinates ∷ current
    ∷ dimension ∷ frequency ∷ humidity ∷ inductance ∷ light ∷ magnetic_field ∷ mass ∷ momentum
    ∷ orientation ∷ phase ∷ pressure ∷ resistance ∷ sound ∷ temperature ∷ time ∷ velocity ∷ voltage
    ∷ volume ∷ acidity ∷ conductivity ∷ force ∷ energy ∷ user_1 ∷ user_2 ∷ user_3 ∷ user_4 ∷ user_5
    ∷ user_6 ∷ user_7 ∷ user_8 ∷ user_9 ∷ user_10 ∷ user_11 ∷ user_12 ∷ user_13 ∷ user_14 ∷ user_15
    ∷ last ∷ []

find-type_code : (c : MesType) → find type_code (type_code c) all_type_code ≡ some c
unfolding find type_code all_type_code
find-type_code undefined = refl
find-type_code area = refl
find-type_code acceleration = refl
find-type_code amplitude = refl
find-type_code capacitance = refl
find-type_code color = refl
find-type_code coordinates = refl
find-type_code current = refl
find-type_code dimension = refl
find-type_code frequency = refl
find-type_code humidity = refl
find-type_code inductance = refl
find-type_code light = refl
find-type_code magnetic_field = refl
find-type_code mass = refl
find-type_code momentum = refl
find-type_code orientation = refl
find-type_code phase = refl
find-type_code pressure = refl
find-type_code resistance = refl
find-type_code sound = refl
find-type_code temperature = refl
find-type_code time = refl
find-type_code velocity = refl
find-type_code voltage = refl
find-type_code volume = refl
find-type_code acidity = refl
find-type_code conductivity = refl
find-type_code force = refl
find-type_code energy = refl
find-type_code user_1 = refl
find-type_code user_2 = refl
find-type_code user_3 = refl
find-type_code user_4 = refl
find-type_code user_5 = refl
find-type_code user_6 = refl
find-type_code user_7 = refl
find-type_code user_8 = refl
find-type_code user_9 = refl
find-type_code user_10 = refl
find-type_code user_11 = refl
find-type_code user_12 = refl
find-type_code user_13 = refl
find-type_code user_14 = refl
find-type_code user_15 = refl
find-type_code last = refl

pub type_code-injective : (c d : MesType) → type_code c ≡ type_code d → c ≡ d
type_code-injective c d h =
    find-injective type_code all_type_code (find-type_code c) (find-type_code d) h

pub type_code-lt : (c : MesType) → type_code c < 2 ^ 8
unfolding type_code
type_code-lt undefined = omega arith
type_code-lt area = omega arith
type_code-lt acceleration = omega arith
type_code-lt amplitude = omega arith
type_code-lt capacitance = omega arith
type_code-lt color = omega arith
type_code-lt coordinates = omega arith
type_code-lt current = omega arith
type_code-lt dimension = omega arith
type_code-lt frequency = omega arith
type_code-lt humidity = omega arith
type_code-lt inductance = omega arith
type_code-lt light = omega arith
type_code-lt magnetic_field = omega arith
type_code-lt mass = omega arith
type_code-lt momentum = omega arith
type_code-lt orientation = omega arith
type_code-lt phase = omega arith
type_code-lt pressure = omega arith
type_code-lt resistance = omega arith
type_code-lt sound = omega arith
type_code-lt temperature = omega arith
type_code-lt time = omega arith
type_code-lt velocity = omega arith
type_code-lt voltage = omega arith
type_code-lt volume = omega arith
type_code-lt acidity = omega arith
type_code-lt conductivity = omega arith
type_code-lt force = omega arith
type_code-lt energy = omega arith
type_code-lt user_1 = omega arith
type_code-lt user_2 = omega arith
type_code-lt user_3 = omega arith
type_code-lt user_4 = omega arith
type_code-lt user_5 = omega arith
type_code-lt user_6 = omega arith
type_code-lt user_7 = omega arith
type_code-lt user_8 = omega arith
type_code-lt user_9 = omega arith
type_code-lt user_10 = omega arith
type_code-lt user_11 = omega arith
type_code-lt user_12 = omega arith
type_code-lt user_13 = omega arith
type_code-lt user_14 = omega arith
type_code-lt user_15 = omega arith
type_code-lt last = omega arith

unfoldable all_format_code : List Format
all_format_code = format_none ∷ format_cbor ∷ []

find-format_code : (c : Format) → find format_code (format_code c) all_format_code ≡ some c
unfolding find format_code all_format_code
find-format_code format_none = refl
find-format_code format_cbor = refl

pub format_code-injective : (c d : Format) → format_code c ≡ format_code d → c ≡ d
format_code-injective c d h =
    find-injective format_code all_format_code (find-format_code c) (find-format_code d) h

pub format_code-lt : (c : Format) → format_code c < 2 ^ 3
unfolding format_code
format_code-lt format_none = omega arith
format_code-lt format_cbor = omega arith

unfoldable all_encoding_code : List Encoding
all_encoding_code = encoding_none ∷ encoding_base64 ∷ encoding_base45 ∷ []

find-encoding_code :
    (c : Encoding) → find encoding_code (encoding_code c) all_encoding_code ≡ some c
unfolding find encoding_code all_encoding_code
find-encoding_code encoding_none = refl
find-encoding_code encoding_base64 = refl
find-encoding_code encoding_base45 = refl

pub encoding_code-injective : (c d : Encoding) → encoding_code c ≡ encoding_code d → c ≡ d
encoding_code-injective c d h =
    find-injective encoding_code all_encoding_code (find-encoding_code c) (find-encoding_code d) h

pub encoding_code-lt : (c : Encoding) → encoding_code c < 2 ^ 4
unfolding encoding_code
encoding_code-lt encoding_none = omega arith
encoding_code-lt encoding_base64 = omega arith
encoding_code-lt encoding_base45 = omega arith

unfoldable all_compression_code : List Compression
all_compression_code = compression_none ∷ compression_lz4 ∷ []

find-compression_code :
    (c : Compression) → find compression_code (compression_code c) all_compression_code ≡ some c
unfolding find compression_code all_compression_code
find-compression_code compression_none = refl
find-compression_code compression_lz4 = refl

pub compression_code-injective :
    (c d : Compression) → compression_code c ≡ compression_code d → c ≡ d
compression_code-injective c d h =
    find-injective compression_code all_compression_code (find-compression_code c)
      (find-compression_code d) h

pub compression_code-lt : (c : Compression) → compression_code c < 2 ^ 3
unfolding compression_code
compression_code-lt compression_none = omega arith
compression_code-lt compression_lz4 = omega arith

unfoldable all_timestamp_code : List Timestamp
all_timestamp_code =
    timestamp_none ∷ timestamp_epoch_32 ∷ timestamp_epoch_64 ∷ timestamp_uptime_ms_32
    ∷ timestamp_uptime_ms_64 ∷ timestamp_uptime_us_64 ∷ []

find-timestamp_code :
    (c : Timestamp) → find timestamp_code (timestamp_code c) all_timestamp_code ≡ some c
unfolding find timestamp_code all_timestamp_code
find-timestamp_code timestamp_none = refl
find-timestamp_code timestamp_epoch_32 = refl
find-timestamp_code timestamp_epoch_64 = refl
find-timestamp_code timestamp_uptime_ms_32 = refl
find-timestamp_code timestamp_uptime_ms_64 = refl
find-timestamp_code timestamp_uptime_us_64 = refl

pub timestamp_code-injective : (c d : Timestamp) → timestamp_code c ≡ timestamp_code d → c ≡ d
timestamp_code-injective c d h =
    find-injective timestamp_code all_timestamp_code (find-timestamp_code c) (find-timestamp_code d)
      h

pub timestamp_code-lt : (c : Timestamp) → timestamp_code c < 2 ^ 3
unfolding timestamp_code
timestamp_code-lt timestamp_none = omega arith
timestamp_code-lt timestamp_epoch_32 = omega arith
timestamp_code-lt timestamp_epoch_64 = omega arith
timestamp_code-lt timestamp_uptime_ms_32 = omega arith
timestamp_code-lt timestamp_uptime_ms_64 = omega arith
timestamp_code-lt timestamp_uptime_us_64 = omega arith
