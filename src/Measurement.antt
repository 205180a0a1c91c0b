-- ===== src/Measurement.antt =====
-- The measurement header of include/step/measurement/measurement.h: its fields, the three words
-- that are unions with them, and the masks over the filter word.
pub mod Words
pub mod Ctype
pub mod Size
pub mod Float
pub mod Base64
pub mod Payload
pub mod Si
pub mod Types
pub mod FieldValues
pub mod Distinct
pub mod Codes
pub mod Named
use step.Common.{ℕ, ◌+◌, ◌-◌, ◌*◌, ◌/◌, ◌%◌, ◌^◌, ◌<◌}

-- The bit-fields `flags` of the filter word.
pub record Flags : Type 0 where
  pub data_format : ℕ
  pub encoding : ℕ
  pub compression : ℕ
  pub timestamp : ℕ
  pub rsvd : ℕ

-- The fields `filter`.
pub record FilterFields : Type 0 where
  pub base_type : ℕ
  pub ext_type : ℕ
  pub flags : Flags

-- The fields `unit`; `scale_factor` is the byte of the `int8_t`.
pub record UnitFields : Type 0 where
  pub si_unit : ℕ
  pub scale_factor : ℕ
  pub ctype : ℕ

-- The fields `srclen`.
pub record SrcLen : Type 0 where
  pub len : ℕ
  pub fragment : ℕ
  pub vec_sz : ℕ
  pub samples : ℕ
  pub sourceid : ℕ

-- `struct step_mes_header`
pub record Header : Type 0 where
  pub filter : FilterFields
  pub unit : UnitFields
  pub srclen : SrcLen

-- `flags_bits`: bit-fields from the lowest bit up.
unfoldable pub flags_bits : Flags → ℕ
flags_bits f =
    f.data_format
    + 2 ^ 3 * f.encoding
    + 2 ^ 7 * f.compression
    + 2 ^ 10 * f.timestamp
    + 2 ^ 13 * f.rsvd

unfoldable pub flags_of_bits : ℕ → Flags
flags_of_bits w = record {
  data_format = w % 2 ^ 3;
  encoding = w / 2 ^ 3 % 2 ^ 4;
  compression = w / 2 ^ 7 % 2 ^ 3;
  timestamp = w / 2 ^ 10 % 2 ^ 3;
  rsvd = w / 2 ^ 13 % 2 ^ 3;
}

-- `filter_bits`: the filter word, little endian.
unfoldable pub filter_bits : FilterFields → ℕ
filter_bits f = f.base_type + 2 ^ 8 * f.ext_type + 2 ^ 16 * flags_bits f.flags

-- The fields that a filter word written through `filter_bits` has.
unfoldable pub filter_of_bits : ℕ → FilterFields
filter_of_bits w = record {
  base_type = w % 2 ^ 8;
  ext_type = w / 2 ^ 8 % 2 ^ 8;
  flags = flags_of_bits (w / 2 ^ 16 % 2 ^ 16);
}

-- `unit_bits`
unfoldable pub unit_bits : UnitFields → ℕ
unit_bits u = u.si_unit + 2 ^ 16 * u.scale_factor + 2 ^ 24 * u.ctype

unfoldable pub unit_of_bits : ℕ → UnitFields
unit_of_bits w = record {
  si_unit = w % 2 ^ 16;
  scale_factor = w / 2 ^ 16 % 2 ^ 8;
  ctype = w / 2 ^ 24 % 2 ^ 8;
}

-- `srclen_bits`
unfoldable pub srclen_bits : SrcLen → ℕ
srclen_bits s =
    s.len + 2 ^ 16 * s.fragment + 2 ^ 18 * s.vec_sz + 2 ^ 20 * s.samples + 2 ^ 24 * s.sourceid

unfoldable pub srclen_of_bits : ℕ → SrcLen
srclen_of_bits w = record {
  len = w % 2 ^ 16;
  fragment = w / 2 ^ 16 % 2 ^ 2;
  vec_sz = w / 2 ^ 18 % 2 ^ 2;
  samples = w / 2 ^ 20 % 2 ^ 4;
  sourceid = w / 2 ^ 24 % 2 ^ 8;
}

-- The masks STEP_MES_MASK_… over the filter word.
pub record Mask : Type 0 where
  pub full_type : ℕ
  pub base_type : ℕ
  pub ext_type : ℕ
  pub flags : ℕ
  pub format : ℕ
  pub encoding : ℕ
  pub compression : ℕ
  pub timestamp : ℕ

abbrev pub mask : Mask
mask = record {
  full_type = 0xFFFF * 2 ^ 0;
  base_type = 0xFF * 2 ^ 0;
  ext_type = 0xFF * 2 ^ 8;
  flags = 0xFFFF * 2 ^ 16;
  format = 0x7 * 2 ^ 16;
  encoding = 0xF * 2 ^ 19;
  compression = 0x7 * 2 ^ 23;
  timestamp = 0x7 * 2 ^ 26;
}
