-- ===== src/Measurement/Words.antt =====
-- The words of the measurement header of include/step/measurement/measurement.h and their
-- fields.
use step.Common.{ℕ, ◌/◌, ◌%◌, ◌^◌, ◌<◌, ◌≡◌, arith}
use step.Measurement.{
  Flags, FilterFields, SrcLen, flags_bits, flags_of_bits, filter_bits, filter_of_bits, srclen_bits,
  srclen_of_bits,
}

-- The fields fit their widths.
pub record IsFlags (f : Flags) : Type 0 where
  pub data_format : f.data_format < 2 ^ 3
  pub encoding : f.encoding < 2 ^ 4
  pub compression : f.compression < 2 ^ 3
  pub timestamp : f.timestamp < 2 ^ 3
  pub rsvd : f.rsvd < 2 ^ 3

pub record IsFilterFields (f : FilterFields) : Type 0 where
  pub base_type : f.base_type < 2 ^ 8
  pub ext_type : f.ext_type < 2 ^ 8
  pub flags : IsFlags f.flags

pub record IsSrcLen (s : SrcLen) : Type 0 where
  pub len : s.len < 2 ^ 16
  pub fragment : s.fragment < 2 ^ 2
  pub vec_sz : s.vec_sz < 2 ^ 2
  pub samples : s.samples < 2 ^ 4
  pub sourceid : s.sourceid < 2 ^ 8

flags_bits-lt : (f : Flags) → IsFlags f → flags_bits f < 2 ^ 16
unfolding flags_bits
flags_bits-lt f h = omega arith

flags_of_bits-flags_bits : (f : Flags) → IsFlags f → flags_of_bits (flags_bits f) ≡ f
unfolding flags_bits flags_of_bits
flags_of_bits-flags_bits f h = λ i. record {
  data_format = a i;
  encoding = b i;
  compression = c i;
  timestamp = d i;
  rsvd = e i;
}
  where
    w : ℕ
    w = flags_bits f

    a : w % 2 ^ 3 ≡ f.data_format
    a = omega arith

    b : w / 2 ^ 3 % 2 ^ 4 ≡ f.encoding
    b = omega arith

    c : w / 2 ^ 7 % 2 ^ 3 ≡ f.compression
    c = omega arith

    d : w / 2 ^ 10 % 2 ^ 3 ≡ f.timestamp
    d = omega arith

    e : w / 2 ^ 13 % 2 ^ 3 ≡ f.rsvd
    e = omega arith

flags_bits-flags_of_bits : (w : ℕ) → w < 2 ^ 16 → flags_bits (flags_of_bits w) ≡ w
unfolding flags_bits flags_of_bits
flags_bits-flags_of_bits w h = omega arith

-- Fields that fit their widths are read back from the filter word that they are written to.
pub filter_of_bits-filter_bits :
    (f : FilterFields) → IsFilterFields f → filter_of_bits (filter_bits f) ≡ f
unfolding filter_bits filter_of_bits
filter_of_bits-filter_bits f h = λ i. record { base_type = a i; ext_type = b i; flags = c i }
  where
    w : ℕ
    w = filter_bits f

    l : flags_bits f.flags < 2 ^ 16
    l = flags_bits-lt f.flags h.flags

    a : w % 2 ^ 8 ≡ f.base_type
    a = omega arith

    b : w / 2 ^ 8 % 2 ^ 8 ≡ f.ext_type
    b = omega arith

    fl : w / 2 ^ 16 % 2 ^ 16 ≡ flags_bits f.flags
    fl = omega (arith, l)

    c : flags_of_bits (w / 2 ^ 16 % 2 ^ 16) ≡ f.flags
    c = rw fl (flags_of_bits-flags_bits f.flags h.flags)

-- A filter word of 32 bits is that of the fields that are read from it.
pub filter_bits-filter_of_bits : (w : ℕ) → w < 2 ^ 32 → filter_bits (filter_of_bits w) ≡ w
unfolding filter_bits filter_of_bits
filter_bits-filter_of_bits w h =
    omega (arith, flags_bits-flags_of_bits (w / 2 ^ 16 % 2 ^ 16) (omega arith))

-- A source and length word of 32 bits is that of the fields that are read from it.
pub srclen_bits-srclen_of_bits : (w : ℕ) → w < 2 ^ 32 → srclen_bits (srclen_of_bits w) ≡ w
unfolding srclen_bits srclen_of_bits
srclen_bits-srclen_of_bits w h = omega arith
