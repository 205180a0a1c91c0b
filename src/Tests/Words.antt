-- ===== src/Tests/Words.antt =====
-- Tests of the measurement header.
use step.Common.{ℕ, ◌<◌, ◌≤◌, ◌≡◌, ◌↔◌, ◌≢◌, ◌⊎◌, negsuc, refl, some, ok, enospc, pos, arith}
use step.Measurement.{Header, FilterFields}
use step.Measurement.Words.{IsFilterFields}
use step.Measurement.Size.{sz_payload, validate}
use step.Measurement.Ctype.{code, ieee754_float32}
use step.Measurement.Payload.{encoded_size}
use step.Measurement.Payload.Named.{IsOf, bytes, width, sz_payload_lem, validate_lem}
use step.Measurement.Types.{pressure}
use step.Measurement.FieldValues.{
  format_none, encoding_base64, compression_none, timestamp_none, timestamp_code,
  timestamp_epoch_32,
}
use step.Measurement.Named.{filter_bits-named}
use step.SamplePool.{zero_header}
use step.Tests.Samples.{sample_header}

abbrev fields : FilterFields
fields = sample_header.filter

fields-IsFilterFields : IsFilterFields fields
fields-IsFilterFields = record {
  base_type = omega arith;
  ext_type = omega arith;
  flags = record {
    data_format = omega arith;
    encoding = omega arith;
    compression = omega arith;
    timestamp = omega arith;
    rsvd = omega arith;
  };
}

-- Eight vectors of three `float`s in BASE64, with a timestamp of 4 bytes.
abbrev vectors : Header
vectors =
    let f = zero_header.filter in
    let g = zero_header.filter.flags in
    let u = zero_header.unit in
    let s = zero_header.srclen in
    record {
      filter = record f { flags = record g { encoding = 1; timestamp = 1 } };
      unit = record u { ctype = 0x10 };
      srclen = record s { len = 136; vec_sz = 2; samples = 3 };
    }

vectors-IsOf : IsOf vectors ieee754_float32 timestamp_epoch_32
unfolding code timestamp_code
vectors-IsOf = record {
  ctype = refl;
  timestamp = refl;
  samples = omega arith;
  vec_sz = omega arith;
}

abbrev all_bytes : ℕ
all_bytes = encoded_size 1 (bytes ieee754_float32 timestamp_epoch_32 vectors.srclen)

sz_payload_lem_example :
    (((vectors.srclen.samples ≡ 15) ⊎ (width ieee754_float32 ≡ 0))
      × (sz_payload vectors ≡ negsuc 0))
    ⊎ ((3 < 15) × (width ieee754_float32 ≢ 0) × (sz_payload vectors ≡ pos all_bytes))
sz_payload_lem_example =
    sz_payload_lem vectors ieee754_float32 timestamp_epoch_32 vectors-IsOf
      (λ e. absurd (omega arith))

validate_lem_example :
    (((vectors.srclen.samples ≡ 15) ⊎ (width ieee754_float32 ≡ 0)) × (validate (some vectors) ≡ ok))
    ⊎ ((3 < 15)
        × (width ieee754_float32 ≢ 0)
        × ((validate (some vectors) ≡ ok) ↔ (all_bytes ≤ 136))
        × ((validate (some vectors) ≡ enospc) ↔ (136 < all_bytes)))
validate_lem_example =
    validate_lem vectors ieee754_float32 timestamp_epoch_32 vectors-IsOf (λ e. absurd (omega arith))

abbrev extended : ℕ
extended = 7

filter_bits-named_example :
    (pressure ≡ pressure)
    × (extended ≡ extended)
    × (format_none ≡ format_none)
    × (encoding_base64 ≡ encoding_base64)
    × (compression_none ≡ compression_none)
    × (timestamp_none ≡ timestamp_none)
filter_bits-named_example =
    filter_bits-named pressure pressure extended extended format_none format_none encoding_base64
      encoding_base64 compression_none compression_none timestamp_none timestamp_none (omega arith)
      (omega arith) refl
