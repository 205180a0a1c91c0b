-- ===== src/Measurement/Named.antt =====
-- The filter word of a measurement written from enumerators of include/step/measurement: base.h
-- and measurement.h.
use step.Common.{ℕ, ◌≡◌, ◌∙◌, sym, ap, ◌<◌, ◌^◌, arith}
use step.Measurement.{FilterFields, filter_bits, filter_of_bits}
use step.Measurement.Words.{IsFilterFields, filter_of_bits-filter_bits}
use step.Measurement.Types.{MesType, type_code}
use step.Measurement.FieldValues.{
  Format, format_code, Encoding, encoding_code, Compression, compression_code, Timestamp,
  timestamp_code,
}
use step.Measurement.Codes.{
  type_code-injective, type_code-lt, format_code-injective, format_code-lt, encoding_code-injective,
  encoding_code-lt, compression_code-injective, compression_code-lt, timestamp_code-injective,
  timestamp_code-lt,
}

-- The fields of a filter word, the reserved bits 0.
unfoldable pub named : MesType → ℕ → Format → Encoding → Compression → Timestamp → FilterFields
named t x f e c s = record {
  base_type = type_code t;
  ext_type = x;
  flags = record {
    data_format = format_code f;
    encoding = encoding_code e;
    compression = compression_code c;
    timestamp = timestamp_code s;
    rsvd = 0;
  };
}

named-IsFilterFields :
    (t : MesType) (x : ℕ) (f : Format) (e : Encoding) (c : Compression) (s : Timestamp)
    → x < 2 ^ 8
    → IsFilterFields (named t x f e c s)
unfolding named
named-IsFilterFields t x f e c s h = record {
  base_type = type_code-lt t;
  ext_type = h;
  flags = record {
    data_format = format_code-lt f;
    encoding = encoding_code-lt e;
    compression = compression_code-lt c;
    timestamp = timestamp_code-lt s;
    rsvd = omega arith;
  };
}

-- Two filter words written from enumerators are equal only if they have the same base type,
-- extended type, format, encoding, compression and timestamp.
pub filter_bits-named :
    (t t' : MesType) (x x' : ℕ) (f f' : Format) (e e' : Encoding) (c c' : Compression)
    (s s' : Timestamp)
    → x < 2 ^ 8
    → x' < 2 ^ 8
    → filter_bits (named t x f e c s) ≡ filter_bits (named t' x' f' e' c' s')
    → (t ≡ t') × (x ≡ x') × (f ≡ f') × (e ≡ e') × (c ≡ c') × (s ≡ s')
unfolding named
filter_bits-named t t' x x' f f' e e' c c' s s' h h' q =
    let one = filter_of_bits-filter_bits (named t x f e c s) (named-IsFilterFields t x f e c s h) in
    let two =
      filter_of_bits-filter_bits (named t' x' f' e' c' s')
        (named-IsFilterFields t' x' f' e' c' s' h') in
    let same : named t x f e c s ≡ named t' x' f' e' c' s' = sym one ∙ ap filter_of_bits q ∙ two in
    (
      type_code-injective t t' (ap (λ r. r.base_type) same),
      ap (λ r. r.ext_type) same,
      format_code-injective f f' (ap (λ r. r.flags.data_format) same),
      encoding_code-injective e e' (ap (λ r. r.flags.encoding) same),
      compression_code-injective c c' (ap (λ r. r.flags.compression) same),
      timestamp_code-injective s s' (ap (λ r. r.flags.timestamp) same),
    )
