-- ===== src/Measurement/FieldValues.antt =====
-- The values of the bit-fields of the header: the enumerations of
-- include/step/measurement/measurement.h.
use step.Common.{ℕ}

-- `enum step_mes_format`
pub data Format : Type 0 where
  format_none format_cbor : Format

-- The values of the enumerators.
unfoldable pub format_code : Format → ℕ
format_code format_none = 0
format_code format_cbor = 1

-- `enum step_mes_encoding`
pub data Encoding : Type 0 where
  encoding_none encoding_base64 encoding_base45 : Encoding

-- The values of the enumerators.
unfoldable pub encoding_code : Encoding → ℕ
encoding_code encoding_none = 0
encoding_code encoding_base64 = 1
encoding_code encoding_base45 = 2

-- `enum step_mes_compression`
pub data Compression : Type 0 where
  compression_none compression_lz4 : Compression

-- The values of the enumerators.
unfoldable pub compression_code : Compression → ℕ
compression_code compression_none = 0
compression_code compression_lz4 = 1

-- `enum step_mes_timestamp`
pub data Timestamp : Type 0 where
  timestamp_none timestamp_epoch_32 timestamp_epoch_64 timestamp_uptime_ms_32
        timestamp_uptime_ms_64 :
      Timestamp
  timestamp_uptime_us_64 : Timestamp

-- The values of the enumerators.
unfoldable pub timestamp_code : Timestamp → ℕ
timestamp_code timestamp_none = 0
timestamp_code timestamp_epoch_32 = 1
timestamp_code timestamp_epoch_64 = 2
timestamp_code timestamp_uptime_ms_32 = 3
timestamp_code timestamp_uptime_ms_64 = 4
timestamp_code timestamp_uptime_us_64 = 5

-- `enum step_mes_fragment`
pub data Fragment : Type 0 where
  fragment_none fragment_partial fragment_final : Fragment

-- The values of the enumerators.
unfoldable pub fragment_code : Fragment → ℕ
fragment_code fragment_none = 0
fragment_code fragment_partial = 1
fragment_code fragment_final = 2

-- `enum step_mes_vector_sz`
pub data VectorSz : Type 0 where
  vector_sz_none vector_sz_2 vector_sz_3 vector_sz_4 : VectorSz

-- The values of the enumerators.
unfoldable pub vector_sz_code : VectorSz → ℕ
vector_sz_code vector_sz_none = 0
vector_sz_code vector_sz_2 = 1
vector_sz_code vector_sz_3 = 2
vector_sz_code vector_sz_4 = 3
