-- ===== src/Measurement/Payload/Named.antt =====
-- The sizes of src/measurement.c against the widths that the names of include/step/measurement say.
use step.Common.{
  ℕ, ◌+◌, ◌*◌, ◌^◌, ◌/◌, ◌<◌, ◌≤◌, ◌≡◌, ◌≢◌, refl, ◌↔◌, ◌⊎◌, inl, inr, ◌==◌, ==_iff, leb,
  Bool-cases, some, pos, negsuc, ok, enospc, arith,
}
use step.Measurement.{Header, SrcLen}
use step.Measurement.Ctype.{
  Ctype, code, one_of, undefined, ieee754_float32, ieee754_float64, ieee754_float128, s8, s16, s32,
  s64, s128, u8, u16, u32, u64, u128, bool, complex_32, complex_64, rang_unit_interval_32,
  rang_unit_interval_64, rang_percent_32, rang_percent_64, user_1, user_2, user_3, user_4, user_5,
  user_6, user_7, user_8, user_9, user_10, user_11, user_12, user_13, user_14, user_15, max,
}
use step.Measurement.FieldValues.{
  Timestamp, timestamp_code, timestamp_none, timestamp_epoch_32, timestamp_epoch_64,
  timestamp_uptime_ms_32, timestamp_uptime_ms_64, timestamp_uptime_us_64,
}
use step.Measurement.Size.{sz_ctype, sz_timestamp, sz_payload, validate}
use step.Measurement.Payload.{raw_size, encoded_size, sz_payload-encoded, verdict}

-- The bits of a number of a type by its name, in bytes; a complex number is two of them. Types of the
-- user have no fixed size.
unfoldable pub width : Ctype → ℕ
width ieee754_float32 = 32 / 8
width ieee754_float64 = 64 / 8
width ieee754_float128 = 128 / 8
width s8 = 8 / 8
width s16 = 16 / 8
width s32 = 32 / 8
width s64 = 64 / 8
width s128 = 128 / 8
width u8 = 8 / 8
width u16 = 16 / 8
width u32 = 32 / 8
width u64 = 64 / 8
width u128 = 128 / 8
width bool = 1
width complex_32 = 2 * 32 / 8
width complex_64 = 2 * 64 / 8
width rang_unit_interval_32 = 32 / 8
width rang_unit_interval_64 = 64 / 8
width rang_percent_32 = 32 / 8
width rang_percent_64 = 64 / 8
width c = 0

unfoldable pub timestamp_width : Timestamp → ℕ
timestamp_width timestamp_none = 0
timestamp_width timestamp_epoch_32 = 32 / 8
timestamp_width timestamp_uptime_ms_32 = 32 / 8
timestamp_width timestamp_epoch_64 = 64 / 8
timestamp_width timestamp_uptime_ms_64 = 64 / 8
timestamp_width timestamp_uptime_us_64 = 64 / 8

sz_ctype-width : (c : Ctype) → sz_ctype (code c) ≡ width c
unfolding sz_ctype one_of code width
sz_ctype-width undefined = refl
sz_ctype-width ieee754_float32 = refl
sz_ctype-width ieee754_float64 = refl
sz_ctype-width ieee754_float128 = refl
sz_ctype-width s8 = refl
sz_ctype-width s16 = refl
sz_ctype-width s32 = refl
sz_ctype-width s64 = refl
sz_ctype-width s128 = refl
sz_ctype-width u8 = refl
sz_ctype-width u16 = refl
sz_ctype-width u32 = refl
sz_ctype-width u64 = refl
sz_ctype-width u128 = refl
sz_ctype-width bool = refl
sz_ctype-width complex_32 = refl
sz_ctype-width complex_64 = refl
sz_ctype-width rang_unit_interval_32 = refl
sz_ctype-width rang_unit_interval_64 = refl
sz_ctype-width rang_percent_32 = refl
sz_ctype-width rang_percent_64 = refl
sz_ctype-width user_1 = refl
sz_ctype-width user_2 = refl
sz_ctype-width user_3 = refl
sz_ctype-width user_4 = refl
sz_ctype-width user_5 = refl
sz_ctype-width user_6 = refl
sz_ctype-width user_7 = refl
sz_ctype-width user_8 = refl
sz_ctype-width user_9 = refl
sz_ctype-width user_10 = refl
sz_ctype-width user_11 = refl
sz_ctype-width user_12 = refl
sz_ctype-width user_13 = refl
sz_ctype-width user_14 = refl
sz_ctype-width user_15 = refl
sz_ctype-width max = refl

sz_timestamp-width : (t : Timestamp) → sz_timestamp (timestamp_code t) ≡ timestamp_width t
unfolding sz_timestamp timestamp_code timestamp_width
sz_timestamp-width timestamp_none = refl
sz_timestamp-width timestamp_epoch_32 = refl
sz_timestamp-width timestamp_epoch_64 = refl
sz_timestamp-width timestamp_uptime_ms_32 = refl
sz_timestamp-width timestamp_uptime_ms_64 = refl
sz_timestamp-width timestamp_uptime_us_64 = refl

-- A header written from enumerators, with a count and a size of the vectors that fit their fields.
pub record IsOf (hdr : Header) (c : Ctype) (t : Timestamp) : Type 0 where
  pub ctype : hdr.unit.ctype ≡ code c
  pub timestamp : hdr.filter.flags.timestamp ≡ timestamp_code t
  pub samples : hdr.srclen.samples < 16
  pub vec_sz : hdr.srclen.vec_sz < 4

-- The bytes of 2 ^ samples vectors of 1 + vec_sz numbers of the type, and of the timestamp.
pub bytes : Ctype → Timestamp → SrcLen → ℕ
bytes c t s = width c * 2 ^ s.samples * (1 + s.vec_sz) + timestamp_width t

raw_size-bytes :
    (hdr : Header) (c : Ctype) (t : Timestamp) → IsOf hdr c t → raw_size hdr ≡ bytes c t hdr.srclen
unfolding raw_size bytes
raw_size-bytes hdr c t h = rw (h.ctype, h.timestamp, sz_ctype-width c, sz_timestamp-width t) refl

-- For a header written from enumerators, and an encoding other than BASE45: `step_mes_sz_payload`
-- returns -1 if the count of the samples is arbitrary or the type has no fixed size, and otherwise
-- exactly the encoded length of the samples and the timestamp, in the widths that the names of the
-- types say.
pub sz_payload_lem :
    (hdr : Header) (c : Ctype) (t : Timestamp)
    → IsOf hdr c t
    → hdr.filter.flags.encoding ≢ 2
    → (((hdr.srclen.samples ≡ 15) ⊎ (width c ≡ 0)) × (sz_payload hdr ≡ negsuc 0))
      ⊎ ((hdr.srclen.samples < 15)
          × (width c ≢ 0)
          × (sz_payload hdr ≡ pos (encoded_size hdr.filter.flags.encoding (bytes c t hdr.srclen))))
unfolding sz_payload
sz_payload_lem hdr c t h ne =
    let same : sz_ctype hdr.unit.ctype ≡ width c = rw h.ctype (sz_ctype-width c) in
    elim (Bool-cases (leb 15 hdr.srclen.samples)) [
      | inl many ↦
          let fifteen : hdr.srclen.samples ≡ 15 = ground (arith, many, h.samples) in
          inl (inl fifteen, rw (many, sz_payload) refl)
      | inr few ↦ elim (Bool-cases (width c == 0)) [
        | inl z ↦ inl (inr ((==_iff (width c) 0).0 z), rw (few, same, z, sz_payload) refl)
        | inr nz ↦
            let below : hdr.srclen.samples < 15 = ground (arith, few) in
            let fixed : width c ≢ 0 = λ q. ground (arith, nz, q) in
            inr (
              below,
              fixed,
              rw (← raw_size-bytes hdr c t h) (
                  sz_payload-encoded hdr
                    (record { samples = below; vec_sz = h.vec_sz; ctype = rw same fixed }) ne),
            )
      ]
    ]

-- For a header written from enumerators, and an encoding other than BASE45: `step_mes_validate`
-- accepts it if the count of the samples is arbitrary or the type has no fixed size; otherwise it
-- accepts it exactly if the payload holds the encoded samples and the timestamp, in the widths that
-- the names of the types say, and else answers ENOSPC.
pub validate_lem :
    (hdr : Header) (c : Ctype) (t : Timestamp)
    → IsOf hdr c t
    → hdr.filter.flags.encoding ≢ 2
    → (((hdr.srclen.samples ≡ 15) ⊎ (width c ≡ 0)) × (validate (some hdr) ≡ ok))
      ⊎ ((hdr.srclen.samples < 15)
          × (width c ≢ 0)
          × ((validate (some hdr) ≡ ok)
              ↔ (encoded_size hdr.filter.flags.encoding (bytes c t hdr.srclen) ≤ hdr.srclen.len))
          × ((validate (some hdr) ≡ enospc)
              ↔ (hdr.srclen.len < encoded_size hdr.filter.flags.encoding (bytes c t hdr.srclen))))
unfolding validate
validate_lem hdr c t h ne = elim (sz_payload_lem hdr c t h ne) [
  | inl (why, e) ↦ inl (why, rw (e, validate) refl)
  | inr (below, fixed, e) ↦
      let v =
        verdict (encoded_size hdr.filter.flags.encoding (bytes c t hdr.srclen)) hdr.srclen.len in
      inr (below, fixed, rw e v.0, rw e v.1)
]
