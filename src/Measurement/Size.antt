-- ===== src/Measurement/Size.antt =====
-- The minimum size of a payload, and the validation of a measurement: src/measurement.c.
use step.Common.{
  ℕ, zero, suc, ◌+◌, ◌*◌, ◌%◌, ◌^◌, ltb, leb, ◌==◌, if◌then◌else◌, Bool, false, ◌||◌, Option, none,
  some, [], ◌∷◌, ℤ, pos, negsuc, ok, einval, enospc,
}
use step.Measurement.{Header}
use step.Measurement.Ctype.{
  s8, u8, bool, s16, u16, ieee754_float32, s32, u32, rang_unit_interval_32, rang_percent_32,
  ieee754_float64, s64, u64, complex_32, rang_unit_interval_64, rang_percent_64, ieee754_float128,
  s128, u128, complex_64, one_of,
}
use step.Measurement.Float.{Float, of_int, div, mul, to_single, truncate}

-- `step_mes_sz_ceil`
unfoldable pub sz_ceil : Float → ℕ
unfolding truncate
sz_ceil n =
    let i = truncate n in
    let f = of_int 24 i in if n.man * 2 ^ f.exp == f.man * 2 ^ n.exp then i else i + 1

-- The loop of `step_mes_sz_pow2` with `n` rounds left.
unfoldable pub pow2_from : ℕ → ℕ → ℕ
pow2_from zero x = x
pow2_from (suc n) x = pow2_from n (x * 2 % 2 ^ 32)

-- `step_mes_sz_pow2`
unfoldable pub sz_pow2 : ℕ → ℕ
unfolding pow2_from
sz_pow2 e = pow2_from e 1

-- `step_mes_sz_timestamp`: the codes 1 and 3 take 4 bytes, and 2, 4 and 5 take 8.
unfoldable pub sz_timestamp : ℕ → ℕ
sz_timestamp ts = if ts == 1 || ts == 3 then 4 else if ts == 2 || (ts == 4 || ts == 5) then 8 else 0

-- `step_mes_sz_ctype`
unfoldable pub sz_ctype : ℕ → ℕ
unfolding one_of
sz_ctype c =
    if one_of (s8 ∷ u8 ∷ bool ∷ []) c
    then 1
    else if one_of (s16 ∷ u16 ∷ []) c
    then 2
    else if one_of (ieee754_float32 ∷ s32 ∷ u32 ∷ rang_unit_interval_32 ∷ rang_percent_32 ∷ []) c
    then 4
    else if one_of
        (ieee754_float64 ∷ s64 ∷ u64 ∷ complex_32 ∷ rang_unit_interval_64 ∷ rang_percent_64 ∷ []) c
    then 8
    else if one_of (ieee754_float128 ∷ s128 ∷ u128 ∷ complex_64 ∷ []) c
    then 16
    else 0

-- `(float)len / 3.0F`, passed to `step_mes_sz_ceil`, times 4
unfoldable pub sz_base64 : ℕ → ℕ
unfolding sz_ceil
sz_base64 len = sz_ceil (div 24 (of_int 24 len) (of_int 24 3)) * 4

-- `(float)len * 1.67`, a product of doubles passed as a `float`, but 2 for one byte
unfoldable pub sz_base45 : ℕ → ℕ
unfolding sz_ceil
sz_base45 len =
    let factor = div 53 (of_int 53 167) (of_int 53 100) in
    if len == 1 then 2 else sz_ceil (to_single (mul 53 (of_int 24 len) factor))

-- The switch on the encoding.
unfoldable pub sz_encoded : ℕ → ℕ → ℕ
sz_encoded encoding len =
    if encoding == 1 then sz_base64 len else if encoding == 2 then sz_base45 len else len

-- The bytes of the samples and of the timestamp, before encoding.
unfoldable pub sz_raw : Header → ℕ
sz_raw hdr =
    let cnt = sz_pow2 hdr.srclen.samples in
    let tmp = sz_ctype hdr.unit.ctype in
    let samples = tmp * cnt % 2 ^ 32 in
    let vectors = if hdr.srclen.vec_sz == 0 then samples else samples * (1 + hdr.srclen.vec_sz) in
    let timestamp = hdr.filter.flags.timestamp in
    if timestamp == 0 then vectors else vectors + sz_timestamp timestamp

-- `step_mes_sz_payload`: -1 for an arbitrary sample count, and for a C type of no fixed size.
unfoldable pub sz_payload : Header → ℤ
sz_payload hdr =
    if leb 15 hdr.srclen.samples
    then negsuc 0
    else if sz_ctype hdr.unit.ctype == 0
    then negsuc 0
    else pos (sz_encoded hdr.filter.flags.encoding (sz_raw hdr))

-- The test `(sz >= 0) && (sz > len)`.
abbrev pub exceeds : ℤ → ℕ → Bool
exceeds (pos sz) len = ltb len sz
exceeds (negsuc _) len = false

-- `step_mes_validate`, of a NULL measurement or one with the header.
unfoldable pub validate : Option Header → ℤ
validate none = einval
validate (some hdr) = if exceeds (sz_payload hdr) hdr.srclen.len then enospc else ok
