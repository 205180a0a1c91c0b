-- ===== src/Measurement/Payload.antt =====
-- What `step_mes_sz_payload` of src/measurement.c computes, in exact arithmetic.
pub mod Named
use native.Mathlib.Nat.{pow-suc, add-zero, add-suc}
use step.Common.{
  ℕ, zero, suc, ◌+◌, ◌-◌, ◌*◌, ◌/◌, ◌%◌, ◌^◌, ◌<◌, ◌≤◌, ◌≡◌, ◌≢◌, refl, ap, ◌∙◌, ◌↔◌, inl, inr, ltb,
  leb, ◌==◌, if◌then◌else◌, Bool, true, false, some, pos, ok, enospc, Bool-cases, ==_iff, arith,
}
use step.Measurement.{Header}
use step.Measurement.Base64.{pow-pos, sz_base64_lem}
use step.Measurement.Size.{
  pow2_from, sz_pow2, sz_timestamp, sz_ctype, sz_encoded, sz_raw, sz_payload, exceeds, validate,
}

-- The sizes of the sample count: 2 ^ e, with no wrap-around in 32 bits.
pow2_from_lem : (n x : ℕ) → x * 2 ^ n < 2 ^ 32 → pow2_from n x ≡ x * 2 ^ n
unfolding pow2_from
pow2_from_lem zero x h = omega arith
pow2_from_lem (suc n) x h =
    let double : x * 2 ^ suc n ≡ x * 2 * 2 ^ n = omega (arith, ap (λ t. x * t) (pow-suc 2 n)) in
    let small : x * 2 < 2 ^ 32 = grind (arith, double, pow-pos n) in
    let same : x * 2 % 2 ^ 32 ≡ x * 2 = omega arith in
    rw (same, double) (pow2_from_lem n (x * 2) (rw (← double) h))

pow-le : (m n : ℕ) → 2 ^ m ≤ 2 ^ (m + n)
pow-le m zero = rw (add-zero m) (omega arith)
pow-le m (suc n) = rw (add-suc m n) (omega (arith, pow-suc 2 (m + n), pow-le m n))

pow-le14 : (e : ℕ) → e < 15 → 2 ^ e ≤ 2 ^ 14
pow-le14 e h =
    let split : e + (14 - e) ≡ 14 = omega arith in
    let exact : 2 ^ (e + (14 - e)) ≡ 2 ^ 14 = ap (λ t. 2 ^ t) split in
    omega (arith, pow-le e (14 - e), exact)

sz_pow2_lem : (e : ℕ) → e < 15 → sz_pow2 e ≡ 2 ^ e
unfolding sz_pow2
sz_pow2_lem e h = pow2_from_lem e 1 (omega (arith, pow-le14 e h)) ∙ omega arith

if-le : (b : Bool) (x y n : ℕ) → x ≤ n → y ≤ n → (if b then x else y) ≤ n
if-le true x y n h k = h
if-le false x y n h k = k

sz_ctype-le : (c : ℕ) → sz_ctype c ≤ 16
unfolding sz_ctype
sz_ctype-le c = if-le _ 1 _ 16 (omega arith) (
    if-le _ 2 _ 16 (omega arith) (
      if-le _ 4 _ 16 (omega arith)
        (if-le _ 8 _ 16 (omega arith) (if-le _ 16 0 16 (omega arith) (omega arith)))))

sz_timestamp-le : (t : ℕ) → sz_timestamp t ≤ 8
unfolding sz_timestamp
sz_timestamp-le t = ground arith

-- The bytes of the samples and of the timestamp, by the sizes of the code.
pub raw_size : Header → ℕ
raw_size hdr =
    sz_ctype hdr.unit.ctype * 2 ^ hdr.srclen.samples * (1 + hdr.srclen.vec_sz)
    + sz_timestamp hdr.filter.flags.timestamp

-- The length in the encoding, of the encodings other than BASE45.
pub encoded_size : ℕ → ℕ → ℕ
encoded_size encoding n = if encoding == 1 then (n + 2) / 3 * 4 else n

-- The samples are counted in the header, in a type of fixed size.
pub record IsDeterminate (hdr : Header) : Type 0 where
  pub samples : hdr.srclen.samples < 15
  pub vec_sz : hdr.srclen.vec_sz < 4
  pub ctype : sz_ctype hdr.unit.ctype ≢ 0

mul-le : (a b m n : ℕ) → a ≤ m → b ≤ n → a * b ≤ m * n
mul-le a b m n h k = grind arith

vectors_lem : (s v : ℕ) → (if v == 0 then s else s * (1 + v)) ≡ s * (1 + v)
vectors_lem s zero = omega arith
vectors_lem s (suc v) = ground arith

timestamp_lem : (t x : ℕ) → (if t == 0 then x else x + sz_timestamp t) ≡ x + sz_timestamp t
unfolding sz_timestamp
timestamp_lem zero x = omega arith
timestamp_lem (suc t) x = ground arith

sz_raw_lem :
    (hdr : Header) → IsDeterminate hdr → (sz_raw hdr ≡ raw_size hdr) × (raw_size hdr < 2 ^ 23)
unfolding sz_raw raw_size
sz_raw_lem hdr d =
    let t = sz_ctype hdr.unit.ctype in
    let n = 2 ^ hdr.srclen.samples in
    let v = hdr.srclen.vec_sz in
    let count : sz_pow2 hdr.srclen.samples ≡ n = sz_pow2_lem hdr.srclen.samples d.samples in
    let few : n ≤ 2 ^ 14 = pow-le14 hdr.srclen.samples d.samples in
    let bytes : t * n ≤ 16 * 2 ^ 14 = mul-le t n 16 (2 ^ 14) (sz_ctype-le hdr.unit.ctype) few in
    let all : t * n * (1 + v) ≤ 16 * 2 ^ 14 * 4 =
      mul-le (t * n) (1 + v) (16 * 2 ^ 14) 4 bytes (omega (arith, d.vec_sz)) in
    let whole : t * sz_pow2 hdr.srclen.samples % 2 ^ 32 ≡ t * n = rw count (omega arith) in
    let late = sz_timestamp-le hdr.filter.flags.timestamp in
    (rw (timestamp_lem, vectors_lem, whole) refl, omega arith)

encoded_lem : (enc n : ℕ) → n < 2 ^ 23 → enc ≢ 2 → sz_encoded enc n ≡ encoded_size enc n
unfolding sz_encoded encoded_size
encoded_lem enc n h ne =
    let b64 = sz_base64_lem n h in
    elim (Bool-cases (enc == 1)) [
      | inl e ↦ rw (e, b64) refl
      | inr e ↦ elim (Bool-cases (enc == 2)) [
        | inl e2 ↦ absurd (ne ((==_iff enc 2).0 e2))
        | inr e2 ↦ rw (e, e2) refl
      ]
    ]

-- Neither the wrap-around in 32 bits nor the division in `float` shows.
pub sz_payload-encoded :
    (hdr : Header)
    → IsDeterminate hdr
    → hdr.filter.flags.encoding ≢ 2
    → sz_payload hdr ≡ pos (encoded_size hdr.filter.flags.encoding (raw_size hdr))
unfolding sz_payload
sz_payload-encoded hdr d h =
    let raw = sz_raw_lem hdr d in
    let enc = encoded_lem hdr.filter.flags.encoding (raw_size hdr) raw.1 h in
    let few : leb 15 hdr.srclen.samples ≡ false = ground (arith, d.samples) in
    let fixed : (sz_ctype hdr.unit.ctype == 0) ≡ false = ground (arith, d.ctype) in
    rw (few, fixed, raw.0, enc) refl

pub verdict :
    (n len : ℕ)
    → ((if exceeds (pos n) len then enospc else ok) ≡ ok ↔ (n ≤ len))
      × ((if exceeds (pos n) len then enospc else ok) ≡ enospc ↔ (len < n))
verdict n len = elim (Bool-cases (ltb len n)) [
  | inl e ↦
      let lt : len < n = ground arith in
      rw e ((λ q. cc, λ q. absurd (omega arith)), (λ q. lt, λ q. refl))
  | inr e ↦
      let le : n ≤ len = ground arith in
      rw e ((λ q. le, λ q. refl), (λ q. cc, λ q. absurd (omega arith)))
]
