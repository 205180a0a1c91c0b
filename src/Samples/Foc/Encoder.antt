-- ===== src/Samples/Foc/Encoder.antt =====
-- The position that samples/foc_controller/src/foc_driver.c measures.
use step.Common.{ℕ, ◌+◌, ◌-◌, ◌%◌, ◌^◌, ◌<◌, ◌≡◌, refl, ◌∙◌, bit_and, none, some, ok, arith}
use step.Common.Fields.{low_mask}
use step.Samples.Foc.Driver.{EncoderReading, read_encoder, rotor_counts, set_encoder_offset}

-- The counts between an aligned position and a later one, in one direction of rotation.
abbrev pub turned : ℕ → ℕ → ℕ
turned from to = (to + 4096 - from) % 4096

read_encoder-lt : (b : ℕ × ℕ) → read_encoder (some b) < 4096
unfolding read_encoder
read_encoder-lt (high, low) = ground arith

-- The masked difference of two 16-bit counts.
difference_lem :
    (x off : ℕ)
    → x < 2 ^ 16
    → off < 4096
    → bit_and ((x + 2 ^ 32 - off) % 2 ^ 32) 0xFFF ≡ (x + 4096 - off) % 4096
difference_lem x off l k = low_mask 12 _ ∙ omega arith

-- After an alignment with a reading of the encoder that succeeded, a later reading that succeeds is
-- reported as the counts turned since, below one revolution: those that lead from the aligned
-- position back to the one read. A reading of the bus that fails is not reported: as a position it
-- is the last count of the revolution, whatever the rotor does, and as an alignment it stores that
-- count and returns 0.
pub rotor_counts-turned :
    (aligned read : ℕ × ℕ) (e : EncoderReading)
    → (let (rc, e₁) = set_encoder_offset (some aligned) e in
        let (n, e₂) = rotor_counts (some read) e₁ in
        let (lost, e₃) = rotor_counts none e₁ in
        (n ≡ turned (read_encoder (some aligned)) (read_encoder (some read)))
        × (n < 4096)
        × ((read_encoder (some aligned) + n) % 4096 ≡ read_encoder (some read))
        × (lost ≡ turned (read_encoder (some aligned)) 4095)
        × (set_encoder_offset none e ≡ (ok, record e { zero_offset = 4095 })))
unfolding rotor_counts set_encoder_offset read_encoder
rotor_counts-turned aligned read e =
    let a = read_encoder (some aligned) in
    let r = read_encoder (some read) in
    let a_lt = read_encoder-lt aligned in
    let r_lt = read_encoder-lt read in
    let offset : bit_and a 0xFFF ≡ a = low_mask 12 a ∙ omega (arith, a_lt) in
    let counts : bit_and ((r + 2 ^ 32 - bit_and a 0xFFF) % 2 ^ 32) 0xFFF ≡ turned a r =
      rw offset (difference_lem r a (omega (arith, r_lt)) a_lt) in
    let lost_counts : bit_and ((0xFFFF + 2 ^ 32 - bit_and a 0xFFF) % 2 ^ 32) 0xFFF
        ≡ (0xFFFF + 4096 - a) % 4096 =
      rw offset (difference_lem 0xFFFF a (omega arith) a_lt) in
    (
      counts,
      omega (arith, counts),
      omega (arith, counts, a_lt, r_lt),
      lost_counts ∙ omega (arith, a_lt),
      refl,
    )
