-- ===== src/Samples/Foc/Driver.antt =====
-- The encoder and the inverter of samples/foc_controller/src/foc_driver.c and foc_driver.h, and the
-- commands of samples/foc_controller/src/main.c.
use step.Common.{ℕ, ◌+◌, ◌-◌, ◌*◌, ◌%◌, ◌^◌, ltb, bit_and, if◌then◌else◌, Option, none, some, ℤ, ok}
use step.Measurement.{Header}
use step.Measurement.Types.{type_code, phase}
use step.Measurement.FieldValues.{
  format_code, format_none, encoding_code, encoding_none, compression_code, compression_none,
  timestamp_code, timestamp_uptime_ms_32,
}
use step.Measurement.Si
use step.Measurement.Ctype
use step.Samples.Float.{Float}

-- AS5600_PULSES_PER_REVOLUTION, AS5600_READING_MASK and PWM_PERIOD_NSEC
abbrev pub pulses_per_revolution : ℕ
pulses_per_revolution = 4096

abbrev pub reading_mask : ℕ
reading_mask = 0xFFF

abbrev pub pwm_period_nsec : ℕ
pwm_period_nsec = 62500

-- `rotor_sensor_header`; `payload_sz` is `sizeof(struct foc_controller_payload)`.
unfoldable pub rotor_sensor_header : ℕ → Header
rotor_sensor_header payload_sz = record {
  filter = record {
    base_type = type_code phase;
    ext_type = 0;
    flags = record {
      data_format = format_code format_none;
      encoding = encoding_code encoding_none;
      compression = compression_code compression_none;
      timestamp = timestamp_code timestamp_uptime_ms_32;
      rsvd = 0;
    };
  };
  unit = record {
    si_unit = Si.si_code Si.radian;
    scale_factor = 0;
    ctype = Ctype.code Ctype.ieee754_float32;
  };
  srclen = record { len = payload_sz; fragment = 0; vec_sz = 0; samples = 0; sourceid = 2 };
}

-- `encoder_reading`
pub record EncoderReading : Type 0 where
  pub raw : ℕ
  pub zero_offset : ℕ

-- `foc_driver_read_encoder`, from the two bytes that `i2c_write_read` reads, `none` if it fails. The
-- comparison with a `float` is exact on 16 bits.
unfoldable pub read_encoder : Option (ℕ × ℕ) → ℕ
read_encoder none = 0xFFFF
read_encoder (some (high, low)) =
    let raw = high * 2 ^ 8 + low in
    if ltb (pulses_per_revolution - 1) raw then pulses_per_revolution - 1 else raw

-- The counts of the rotor position of `foc_driver_get_rotor_position`, and the new reading: the
-- difference of two `uint16_t` is an `int`, and its bits are those of the difference modulo 2 ^ 32.
unfoldable pub rotor_counts : Option (ℕ × ℕ) → EncoderReading → ℕ × EncoderReading
rotor_counts read e =
    let raw = read_encoder read in
    (bit_and ((raw + 2 ^ 32 - e.zero_offset) % 2 ^ 32) reading_mask, record e { raw = raw })

-- `foc_driver_set_encoder_offset`, which is also the command `align`.
unfoldable pub set_encoder_offset : Option (ℕ × ℕ) → EncoderReading → ℤ × EncoderReading
set_encoder_offset read e =
    (ok, record e { zero_offset = bit_and (read_encoder read) reading_mask })

module _ {F : Type 0} (float : Float F) where
  -- The saturation of a duty in `foc_driver_set_duty_cycle`.
  unfoldable pub saturate : F → F
  saturate dc =
      if float.lt (float.literal 10 1) dc
      then float.literal 10 1
      else if float.lt dc (float.literal 0 1)
      then float.literal 0 1
      else dc

  -- `foc_driver_set_duty_cycle`; `pwm_set channel period pulse` is the call of that name.
  unfoldable pub set_duty_cycle : {W : Type 0} → (ℕ → ℕ → F → W → W) → F × F × F → W → W
  set_duty_cycle pwm_set (dc_u, dc_v, dc_w) w =
      let scale = float.literal (pwm_period_nsec - 1) 0 in
      let w₁ = pwm_set 1 pwm_period_nsec (float.mul (saturate dc_u) scale) w in
      let w₂ = pwm_set 2 pwm_period_nsec (float.mul (saturate dc_v) scale) w₁ in
      pwm_set 3 pwm_period_nsec (float.mul (saturate dc_w) scale) w₂
