-- ===== src/Samples/Imu.antt =====
-- The producer of the samples of an inertial sensor: imu_data_producer.c and imu_data_producer.h of
-- samples/fusion_imu/src. The file of samples/ros2_to_step_bridge/src is the same but for the
-- priority of the thread.
pub mod Calibrated
pub mod Fusion
pub mod Bridge
use step.Common.{
  ℕ, zero, suc, ◌%◌, ◌^◌, Bool, true, false, if◌then◌else◌, Option, none, some, ℤ, pos,
}
use step.Measurement.{Header}
use step.Measurement.Types.{type_code, orientation}
use step.Measurement.FieldValues.{timestamp_code, timestamp_uptime_ms_32}
use step.Measurement.Si
use step.Measurement.Ctype
use step.Platform.{Platform}
use step.Samples.Float.{Float}

-- Three numbers along the axes.
abbrev pub Vector : Type 0 → Type 0
Vector F = F × F × F

-- `struct imu_data_payload`
pub record ImuDataPayload (F : Type 0) : Type 0 where
  pub timestamp : ℕ
  pub streamable : Bool
  pub imu_accel : Vector F
  pub imu_gyro : Vector F
  pub imu_mag : Vector F

-- Its size: a `uint32_t`, a `bool` with its padding and nine numbers of the type `float`.
abbrev pub payload_sz : ℕ
payload_sz = 44

-- `imu_measurement_header`
unfoldable pub imu_measurement_header : Header
imu_measurement_header = record {
  filter = record {
    base_type = type_code orientation;
    ext_type = 0;
    flags = record {
      data_format = 0;
      encoding = 0;
      compression = 0;
      timestamp = timestamp_code timestamp_uptime_ms_32;
      rsvd = 0;
    };
  };
  unit = record {
    si_unit = Si.si_code Si.radian;
    scale_factor = 0;
    ctype = Ctype.code Ctype.ieee754_float32;
  };
  srclen = record { len = payload_sz; fragment = 0; vec_sz = 3; samples = 0; sourceid = 2 };
}

-- `struct sensor_value` of the kernel.
pub record SensorValue : Type 0 where
  pub val1 : ℤ
  pub val2 : ℤ

-- The devices and the channels that the code names.
pub data Device : Type 0 where
  imu_dev mag_dev : Device

pub data Axis : Type 0 where
  axis_x axis_y axis_z axis_xyz : Axis

pub data Channel : Type 0 where
  accel gyro magn : Axis → Channel

-- The sensors of the kernel: the fetch of a channel, the value of one, which replaces what stands in
-- the variable unless the sensor fails, and the sampling frequency. `sleep` takes milliseconds.
pub record Sensors (W : Type 0) : Type 0 where
  pub sample_fetch : Device → Channel → W → W
  pub channel_get : Device → Channel → SensorValue → W → SensorValue × W
  pub set_frequency : Device → Channel → SensorValue → W → ℤ × W
  pub sleep : ℕ → W → W

-- The types `float` and `zsl_real_t`, the arithmetic that the producer does with them, and the vectors
-- of the library zscilib, with the initialisation of its sensor fusion. `of_int` converts an `int`,
-- and `hundredth x` is `x * 0.01`, computed in `double`.
pub record Zsl (F R W : Type 0) : Type 0 where
  pub float : Float F
  pub real : Float R
  pub of_int : ℤ → F
  pub hundredth : F → F
  pub widen : F → R
  pub narrow : R → F
  pub vec_init : Vector R → Vector R
  pub vec_scalar_div : Vector R → R → Vector R
  pub vec_copy : Vector R → Vector R → Vector R
  pub fusion_init : ℕ → W → ℤ × W

-- The static variables; `S` is the state that the callback of the application changes, which takes the
-- sample by its address.
pub record Producer (F R S : Type 0) : Type 0 where
  pub imu_calibrated : Bool
  pub imu_user_callback : Option (ℕ → S → S)
  pub gyro_offset_correcton : Vector R

module _ {F R W : Type 0} (plat : Platform W) (sensors : Sensors W) (zsl : Zsl F R W) where
  -- `imu_zephyr_sensor_to_float`
  unfoldable pub sensor_to_float : SensorValue → F
  sensor_to_float v =
      zsl.float.add (zsl.of_int v.val1)
        (zsl.float.div (zsl.of_int v.val2) (zsl.float.literal 1000000 0))

  -- The values of the three axes of a sensor; `old` is what stands in the variables.
  unfoldable pub read_axes :
      Device → (Axis → Channel) → Vector SensorValue → W → Vector SensorValue × W
  read_axes dev channel (x, y, z) w =
      let w₁ = sensors.sample_fetch dev (channel axis_xyz) w in
      let (x', w₂) = sensors.channel_get dev (channel axis_x) x w₁ in
      let (y', w₃) = sensors.channel_get dev (channel axis_y) y w₂ in
      let (z', w₄) = sensors.channel_get dev (channel axis_z) z w₃ in ((x', y', z'), w₄)

  abbrev pub to_floats : Vector SensorValue → Vector F
  to_floats (x, y, z) = (sensor_to_float x, sensor_to_float y, sensor_to_float z)

  -- The offset is subtracted.
  unfoldable pub correct : Vector R → Vector F → Vector F
  correct (ox, oy, oz) (x, y, z) =
      let less = λ (a : F) (o : R). zsl.narrow (zsl.real.sub (zsl.widen a) o) in
      (less x ox, less y oy, less z oz)

  -- `imu_fetch_data`. `garbage` is what stands in the local variables at first.
  unfoldable pub imu_fetch_data :
      {S : Type 0}
      → Vector SensorValue
      → Producer F R S
      → ImuDataPayload F
      → W
      → ImuDataPayload F × W
  imu_fetch_data garbage p imu w =
      let (a, w₁) = read_axes imu_dev accel garbage w in
      let (g, w₂) = read_axes imu_dev gyro a w₁ in
      let (m, w₃) = read_axes mag_dev magn g w₂ in
      let (mx, my, mz) = to_floats m in
      let (now, w₄) = plat.uptime w₃ in
      (
        record imu {
          timestamp = now % 2 ^ 32;
          imu_accel = to_floats a;
          imu_gyro =
              (if p.imu_calibrated
                then correct p.gyro_offset_correcton (to_floats g)
                else to_floats g);
          imu_mag = (zsl.hundredth mx, zsl.hundredth my, zsl.hundredth mz);
        },
        w₄,
      )

  -- `imu_set_data_rate`: the results are only printed.
  unfoldable pub imu_set_data_rate : W → W
  imu_set_data_rate w =
      let rate : SensorValue = record { val1 = pos 104; val2 = pos 0 } in
      let (rc, w₁) = sensors.set_frequency imu_dev (accel axis_xyz) rate w in
      let (rc', w₂) = sensors.set_frequency imu_dev (gyro axis_xyz) rate w₁ in
      let slower : SensorValue = record { val1 = pos 100; val2 = pos 0 } in
      let (rc'', w₃) = sensors.set_frequency mag_dev (magn axis_xyz) slower w₂ in w₃

  -- The loop of `imu_producer_calibrate` with `n` rounds left, over the sum in `gyro_sample`.
  unfoldable pub sum_samples :
      {S : Type 0}
      → Vector SensorValue
      → Producer F R S
      → ℕ
      → Vector R
      → ImuDataPayload F
      → W
      → Vector R × W
  sum_samples garbage p zero sample imu w = (sample, w)
  sum_samples garbage p (suc n) (sx, sy, sz) imu w =
      let (imu', w₁) = imu_fetch_data garbage p imu w in
      let (gx, gy, gz) = imu'.imu_gyro in
      let plus = λ (s : R) (g : F). zsl.real.add s (zsl.widen g) in
      sum_samples garbage p n (plus sx gx, plus sy gy, plus sz gz) imu' (sensors.sleep 10 w₁)

  -- `imu_producer_calibrate`, but for the lines logged. `sample` and `imu` are what stands in the local
  -- variables at first.
  unfoldable pub imu_producer_calibrate :
      {S : Type 0}
      → Vector SensorValue
      → Vector R
      → ImuDataPayload F
      → Producer F R S × W
      → Producer F R S × W
  imu_producer_calibrate garbage sample imu (p, w) =
      let p₁ = record p { imu_calibrated = false } in
      let (sum, w₁) = sum_samples garbage p₁ 200 (zsl.vec_init sample) imu (sensors.sleep 2 w) in
      let mean = zsl.vec_scalar_div sum (zsl.real.literal 2000 1) in
      let offset = zsl.vec_copy p₁.gyro_offset_correcton mean in
      let (rc, w₂) = zsl.fusion_init 104 w₁ in
      (record p₁ { gyro_offset_correcton = offset; imu_calibrated = true }, w₂)

-- `imu_producer_start` at one of its tests of `imu_calibrated`: `none` if it goes on to sleep. It
-- returns 0.
unfoldable pub imu_producer_start :
    {F R S : Type 0} → (ℕ → S → S) → Producer F R S → Option (Producer F R S)
imu_producer_start cb p =
    if p.imu_calibrated then some (record p { imu_user_callback = some cb }) else none
