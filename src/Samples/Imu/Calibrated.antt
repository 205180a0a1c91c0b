-- ===== src/Samples/Imu/Calibrated.antt =====
-- What the calibration of imu_data_producer.c of samples/fusion_imu/src does to later samples, and what
-- a sample holds when a sensor fails.
use step.Common.{ℕ, zero, suc, ◌≡◌, refl, ap, ◌∙◌, true, false, if◌then◌else◌, some}
use step.Platform.{Platform}
use step.Samples.Robot.{iterate}
use step.Samples.Imu.{
  Vector, ImuDataPayload, SensorValue, Axis, axis_x, axis_y, axis_z, axis_xyz, imu_dev, mag_dev,
  accel, gyro, magn, Sensors, Zsl, Producer, read_axes, to_floats, correct, imu_fetch_data,
  sum_samples, imu_producer_calibrate, imu_producer_start,
}

-- What zscilib says of its vectors, and that the mean of 200 equal numbers is that number.
pub record Means (F R W : Type 0) (zsl : Zsl F R W) : Type 0 where
  pub init :
      (v : Vector R)
      → (let zero_r = zsl.real.literal 0 1 in zsl.vec_init v ≡ (zero_r, zero_r, zero_r))
  pub scalar_div :
      (x y z d : R)
      → zsl.vec_scalar_div (x, y, z) d ≡ (zsl.real.div x d, zsl.real.div y d, zsl.real.div z d)
  pub copy : (d s : Vector R) → zsl.vec_copy d s ≡ s
  pub mean :
      (x : R)
      → zsl.real.div
          (iterate 200 (λ t. zsl.real.add t x) (zsl.real.literal 0 1))
          (zsl.real.literal 2000 1)
        ≡ x

module _ {F R W : Type 0} (plat : Platform W) (sensors : Sensors W) (zsl : Zsl F R W)
    (garbage : Vector SensorValue) where
  -- The variables and the memory after the accelerometer, and then the gyroscope, was read.
  abbrev after_accel : W → Vector SensorValue × W
  after_accel w = read_axes plat sensors zsl imu_dev accel garbage w

  abbrev after_gyro : W → Vector SensorValue × W
  after_gyro w = let (a, w₁) = after_accel w in read_axes plat sensors zsl imu_dev gyro a w₁

  -- The angular velocity that is read in a state of the memory, before it is corrected.
  abbrev pub gyro_read : W → Vector F
  gyro_read w = let (g, w₁) = after_gyro w in to_floats plat sensors zsl g

  abbrev pub accel_read : W → Vector F
  accel_read w = let (a, w₁) = after_accel w in to_floats plat sensors zsl a

  -- The memory after a sample was fetched.
  abbrev pub fetched : W → W
  fetched w =
      let (g, w₁) = after_gyro w in
      let (m, w₂) = read_axes plat sensors zsl mag_dev magn g w₁ in (plat.uptime w₂).1

  -- A sum of samples and one more sample, and `n` samples that are all `b`.
  abbrev plus : Vector F → Vector R → Vector R
  plus (bx, by, bz) (sx, sy, sz) = (
    zsl.real.add sx (zsl.widen bx),
    zsl.real.add sy (zsl.widen by),
    zsl.real.add sz (zsl.widen bz),
  )

  abbrev summed : Vector F → ℕ → Vector R → Vector R
  summed (bx, by, bz) n (sx, sy, sz) =
      let many = λ (x : F) (s : R). iterate n (λ t. zsl.real.add t (zsl.widen x)) s in
      (many bx sx, many by sy, many bz sz)

  -- The gyroscope and the memory after a sample.
  fetch-gyro :
      {S : Type 0} (p : Producer F R S) (imu : ImuDataPayload F) (w : W)
      → (let (imu', w') = imu_fetch_data plat sensors zsl garbage p imu w in
          (imu'.imu_gyro ≡ (
            if p.imu_calibrated
            then correct plat sensors zsl p.gyro_offset_correcton (gyro_read w)
            else gyro_read w))
          × (imu'.imu_accel ≡ accel_read w)
          × (w' ≡ fetched w))
  unfolding imu_fetch_data
  fetch-gyro p imu w = (refl, refl, refl)

  module _ {S : Type 0} (Rest : W → Type 0) (b : Vector F)
      (reads : (w : W) → Rest w → gyro_read w ≡ b)
      (rests : (w : W) → Rest w → Rest (sensors.sleep 10 (fetched w))) where
    sum_samples-rest :
        (p : Producer F R S) (n : ℕ) (s : Vector R) (imu : ImuDataPayload F) (w : W)
        → p.imu_calibrated ≡ false
        → Rest w
        → (sum_samples plat sensors zsl garbage p n s imu w).0 ≡ summed b n s
    unfolding sum_samples imu_fetch_data iterate
    sum_samples-rest p zero s imu w off r = refl
    sum_samples-rest p (suc n) s imu w off r =
        let (imu', w₁) = imu_fetch_data plat sensors zsl garbage p imu w in
        let at : imu'.imu_gyro ≡ b = rw off (reads w r) in
        ap (λ g. (sum_samples plat sensors zsl garbage p n (plus g s) imu' (sensors.sleep 10 w₁)).0)
          at
        ∙ sum_samples-rest p n (plus b s) imu' (sensors.sleep 10 w₁) off (rests w r)

    -- While the sensor is at rest, its gyroscope reads `b`. Then a calibration of 200 samples
    -- stores `b` as the offset, where the vectors of zscilib behave as documented and the mean of
    -- 200 equal numbers is that number, and ends with the sensor calibrated, so that
    -- `imu_producer_start` has no more to wait for and stores its callback. In every later sample
    -- each axis of the gyroscope is what is read less that of `b`, and the acceleration is what is
    -- read.
    pub calibrate-corrects :
        (means : Means F R W zsl) (p : Producer F R S) (sample : Vector R)
        (imu imu₁ : ImuDataPayload F) (w v : W) (cb : ℕ → S → S)
        → Rest (sensors.sleep 2 w)
        → (let (p', w') = imu_producer_calibrate plat sensors zsl garbage sample imu (p, w) in
            let (bx, by, bz) = b in
            let (gx, gy, gz) = gyro_read v in
            let (later, v') = imu_fetch_data plat sensors zsl garbage p' imu₁ v in
            let less = λ (x y : F). zsl.narrow (zsl.real.sub (zsl.widen x) (zsl.widen y)) in
            (p' ≡ record p {
              imu_calibrated = true;
              gyro_offset_correcton = (zsl.widen bx, zsl.widen by, zsl.widen bz);
            })
            × (imu_producer_start cb p' ≡ some (record p' { imu_user_callback = some cb }))
            × (later.imu_gyro ≡ (less gx bx, less gy by, less gz bz))
            × (later.imu_accel ≡ accel_read v))
    unfolding imu_producer_calibrate imu_producer_start imu_fetch_data correct
    calibrate-corrects means p sample imu imu₁ w v cb r =
        let (bx, by, bz) = b in
        let zero_r = zsl.real.literal 0 1 in
        let many = zsl.real.literal 2000 1 in
        let begun : Producer F R S = record p { imu_calibrated = false } in
        let old = p.gyro_offset_correcton in
        let sum : Vector R → Vector R =
          λ s. (sum_samples plat sensors zsl garbage begun 200 s imu (sensors.sleep 2 w)).0 in
        let total : sum (zsl.vec_init sample) ≡ summed b 200 (zero_r, zero_r, zero_r) =
          ap sum (means.init sample)
          ∙ sum_samples-rest begun 200 (zero_r, zero_r, zero_r) imu (sensors.sleep 2 w) refl r in
        let offset : zsl.vec_copy old (zsl.vec_scalar_div (sum (zsl.vec_init sample)) many)
            ≡ (zsl.widen bx, zsl.widen by, zsl.widen bz) =
          means.copy old (zsl.vec_scalar_div (sum (zsl.vec_init sample)) many)
          ∙ ap (λ s. zsl.vec_scalar_div s many) total
          ∙ means.scalar_div _ _ _ many
          ∙ (λ i. (
            means.mean (zsl.widen bx) i,
            means.mean (zsl.widen by) i,
            means.mean (zsl.widen bz) i,
          )) in
        (
          ap (λ o. record p { imu_calibrated = true; gyro_offset_correcton = o }) offset,
          refl,
          ap (λ o. correct plat sensors zsl o (gyro_read v)) offset,
          refl,
        )

  -- The variables that the axes are read into are shared, and no result of the sensors is looked at:
  -- where the gyroscope fails and leaves its variables as they are, a sample has the acceleration,
  -- less the offset if the sensor is calibrated, for its angular velocity.
  fetch-stale :
      {S : Type 0} (p : Producer F R S) (imu : ImuDataPayload F) (w : W)
      → ((x : Axis) (v : SensorValue) (u : W) → (sensors.channel_get imu_dev (gyro x) v u).0 ≡ v)
      → (let (imu', w') = imu_fetch_data plat sensors zsl garbage p imu w in
          imu'.imu_gyro ≡ (
            if p.imu_calibrated
            then correct plat sensors zsl p.gyro_offset_correcton imu'.imu_accel
            else imu'.imu_accel))
  unfolding imu_fetch_data read_axes
  fetch-stale p imu w fails =
      let ((x, y, z), w₁) = after_accel w in
      let w₂ = sensors.sample_fetch imu_dev (gyro axis_xyz) w₁ in
      let (x', w₃) = sensors.channel_get imu_dev (gyro axis_x) x w₂ in
      let (y', w₄) = sensors.channel_get imu_dev (gyro axis_y) y w₃ in
      ap
        (λ g.
          if p.imu_calibrated
          then correct plat sensors zsl p.gyro_offset_correcton (to_floats plat sensors zsl g)
          else to_floats plat sensors zsl g)
        (λ i. (fails axis_x x w₂ i, fails axis_y y w₃ i, fails axis_z z w₄ i))
