-- ===== src/Samples/Imu/Fusion.antt =====
-- The application of samples/fusion_imu/src: the nodes of fusion_nodes.c, main.c, and the thread of
-- imu_data_producer.c, which calls the application with each sample.
pub mod Shared
use step.Common.{
  ℕ, ◌*◌, ◌+◌, ◌-◌, ◌%◌, ◌^◌, ltb, ◌==◌, ◌&&◌, if◌then◌else◌, Bool, true, false, Option, none, some,
  ◌>>=◌, List, [], ◌∷◌, ℤ, pos, negsuc, is_zero, ok, einval,
}
use step.Measurement.{mask}
use step.Measurement.Types.{type_code, orientation}
use step.Filter.{FilterChain, op_is, not32}
use step.Node.{Chain, Callbacks, NodeHandler}
use step.Platform.{Platform, Slist, SlistTail}
use step.SamplePool
use step.ProcMgr.{NodeSub, Config, System, put}
use step.ProcMgr.Register.{register}
use step.Samples.Float.{Float}
use step.Samples.Imu.{
  Vector, ImuDataPayload, payload_sz, imu_measurement_header, SensorValue, Sensors, Zsl, Producer,
  imu_fetch_data, imu_producer_start,
}

-- `struct zsl_quat` and `struct zsl_euler`
pub record Quat (R : Type 0) : Type 0 where
  pub r : R
  pub i : R
  pub j : R
  pub k : R

pub record Euler (R : Type 0) : Type 0 where
  pub x : R
  pub y : R
  pub z : R

-- The memory of the application: the samples by their addresses, the field `payload` of a measurement,
-- which is NULL for `none`, and `fusion_node_result`; with the sensor fusion of zscilib, whose
-- configuration and state are in the memory too.
pub record Memory (F R W : Type 0) : Type 0 where
  pub imu : ℕ → W → ImuDataPayload F
  pub set_imu : ℕ → ImuDataPayload F → W → W
  pub payload : ℕ → W → Option ℕ
  pub fusion_node_result : W → Euler R
  pub set_fusion_node_result : Euler R → W → W
  pub feed_handler : Vector R → Vector R → Quat R → W → Quat R × W
  pub quat_to_euler : Quat R → Euler R → Euler R
  pub zsl_pi : R
  -- A line of the stream: the timestamp and two angles.
  pub print : ℕ → R → R → W → W

-- The filter of the root nodes of both applications.
abbrev pub orientation_filters : FilterChain
orientation_filters = record {
  count = 1;
  chain = some (
      record { op = op_is; match = type_code orientation; ignore_mask = not32 mask.full_type }
      ∷ []);
}

module _ {F R W : Type 0} (zsl : Zsl F R W) (mem : Memory F R W) where
  -- The sample that `mes->payload` points to. A NULL, which step_sp_alloc stores for no payload only, is
  -- the address 0.
  abbrev pub sample_of : ℕ → W → ImuDataPayload F
  sample_of mes w = mem.imu (elim (mem.payload mes w) [ none ↦ 0 | some a ↦ a ]) w

  -- The acceleration and the angular velocity of a sample are fed to the fusion.
  unfoldable pub feed : ImuDataPayload F → W → Quat R × W
  feed imu w =
      let one = zsl.real.literal 10 1 in
      let zero_r = zsl.real.literal 0 1 in
      let (ax, ay, az) = imu.imu_accel in
      let (gx, gy, gz) = imu.imu_gyro in
      mem.feed_handler (zsl.widen ax, zsl.widen ay, zsl.widen az)
        (zsl.widen gx, zsl.widen gy, zsl.widen gz)
        (record { r = one; i = zero_r; j = zero_r; k = zero_r }) w

  -- `fusion_do_process`
  unfoldable pub fusion_do_process : NodeHandler W
  fusion_do_process mes handle inst w =
      let (q, w₁) = feed (sample_of mes w) w in
      (ok, mem.set_fusion_node_result (mem.quat_to_euler q (mem.fusion_node_result w₁)) w₁)

  abbrev pub to_degrees : R → R
  to_degrees x = zsl.real.div (zsl.real.mul x (zsl.real.literal 180 0)) mem.zsl_pi

  -- `fusion_do_streaming`
  unfoldable pub fusion_do_streaming : NodeHandler W
  fusion_do_streaming mes handle inst w =
      let imu = sample_of mes w in
      let e = mem.fusion_node_result w in
      (
        ok,
        (if imu.streamable && (imu.timestamp % 10 == 0)
            then mem.print imu.timestamp (to_degrees e.x) (to_degrees e.y) w
            else w),
      )

  abbrev pub only_exec : NodeHandler W → Callbacks W
  only_exec f = record {
    init_handler = none;
    evaluate_handler = none;
    matched_handler = none;
    start_handler = none;
    exec_handler = some f;
    stop_handler = none;
    error_handler = none;
  }

  -- `fusion_node_chain`
  abbrev pub fusion_node_chain : Chain W
  fusion_node_chain = record {
    first = record {
      name = some "Root sensor sample processor node";
      filters = orientation_filters;
      callbacks = only_exec fusion_do_process;
      config = 0;
    };
    next =
        record {
          name = some "IMU streaming node";
          filters = record { count = 0; chain = none };
          callbacks = only_exec fusion_do_streaming;
          config = 0;
        }
        ∷ [];
  }

-- The static variables of main.c.
pub record Stream (F : Type 0) : Type 0 where
  pub raw : ImuDataPayload F
  pub enable_stream : Bool

-- `kp` and `ki` of `mahn_cfg`
pub record Gains (R : Type 0) : Type 0 where
  pub kp : R
  pub ki : R

module _ {F R W : Type 0} (plat : Platform W) (zsl : Zsl F R W) (mem : Memory F R W)
    (sizeof_mes : ℕ) (subs : SlistTail (NodeSub W)) where
  -- The writes of `on_imu_data_production` to the sample at `imu` and to a new measurement.
  unfoldable pub fill_mes : Bool → ℕ → ℕ → W → W
  fill_mes enable_stream imu mes w =
      let sample = mem.imu imu w in
      let w₁ = mem.set_imu imu (record sample { streamable = enable_stream }) w in
      plat.set_header mes imu_measurement_header (plat.set_payload mes (some imu) w₁)

  -- `on_imu_data_production`; the result of step_pm_put is not looked at.
  unfoldable pub on_imu_data_production : ℕ → Stream F × System W → Stream F × System W
  on_imu_data_production imu (st, s) =
      let (r, pool, w) = SamplePool.alloc plat sizeof_mes payload_sz (s.pool, s.world) in
      let s₁ = record s { pool = pool; world = w } in
      elim r [
        | none ↦ (st, s₁)
        | some mes ↦
            let w₁ = fill_mes st.enable_stream imu mes w in
            (
              record st { raw = mem.imu imu w₁ },
              (put plat subs (some mes) (record s₁ { world = w₁ })).1,
            )
      ]

  -- A turn of the loop of `imu_sample_thread`, whose variable `measurement` is at the address
  -- `measurement`; `garbage` is what stands in the local variables of imu_fetch_data.
  unfoldable pub sample_turn :
      {S : Type 0}
      → Sensors W
      → (S → W)
      → (W → S → S)
      → Vector SensorValue
      → ℕ
      → Producer F R S
      → S
      → S
  sample_turn {S} sensors world set_world garbage measurement p s =
      let w = world s in
      let (imu, w₁) = imu_fetch_data plat sensors zsl garbage p (mem.imu measurement w) w in
      let s₁ = set_world (mem.set_imu measurement imu w₁) s in
      let s₂ : S = elim p.imu_user_callback [ none ↦ s₁ | some cb ↦ cb measurement s₁ ] in
      set_world (sensors.sleep 10 (world s₂)) s₂

  -- `main`, which starts the producer if the chain was registered: the producer, `none` while it has
  -- not calibrated its sensor and `main` waits, and the new state. `cb` is `on_imu_data_production`.
  unfoldable pub fusion_main :
      {S : Type 0}
      → Slist ℕ
      → Config
      → Chain W
      → (ℕ → S → S)
      → Producer F R S
      → System W
      → Option (Option (Producer F R S) × System W)
  fusion_main sl cfg chain cb p s = do
    (rc, handle, s₁) ← register sl cfg (some chain) 0 s
    some (elim (is_zero rc) [ false ↦ some p | true ↦ imu_producer_start cb p ], s₁)

-- `stream_end`
unfoldable pub stream_end : {F : Type 0} → Stream F → Stream F
stream_end st = record st { enable_stream = false }

-- `strtof` and `strtol` read a number from an argument, `is_help` compares one with "help"; the
-- arguments begin with the name of the command.
module _ {F R A W : Type 0} (zsl : Zsl F R W) (strtof : A → F) (strtol : A → ℤ)
    (is_help : A → Bool) where
  -- `step_fusion_cmd_set`
  unfoldable pub step_fusion_cmd_set : List A → Gains R → ℤ × Gains R
  step_fusion_cmd_set (name ∷ p ∷ i ∷ []) g =
      (ok, record { kp = zsl.widen (strtof p); ki = zsl.widen (strtof i) })
  step_fusion_cmd_set argv g = (einval, g)

  -- A number of seconds in milliseconds, where an overflow of the `int` is a fault.
  unfoldable pub milliseconds : ℤ → Option ℤ
  milliseconds (pos n) = if ltb (n * 1000) (2 ^ 31) then some (pos (n * 1000)) else none
  milliseconds (negsuc n) =
      if ltb (n * 1000 + 999) (2 ^ 31) then some (negsuc (n * 1000 + 999)) else none

  -- From the timeout on: the timer is started unless the time is 0.
  unfoldable pub stream_for : (ℕ → W → W) → ℤ → Stream F × W → ℤ × Stream F × W
  stream_for timer_start (negsuc n) (st, w) = (einval, st, w)
  stream_for timer_start (pos n) (st, w) =
      (ok, record st { enable_stream = true }, (if n == 0 then w else timer_start n w))

  -- `step_fusion_cmd_stream`, but for the lines printed.
  unfoldable pub step_fusion_cmd_stream :
      (ℕ → W → W) → List A → Stream F × W → Option (ℤ × Stream F × W)
  step_fusion_cmd_stream timer_start (name ∷ timeout ∷ []) (st, w) =
      if is_help timeout then some (ok, st, w) else (do
        stream_time ← milliseconds (strtol timeout)
        some (stream_for timer_start stream_time (st, w)))
  step_fusion_cmd_stream timer_start argv (st, w) = some (ok, st, w)
