-- ===== src/Samples/Imu/Bridge.antt =====
-- The application of samples/ros2_to_step_bridge/src: main.c and sensor_node.c, with the producer of
-- its imu_data_producer.c, which is that of Samples/Imu. The client of micro-ROS is a parameter.
pub mod Copied
use step.Common.{ℕ, true, false, Option, none, some, ◌>>=◌, [], ℤ, is_zero, ok}
use step.Node.{Chain, InitHandler, NodeHandler}
use step.Platform.{Platform, Slist, SlistTail}
use step.SamplePool
use step.ProcMgr.{NodeSub, Config, System, put}
use step.ProcMgr.Register.{register}
use step.Samples.Imu.{
  ImuDataPayload, payload_sz, imu_measurement_header, Zsl, Producer, imu_producer_start,
}
use step.Samples.Imu.Fusion.{Memory, orientation_filters, sample_of, feed}

-- The message `ros_quaternion`
pub record RosQuaternion (R : Type 0) : Type 0 where
  pub x : R
  pub y : R
  pub z : R
  pub w : R

-- The client: the calls of `sensor_init` before the publisher, the creation of the publisher and of the
-- executor, `rcl_publish`, and the static variables `ros_quaternion` and `micro_ros_result`.
pub record MicroRos (R W : Type 0) : Type 0 where
  pub set_up_client : W → W
  pub publisher_init : W → ℤ × W
  pub executor_init : W → ℤ × W
  pub publish : RosQuaternion R → W → ℤ × W
  pub set_ros_quaternion : RosQuaternion R → W → W
  pub set_micro_ros_result : ℤ → W → W

module _ {F R W : Type 0} (zsl : Zsl F R W) (mem : Memory F R W) (ros : MicroRos R W) where
  -- `sensor_init`: the result of the publisher is overwritten, and none is returned.
  unfoldable pub sensor_init : InitHandler W
  sensor_init cfg handle inst w =
      let (rc, w₁) = ros.publisher_init (ros.set_up_client w) in
      let (rc', w₂) = ros.executor_init (ros.set_micro_ros_result rc w₁) in
      (ok, ros.set_micro_ros_result rc' w₂)

  -- What `sensor_do_process` makes of a sample.
  unfoldable pub publish_sample : ImuDataPayload F → W → W
  publish_sample imu w =
      let (q, w₁) = feed zsl mem imu w in
      let message : RosQuaternion R = record { x = q.i; y = q.j; z = q.k; w = q.r } in
      let (rc, w₂) = ros.publish message (ros.set_ros_quaternion message w₁) in
      ros.set_micro_ros_result rc w₂

  -- `sensor_do_process`
  unfoldable pub sensor_do_process : NodeHandler W
  sensor_do_process mes handle inst w = (ok, publish_sample (sample_of zsl mem mes w) w)

  -- `sensor_node_chain`
  abbrev pub sensor_node_chain : Chain W
  sensor_node_chain = record {
    first = record {
      name = some "Root sensor sample processor node";
      filters = orientation_filters;
      callbacks = record {
        init_handler = some sensor_init;
        evaluate_handler = none;
        matched_handler = none;
        start_handler = none;
        exec_handler = some sensor_do_process;
        stop_handler = none;
        error_handler = none;
      };
      config = 0;
    };
    next = [];
  }

module _ {F R W : Type 0} (plat : Platform W) (mem : Memory F R W) (sizeof_mes : ℕ)
    (subs : SlistTail (NodeSub W)) where
  -- The writes of `on_imu_data_production` to the sample at `imu` and to a new measurement. A payload
  -- that is NULL is the address 0.
  unfoldable pub fill_mes : ℕ → ℕ → W → W
  fill_mes imu mes w =
      let sample = mem.imu imu w in
      let w₁ = mem.set_imu imu (record sample { streamable = true }) w in
      let w₂ = plat.set_header mes imu_measurement_header w₁ in
      let payload : ℕ = elim (mem.payload mes w₂) [ none ↦ 0 | some a ↦ a ] in
      mem.set_imu payload (mem.imu imu w₂) w₂

  -- `on_imu_data_production`; the result of step_pm_put is not looked at.
  unfoldable pub on_imu_data_production : ℕ → System W → System W
  on_imu_data_production imu s =
      let (r, pool, w) = SamplePool.alloc plat sizeof_mes payload_sz (s.pool, s.world) in
      let s₁ = record s { pool = pool; world = w } in
      elim r [
        | none ↦ s₁
        | some mes ↦ (put plat subs (some mes) (record s₁ { world = fill_mes imu mes w })).1
      ]

  -- `main`, which starts the producer if the chain was registered: the producer, `none` while it has
  -- not calibrated its sensor and `main` waits, and the new state. `cb` is `on_imu_data_production`.
  unfoldable pub bridge_main :
      {S : Type 0}
      → Slist ℕ
      → Config
      → Chain W
      → (ℕ → S → S)
      → Producer F R S
      → System W
      → Option (Option (Producer F R S) × System W)
  bridge_main sl cfg chain cb p s = do
    (rc, handle, s₁) ← register sl cfg (some chain) 0 s
    some (elim (is_zero rc) [ false ↦ some p | true ↦ imu_producer_start cb p ], s₁)
