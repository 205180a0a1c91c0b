-- ===== src/Samples/Robot/RemoteCore.antt =====
-- The second core of the mobile robot sample,
-- samples/mobile_robot_kinematic_server/remote/src/kinematic_node.c and main.c: it receives the
-- payload of the first core over RPMsg and computes the speeds of the joints. The types are those of
-- kinematic_node.h, which both cores have.
pub mod Returned
use step.Common.{ℕ, Option, none, some, List, [], ◌∷◌, ℤ, pos, negsuc, ok, ◌>>=◌}
use step.Measurement.{Header, mask}
use step.Measurement.Types.{type_code, velocity}
use step.Measurement.FieldValues.{
  format_code, format_none, encoding_code, encoding_none, compression_code, compression_none,
  timestamp_code, timestamp_uptime_ms_32,
}
use step.Measurement.Si
use step.Measurement.Ctype
use step.Filter.{FilterChain, op_is, not32}
use step.Node.{Chain, InitHandler, NodeHandler, ErrorHandler}
use step.Platform.{Platform, Slist, SlistTail}
use step.SamplePool
use step.ProcMgr.{NodeSub, Config, System, put}
use step.ProcMgr.Register.{register}
use step.Samples.Float.{Float}
use step.Samples.Robot.{Kinematics, BodyVelocity, Speeds, Payload, Remote}
use step.Samples.Robot.Commands.{payload_sz}

-- `joints_rpm_header`
unfoldable pub joints_rpm_header : Header
joints_rpm_header = record {
  filter = record {
    base_type = type_code velocity;
    ext_type = 0;
    flags = record {
      data_format = format_code format_none;
      encoding = encoding_code encoding_none;
      compression = compression_code compression_none;
      timestamp = timestamp_code timestamp_uptime_ms_32;
      rsvd = 0;
    };
  };
  unit = record {
    si_unit = Si.si_code Si.radian;
    scale_factor = 0;
    ctype = Ctype.code Ctype.ieee754_float32;
  };
  srclen = record { len = payload_sz; fragment = 0; vec_sz = 0; samples = 0; sourceid = 0 };
}

-- The filter of the node.
abbrev pub velocity_filters : FilterChain
velocity_filters = record {
  count = 1;
  chain =
      some (
        record { op = op_is; match = type_code velocity; ignore_mask = not32 mask.full_type } ∷ []);
}

module _ {F : Type 0} (float : Float F) where
  -- The speeds of the joints that `do_process` computes from the body velocity `b`.
  unfoldable pub joint_speeds : Kinematics F → BodyVelocity F → Speeds F
  joint_speeds k b =
      let two = float.literal 2 0 in
      let sixty = float.literal 60 0 in
      let tangential_vel =
        float.mul (float.mul b.heading sixty)
          (float.add (float.div k.length_x two) (float.div k.length_y two)) in
      let x_rpm = float.div (float.mul b.linear_velocity_x sixty) k.wheel_radius in
      let y_rpm = float.div (float.mul b.linear_velocity_y sixty) k.wheel_radius in
      let tan_rpm = float.div tangential_vel k.wheel_radius in
      (
        float.sub (float.sub x_rpm y_rpm) tan_rpm,
        float.add (float.add x_rpm y_rpm) tan_rpm,
        float.sub (float.add x_rpm y_rpm) tan_rpm,
        float.add (float.sub x_rpm y_rpm) tan_rpm,
      )

  -- The payload that `do_process` stores and sends: the velocity to the side is ignored.
  unfoldable pub computed : Payload F → Payload F
  computed p =
      let b = p.body in
      let body : BodyVelocity F = record b { linear_velocity_y = float.literal 0 0 } in
      record p { joints = record { joint_speed_rpm = joint_speeds p.kinematics body }; body = body }

module _ {F W : Type 0} (float : Float F) (remote : Remote F W) where
  -- `do_process`
  unfoldable pub do_process : NodeHandler W
  do_process mes handle inst w =
      let p = computed float (remote.payload mes w) in
      (ok, remote.send (remote.ep_id w) p (remote.set_payload mes p w))

  -- `do_init`
  abbrev pub do_init : InitHandler W
  do_init cfg handle inst w = (ok, w)

  -- `do_error_handler`, which prints.
  abbrev pub do_error_handler : ErrorHandler W
  do_error_handler mes handle inst error w = w

  abbrev pub node_chain : Chain W
  node_chain = record {
    first = record {
      name = some "Root sensor sample processor node";
      filters = velocity_filters;
      callbacks = record {
        init_handler = some do_init;
        evaluate_handler = none;
        matched_handler = none;
        start_handler = none;
        exec_handler = some do_process;
        stop_handler = none;
        error_handler = some do_error_handler;
      };
      config = 0;
    };
    next = [];
  }

  -- `register_endpoint`
  unfoldable pub register_endpoint : W → ℤ × W
  register_endpoint w =
      let (status, w₁) = remote.register_endpoint w in
      elim status [ negsuc n ↦ (negsuc n, w₁) | pos n ↦ (ok, remote.set_ep_id n w₁) ]

module _ {F W : Type 0} (plat : Platform W) (remote : Remote F W) (sizeof_mes : ℕ)
    (subs : SlistTail (NodeSub W)) where
  -- The writes of `endpoint_cb` to a new measurement.
  unfoldable pub fill_mes : ℕ → Payload F → W → W
  fill_mes mes rx_payload w =
      remote.set_payload mes rx_payload (plat.set_header mes joints_rpm_header w)

  -- `endpoint_cb` on the payload received. It always returns RPMSG_SUCCESS, so that only the new
  -- state is a result; the result of step_pm_put is not looked at.
  unfoldable pub endpoint_cb : Payload F → System W → System W
  endpoint_cb rx_payload s =
      let (r, pool, w) = SamplePool.alloc plat sizeof_mes payload_sz (s.pool, s.world) in
      let s₁ = record s { pool = pool; world = w } in
      elim r [
        | none ↦ s₁
        | some mes ↦ (put plat subs (some mes) (record s₁ { world = fill_mes mes rx_payload w })).1
      ]

  -- `main`: nothing is done after the registration.
  unfoldable pub remote_main : Slist ℕ → Config → Chain W → System W → Option (System W)
  remote_main sl cfg chain s = do (rc, handle, s₁) ← register sl cfg (some chain) 0 s; some s₁
