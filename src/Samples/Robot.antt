-- ===== src/Samples/Robot.antt =====
-- The node of samples/mobile_robot_kinematic_server/src/kinematic_node.c and kinematic_node.h.
pub mod Mecanum
pub mod Commands
pub mod RemoteCore
use step.Common.{
  ◌<◌, ◌≡◌, false, ℕ, zero, suc, Bool, true, false, if◌then◌else◌, none, some, [], ◌∷◌, ◌≡◌, ℤ, pos,
  negsuc, ok,
}
use step.Measurement.{mask}
use step.Measurement.Types.{type_code, velocity}
use step.Filter.{FilterChain, op_is, not32}
use step.Node.{Chain, InitHandler, NodeHandler, ErrorHandler}
use step.Samples.Float.{Float}

-- `struct mobile_robot_kinematics`
pub record Kinematics (F : Type 0) : Type 0 where
  pub length_x : F
  pub length_y : F
  pub wheel_radius : F
  pub total_wheels : ℤ

-- An array of four speeds.
abbrev pub Speeds : Type 0 → Type 0
Speeds F = F × F × F × F

-- `struct mobile_robot_joint_speeds`
pub record JointSpeeds (F : Type 0) : Type 0 where
  pub joint_speed_rpm : Speeds F

-- `struct mobile_robot_body_velocity`
pub record BodyVelocity (F : Type 0) : Type 0 where
  pub linear_velocity_x : F
  pub linear_velocity_y : F
  pub heading : F

-- `struct mobile_robot_command_data`
pub record CommandData (F : Type 0) : Type 0 where
  pub joint_desired_speed_rpm : Speeds F
  pub desired_body_speed_x : F
  pub desired_body_speed_y : F
  pub desired_body_heading : F

-- `struct mobile_robot_node_payload`
pub record Payload (F : Type 0) : Type 0 where
  pub kinematics : Kinematics F
  pub joints : JointSpeeds F
  pub body : BodyVelocity F
  pub command : CommandData F

-- `f` applied `n` times.
unfoldable pub iterate : {A : Type 0} → ℕ → (A → A) → A → A
iterate zero f a = a
iterate (suc n) f a = iterate n f (f a)

-- The part of the memory that the node reaches, the payload of a measurement by the measurement's
-- address and `ep_id`, and the functions of the kernel that it calls: the sleep in milliseconds and
-- the RPMsg service. `after_init` is the memory in which the loop of `do_init` ends: the first one, by
-- sleeps of a millisecond, in which the service has bound the endpoint.
pub record Remote (F W : Type 0) : Type 0 where
  pub payload : ℕ → W → Payload F
  pub set_payload : ℕ → Payload F → W → W
  pub ep_id : W → ℕ
  pub set_ep_id : ℕ → W → W
  pub sleep : ℕ → W → W
  pub register_endpoint : W → ℤ × W
  pub is_bound : ℕ → W → Bool
  pub send : ℕ → Payload F → W → W
  pub after_init : W → W
  pub after_init-first :
      (w : W)
      → (n : ℕ) × (after_init w ≡ iterate n (sleep 1) w)
        × (is_bound (ep_id (after_init w)) (after_init w) ≡ true)
        × ((i : ℕ) → i < n → (let v = iterate i (sleep 1) w in is_bound (ep_id v) v ≡ false))

-- The filter of the node.
abbrev pub velocity_filters : FilterChain
velocity_filters = record {
  count = 1;
  chain =
      some (
        record { op = op_is; match = type_code velocity; ignore_mask = not32 mask.full_type } ∷ []);
}

module _ {F : Type 0} (float : Float F) where
  -- Revolutions per minute of four wheels as the mean of revolutions per second.
  abbrev pub per_second : F → F
  per_second sum = float.div (float.div sum (float.literal 4 0)) (float.literal 60 0)

  unfoldable pub average_rps_x : Speeds F → F
  average_rps_x (j0, j1, j2, j3) = per_second (float.add (float.add (float.add j0 j1) j2) j3)

  unfoldable pub average_rps_y : Speeds F → F
  average_rps_y (j0, j1, j2, j3) =
      per_second (float.sub (float.add (float.add (float.neg j0) j1) j2) j3)

  -- Computed, but not used.
  unfoldable pub average_rps_a : Speeds F → F
  average_rps_a (j0, j1, j2, j3) =
      per_second (float.add (float.sub (float.add (float.neg j0) j1) j2) j3)

  -- The body velocity that `do_process` computes.
  unfoldable pub body_velocity : Kinematics F → Speeds F → BodyVelocity F
  body_velocity k speeds =
      let two = float.literal 2 0 in
      let y = float.mul (average_rps_y speeds) k.wheel_radius in
      record {
        linear_velocity_x = float.mul (average_rps_x speeds) k.wheel_radius;
        linear_velocity_y = y;
        heading = float.div y (float.add (float.div k.length_x two) (float.div k.length_y two));
      }

module _ {F W : Type 0} (float : Float F) (remote : Remote F W) where
  -- `do_process`
  unfoldable pub do_process : NodeHandler W
  do_process mes handle inst w =
      let p = remote.payload mes w in
      let p' = record p {
        body = body_velocity float p.kinematics p.command.joint_desired_speed_rpm;
      } in
      (ok, remote.send (remote.ep_id w) p' (remote.set_payload mes p' w))

  -- `do_init`, where it returns: whether and when its loop ends is up to the service.
  unfoldable pub do_init : InitHandler W
  do_init cfg handle inst w = (ok, remote.after_init w)

  -- `do_error_handler`, which prints.
  abbrev pub do_error_handler : ErrorHandler W
  do_error_handler mes handle inst error w = w

  abbrev pub node_chain : Chain W
  node_chain = record {
    first = record {
      name = some "Root sensor sample processor node";
      filters = velocity_filters;
      callbacks = record {
        init_handler = some do_init;
        evaluate_handler = none;
        matched_handler = none;
        start_handler = none;
        exec_handler = some do_process;
        stop_handler = none;
        error_handler = some do_error_handler;
      };
      config = 0;
    };
    next = [];
  }

  -- `register_endpoint`
  unfoldable pub register_endpoint : W → ℤ × W
  register_endpoint w =
      let (status, w₁) = remote.register_endpoint w in
      elim status [ negsuc n ↦ (negsuc n, w₁) | pos n ↦ (ok, remote.set_ep_id n w₁) ]
