-- ===== src/Samples/Robot/Commands.antt =====
-- The commands of samples/mobile_robot_kinematic_server/src/main.c.
pub mod Outcome
use step.Common.{ℕ, Option, none, some, List, [], ◌∷◌, ℤ, ok, einval, enomem, ◌>>=◌}
use step.Measurement.{Header}
use step.Measurement.Types.{type_code, velocity}
use step.Measurement.FieldValues.{
  format_code, format_none, encoding_code, encoding_none, compression_code, compression_none,
  timestamp_code, timestamp_uptime_ms_32,
}
use step.Measurement.Si
use step.Measurement.Ctype
use step.Node.{Chain}
use step.Platform.{Platform, Slist, SlistTail}
use step.SamplePool
use step.ProcMgr.{NodeSub, Config, System, put}
use step.ProcMgr.Register.{register}
use step.Samples.Float.{Float}
use step.Samples.Robot.{Payload, Remote}

-- The size of `struct mobile_robot_node_payload`: 17 numbers of the type `float` and an `int`.
abbrev pub payload_sz : ℕ
payload_sz = 72

-- `joints_rpm_header`
unfoldable pub joints_rpm_header : Header
joints_rpm_header = record {
  filter = record {
    base_type = type_code velocity;
    ext_type = 0;
    flags = record {
      data_format = format_code format_none;
      encoding = encoding_code encoding_none;
      compression = compression_code compression_none;
      timestamp = timestamp_code timestamp_uptime_ms_32;
      rsvd = 0;
    };
  };
  unit = record {
    si_unit = Si.si_code Si.radian;
    scale_factor = 0;
    ctype = Ctype.code Ctype.ieee754_float32;
  };
  srclen = record { len = payload_sz; fragment = 0; vec_sz = 0; samples = 0; sourceid = 0 };
}

-- `strtof` reads a number from an argument; the arguments `argv` begin with the name of the command.
-- The state is the static variable `payload`.
module _ {F S : Type 0} (float : Float F) (strtof : S → F) where
  -- `step_robot_cmd_kinematics`; the radius is stored as the circumference.
  unfoldable pub cmd_kinematics : List S → Payload F → ℤ × Payload F
  cmd_kinematics (name ∷ x ∷ y ∷ radius ∷ []) p =
      let circumference =
        float.mul (float.mul (strtof radius) (float.literal 20 1)) (float.literal 31416 4) in
      let k = p.kinematics in
      (
        ok,
        record p {
          kinematics = record k {
            length_x = strtof x;
            length_y = strtof y;
            wheel_radius = circumference;
          };
        },
      )
  cmd_kinematics argv p = (einval, p)

  -- `step_robot_cmd_set_speeds`
  unfoldable pub cmd_set_speeds : List S → Payload F → ℤ × Payload F
  cmd_set_speeds (name ∷ a ∷ b ∷ c ∷ d ∷ []) p =
      let command = p.command in
      (
        ok,
        record p {
          command = record command {
            joint_desired_speed_rpm = (strtof a, strtof b, strtof c, strtof d);
          };
        },
      )
  cmd_set_speeds argv p = (einval, p)

module _ {F W : Type 0} (plat : Platform W) (remote : Remote F W) (sizeof_mes : ℕ)
    (subs : SlistTail (NodeSub W)) where
  -- The writes to a new measurement.
  unfoldable pub fill_mes : ℕ → Payload F → W → W
  fill_mes mes p w = remote.set_payload mes p (plat.set_header mes joints_rpm_header w)

  -- `step_robot_cmd_set_calculate`, without CONFIG_SOC_MPS2_AN521; the result of step_pm_put is not
  -- looked at.
  unfoldable pub cmd_calculate : Payload F → System W → ℤ × System W
  cmd_calculate p s =
      let (r, pool, w) = SamplePool.alloc plat sizeof_mes payload_sz (s.pool, s.world) in
      let s₁ = record s { pool = pool; world = w } in
      elim r [
        | none ↦ (enomem, s₁)
        | some mes ↦
            let (rc, s₂) = put plat subs (some mes) (record s₁ { world = fill_mes mes p w }) in
            (ok, s₂)
      ]

  -- `main`: nothing is done after the registration.
  unfoldable pub robot_main : Slist ℕ → Config → Chain W → System W → Option (System W)
  robot_main sl cfg node_chain s = do
    (rc, handle, s₁) ← register sl cfg (some node_chain) 0 s
    some s₁
