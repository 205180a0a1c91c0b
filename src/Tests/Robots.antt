-- ===== src/Tests/Robots.antt =====
-- Tests of the mobile robot sample.
use step.Common.{
  true, false, ℕ, enomem, [], ◌∷◌, ◌++◌, ◌⊎◌, ◌+◌, ◌≡◌, refl, true, false, none, some, Option, ok,
  pos, arith, ◌<◌,
}
use step.Node.{nodes_of}
use step.Platform.{Platform}
use step.Measurement.{Header}
use step.Filter.{evaluate}
use step.SamplePool
use step.SamplePool.{zero_header}
use step.Platform.{SlistTail}
use step.ProcMgr.{NodeSub, System, initialize_workqueue}
use step.Samples.Robot.{velocity_filters, body_velocity}
use step.Samples.Robot.Commands.{
  payload_sz, joints_rpm_header, cmd_kinematics, cmd_set_speeds, cmd_calculate,
}
use step.Samples.Robot.Commands.Outcome.{Separate, commands-outcome}
use step.Tests.Samples.{no_cache, pool}
use step.ProcMgr.Process.{run_nodes, word_of}
use step.Samples.Robot.{Payload, Remote, iterate, average_rps_a, node_chain}
use step.Samples.Robot.Mecanum.{wheels, run-robot}
use step.Tests.Trits.{Trit, naught, plus, minus, float, exact, quarter}

-- The header and the payload of the measurement, what was sent, and the time; the endpoint is bound from the time 3
-- on.
pub record RobotWorld : Type 0 where
  pub header : Header
  pub payload : Payload Trit
  pub sent : Option (Payload Trit)
  pub ticks : ℕ

abbrev pub platform : Platform RobotWorld
platform = record {
  header = λ mes w. w.header;
  set_header = λ mes h w. record w { header = h };
  set_payload = λ mes p w. w;
  free_after_use = λ mes w. true;
  set_free_after_use = λ mes w. w;
  zero_bytes = λ p n w. w;
  uptime = λ w. (w.ticks, w);
  heap_alloc = λ n w. (some 64, w);
  heap_free = λ mes w. w;
  callback_alloc = λ w. some w;
  submit = λ mes w. (ok, w);
}

pub bound_at_once :
    (w : RobotWorld)
    → (n : ℕ) × (w ≡ iterate n (λ (v : RobotWorld). record v { ticks = v.ticks + 1 }) w)
      × (true ≡ true)
      × ((i : ℕ) → i < n → true ≡ false)
unfolding iterate
bound_at_once w = (0, refl, refl, λ i l. absurd (omega (arith, l)))

abbrev pub remote : Remote Trit RobotWorld
remote = record {
  payload = λ mes w. w.payload;
  set_payload = λ mes p w. record w { payload = p };
  ep_id = λ w. 7;
  set_ep_id = λ id w. w;
  sleep = λ ms w. record w { ticks = w.ticks + ms };
  register_endpoint = λ w. (pos 7, w);
  is_bound = λ id w. true;
  send = λ id p w. record w { sent = some p };
  after_init = λ w. w;
  after_init-first = bound_at_once;
}

abbrev pub robot_world : RobotWorld
robot_world = record {
  header = zero_header;
  payload = record {
    kinematics = record {
      length_x = plus;
      length_y = plus;
      wheel_radius = minus;
      total_wheels = pos 4;
    };
    joints = record { joint_speed_rpm = (naught, naught, naught, naught) };
    body = record { linear_velocity_x = naught; linear_velocity_y = naught; heading = naught };
    command = record {
      joint_desired_speed_rpm = wheels float exact plus minus plus;
      desired_body_speed_x = naught;
      desired_body_speed_y = naught;
      desired_body_heading = naught;
    };
  };
  sent = none;
  ticks = 1;
}

run-robot_example :
    (let p = robot_world.payload in
      let velocity : Trit → Trit = λ z. float.mul (float.div z (float.literal 60 0)) minus in
      let base =
        float.add (float.div plus (float.literal 2 0)) (float.div plus (float.literal 2 0)) in
      let p' = record p {
        body = record {
          linear_velocity_x = velocity plus;
          linear_velocity_y = velocity minus;
          heading = float.div (velocity minus) base;
        };
      } in
      (run_nodes platform (nodes_of (node_chain float remote)) 64 0 0 robot_world
        ≡ some (record robot_world { payload = p'; sent = some p' }))
      × (average_rps_a float p.command.joint_desired_speed_rpm
          ≡ float.div plus (float.literal 60 0)))
run-robot_example =
    run-robot float remote platform exact quarter 64 0 robot_world plus minus plus refl

pub separate : Separate Trit RobotWorld platform remote
separate = record {
  header-set_header = λ mes h w. refl;
  header-set_payload = λ mes p w. refl;
  payload-set_payload = λ mes p w. refl;
}

abbrev pub subscribers : SlistTail (NodeSub RobotWorld)
subscribers = record { append = λ l x. l ++ x ∷ []; append_lem = λ l x. refl }

abbrev pub system : System RobotWorld
system = record {
  pm = record {
    wqueue_started = true;
    wqueue_starts = 1;
    nodes = [];
    handle_counter = 0;
    slist = [];
    cache = no_cache;
    reg_access = 0;
  };
  pool = pool;
  world = robot_world;
}

commands-outcome_example :
    (let p = robot_world.payload in
      let strtof : Trit → Trit = λ x. x in
      let (rc₁, p₁) = cmd_kinematics float strtof (naught ∷ plus ∷ minus ∷ plus ∷ []) p in
      let (rc₂, payload) =
        cmd_set_speeds float strtof (naught ∷ plus ∷ plus ∷ minus ∷ naught ∷ []) p₁ in
      let calculate = cmd_calculate platform remote 24 subscribers payload system in
      let (r, pool, w₁) = SamplePool.alloc platform 24 payload_sz (pool, robot_world) in
      let circumference = float.mul (float.mul plus (float.literal 20 1)) (float.literal 31416 4) in
      let k = record (p.kinematics) {
        length_x = plus;
        length_y = minus;
        wheel_radius = circumference;
      } in
      let sent = record payload { body = body_velocity float k (plus, plus, minus, naught) } in
      (rc₁ ≡ ok)
      × (rc₂ ≡ ok)
      × (((r ≡ none) × (calculate ≡ (enomem, record system { pool = pool; world = w₁ })))
          ⊎ ((mes : ℕ) × (w : RobotWorld) × (r ≡ some mes)
              × (calculate
                  ≡ (ok, record { pm = initialize_workqueue system.pm; pool = pool; world = w }))
              × (w.header ≡ joints_rpm_header)
              × (evaluate (some velocity_filters) (some (word_of platform mes w)) ≡ some (ok, 1))
              × ((handle : ℕ)
                  → run_nodes platform (nodes_of (node_chain float remote)) mes handle 0 w
                    ≡ some (record w { payload = sent; sent = some sent })))))
commands-outcome_example =
    commands-outcome float (λ x. x) platform remote separate 24 subscribers naught naught plus minus
      plus plus plus minus naught robot_world.payload system
