-- ===== src/Tests/Cores.antt =====
-- Tests of the two cores of the mobile robot sample: both have the memory of the tests of the first.
use step.Common.{◌≡◌, ◌⊎◌, ℕ, refl, none, some, ok}
use step.Node.{nodes_of}
use step.Filter.{evaluate}
use step.SamplePool
use step.ProcMgr.{initialize_workqueue}
use step.ProcMgr.Process.{run_nodes, word_of}
use step.Samples.Robot
use step.Samples.Robot.{Payload}
use step.Samples.Robot.Commands.{payload_sz}
use step.Samples.Robot.Mecanum.{wheels}
use step.Samples.Robot.RemoteCore.{node_chain, velocity_filters, endpoint_cb}
use step.Samples.Robot.RemoteCore.Returned.{Divides, joints-returned}
use step.Tests.Robots.{RobotWorld, platform, remote, robot_world, separate, subscribers, system}
use step.Tests.Trits.{Trit, naught, plus, minus, up, product, opposite, sum, float, exact, quarter}

turned_twice : (z : Trit) → product (product (product (product z plus) minus) plus) minus ≡ z
unfolding product opposite
turned_twice naught = refl
turned_twice plus = refl
turned_twice minus = refl

scaled_back :
    (v : Trit)
    → (let b = sum (product plus plus) (product plus plus) in
        product (product (product v b) plus) b ≡ product v plus)
unfolding product opposite sum up
scaled_back naught = refl
scaled_back plus = refl
scaled_back minus = refl

naught_turned : product (product naught plus) minus ≡ naught
unfolding product
naught_turned = refl

divides : Divides Trit float robot_world.payload.kinematics
divides = record {
  quarter = quarter;
  radius = turned_twice;
  base = scaled_back;
  zero = naught_turned;
}

joints-returned_example :
    (let (r, pool, w₁) = SamplePool.alloc platform 24 payload_sz (system.pool, robot_world) in
      (p : Payload Trit) × (run_nodes platform
          (nodes_of (Robot.node_chain float remote))
          64
          0
          0
          robot_world
        ≡ some (record robot_world { payload = p; sent = some p }))
      × (let s' = endpoint_cb platform remote 24 subscribers p system in
          ((r ≡ none) × (s' ≡ record system { pool = pool; world = w₁ }))
          ⊎ ((mes' : ℕ) × (w' : RobotWorld) × (q : Payload Trit) × (r ≡ some mes')
              × (s' ≡ record { pm = initialize_workqueue system.pm; pool = pool; world = w' })
              × (evaluate (some velocity_filters) (some (word_of platform mes' w')) ≡ some (ok, 1))
              × ((handle' : ℕ)
                  → run_nodes platform (nodes_of (node_chain float remote)) mes' handle' 0 w'
                    ≡ some (record w' { payload = q; sent = some q }))
              × (q.joints.joint_speed_rpm ≡ wheels float exact plus naught minus))))
joints-returned_example =
    joints-returned float exact platform remote platform remote separate 24 subscribers 64 0
      robot_world plus minus plus system refl divides
