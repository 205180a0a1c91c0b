-- ===== src/Tests/Throughputs.antt =====
-- Tests of the throughput sample, over the memory of the tests of the pipeline.
use step.Common.{ℕ, ◌≡◌, ◌⊎◌, refl, true, false, some, ok}
use step.Node.{Chain}
use step.ProcMgr.{System, initialize_workqueue}
use step.ProcMgr.Register.{register, find_slot, priority_of, insert_node, init_nodes}
use step.ProcMgr.Timed.{Clock}
use step.Samples.Throughput.{
  AccelPayload, throughput_msgs, node_init, test_node, rounds, throughput_main,
}
use step.Samples.Throughput.Report.{Reported, main-report}
use step.Tests.Samples.{config, slist}
use step.Tests.Trits.{Trit, float}
use step.Tests.Pipelines.{QueueWorld, platform, subscribers, system}

-- A cycle counter that stands still, and a payload that nobody reads.
abbrev clock : Clock QueueWorld
clock = record { cycle_get = λ w. (7, w); cyc_to_ns = λ n. n }

abbrev set_accel : ℕ → AccelPayload Trit → QueueWorld → QueueWorld
set_accel mes p w = w

abbrev chain : Chain QueueWorld
chain = test_node (λ handle inst w. true)

-- The node is registered behind the one that is there.
registered :
    (s₁ : System QueueWorld) × (register slist config (some chain) 0 system ≡ some (ok, 1, s₁))
unfolding register find_slot priority_of insert_node init_nodes node_init initialize_workqueue
registered = (_, refl)

main-report_example :
    (let r =
        rounds float platform clock false set_accel 24 subscribers throughput_msgs 0 0
          registered.0 in
      Reported float platform clock set_accel 24 subscribers r (
        throughput_main float platform clock false set_accel 24 subscribers slist config chain
          system)
      × ((false ≡ true) ⊎ (r.1 ≡ 0)))
main-report_example =
    main-report float platform clock set_accel 24 subscribers false slist config chain 1 system
      registered.0 registered.1
