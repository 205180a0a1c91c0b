-- ===== src/Tests/Tracing.antt =====
-- A test of the calls that the processing of a measurement makes.
use step.Common.{◌≡◌, ◌++◌, List, [], ℕ, ok, length, some, true}
use step.ProcMgr.Process.{give_back, process}
use step.ProcMgr.Order.{Sorted}
use step.ProcMgr.Registry.{pri_at}
use step.ProcMgr.Trace.{traced_platform}
use step.ProcMgr.Trace.Visits.{Picks, calls_of}
use step.ProcMgr.Trace.Runs.{traced_system, process-calls}
use step.Tests.Samples.{World, platform, config}
use step.Tests.Registry.{registered, system, registered-IsRegistry}
use step.Tests.Processing.{processed}

process-calls_example :
    (sel : List ℕ) × (w : World) × Picks platform config 64 registered.nodes registered.slist
      (ok, system.pm.cache, system.world)
      sel
      (ok, processed.0.pm.cache, w)
    × (give_back platform 24 64 true (system.pool, w) ≡ some (processed.0.pool, processed.0.world))
    × Sorted (pri_at registered.nodes) sel
    × (1 ≡ length sel)
    × (process
          (traced_platform platform)
          24
          config
          64
          true
          (traced_system platform config 64 [] system)
        ≡ some (
          ok,
          1,
          traced_system platform config 64 ([] ++ calls_of registered.nodes sel) processed.0,
        ))
process-calls_example =
    process-calls platform config 64 24 true system processed.0 ok 1 [] registered-IsRegistry
      processed.1
