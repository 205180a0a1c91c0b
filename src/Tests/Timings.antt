-- ===== src/Tests/Timings.antt =====
-- Tests of the instrumented processing.
use step.Common.{
  ◌≡◌, ◌⊎◌, ◌<◌, ℕ, refl, List, [], ◌∷◌, length, get_elem?, if◌then◌else◌, ok, some, none, true,
}
use step.SamplePool.{add32}
use step.ProcMgr.{NodeRecord, initialize_workqueue}
use step.ProcMgr.Timed.{Timing, Clock, Line, timed_process, pm_list}
use step.ProcMgr.Timed.Counting.{runs_at}
use step.ProcMgr.Timed.Totals.{timed_process-runs}
use step.ProcMgr.Timed.Listing.{AllRan, Unrun, handles_of, pm_list-ran}
use step.Tests.Samples.{World, platform, config}
use step.Tests.Registry.{registered, system, registered-IsRegistry}
use step.Tests.Processing.{processed}

abbrev clock : Clock World
clock = record { cycle_get = λ w. (7, w); cyc_to_ns = λ n. n }

-- Two records, the second of which is not in use.
abbrev timings : List Timing
timings = record { runtime_ns = 30; runs = 2 } ∷ record { runtime_ns = 0; runs = 0 } ∷ []

timed_process-runs_example :
    (ts' : List Timing) × (timed_process platform clock 24 config 64 true (system, timings)
      ≡ some (ok, 1, processed.0, ts'))
    × (length ts' ≡ 2)
    × ((k : ℕ) (r : NodeRecord World)
        → k < 1
        → get_elem? registered.nodes k ≡ some r
        → runs_at ts' k ≡ (if r.enabled then add32 (runs_at timings k) 1 else runs_at timings k))
timed_process-runs_example =
    timed_process-runs platform clock 24 config 64 true system processed.0 ok 1 timings (λ w. refl)
      registered-IsRegistry refl processed.1

pm_list-ran_example :
    (AllRan true timings (0 ∷ [])
      × ((lines : List Line) × (pm_list true registered timings
            ≡ some (ok, lines, initialize_workqueue registered))
          × (handles_of lines ≡ 0 ∷ [])))
    ⊎ (Unrun true timings (0 ∷ []) × (pm_list true registered timings ≡ none))
pm_list-ran_example = pm_list-ran true config registered timings registered-IsRegistry refl
