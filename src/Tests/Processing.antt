-- ===== src/Tests/Processing.antt =====
-- Tests of the processing of a measurement.
use step.Common.{
  false, if◌then◌else◌, ltb, ◌+◌, ◌-◌, ◌^◌, ◌%◌, ℕ, ◌<◌, ◌≡◌, refl, inl, inr, none, some, [], ◌∷◌,
  ℤ, ok, true, false, arith,
}
use step.Measurement.{filter_bits, flags_bits}
use step.Filter.{evaluate, evaluate_from, evaluate_filter, apply_op, curr_eval}
use step.Cache
use step.SamplePool
use step.Filter.Chain.{IsReadable, evaluate_total}
use step.ProcMgr.Register.{new_record}
use step.Cache.{Cache}
use step.Cache.Valid.{IsValid, Coherent, clear-IsValid}
use step.ProcMgr.{Manager, System, initialize_workqueue}
use step.ProcMgr.Process.{
  give_back, word_of, evaluate_node, confirm, decide, run_record, run_node, run_nodes, fire, notify,
  process_record, process_nodes, process,
}
use step.ProcMgr.Visit.{Kept, process-Kept, enabled_of, process_nodes-enabled_of}
use step.ProcMgr.Caching.{DecidesBy, decide-Coherent}
use step.ProcMgr.Total.{IsSafe, process-total}
use step.Instrumentation.{elapsed, elapsed_lem}
use step.Tests.Samples.{
  World, world, platform, node, chain, config, no_cache, filters, type_filter, word_filter,
}
use step.Tests.Registry.{registered, system}

-- The decision of the node by the filter word.
abbrev decides : ℕ → ℕ → ℕ
decides f h = elim (evaluate (some filters) (some f)) [ none ↦ 0 | some r ↦ r.1 ]

filters-IsReadable : IsReadable (some filters)
filters-IsReadable = inr (type_filter ∷ word_filter ∷ [], refl, omega arith)

decides-lt : (f h : ℕ) → decides f h < 2
decides-lt f h =
    let (r, e, o) = evaluate_total (some filters) (some f) filters-IsReadable in
    elim o [ inl (_, l) ↦ ground (arith, e) | inr (_, z) ↦ ground (arith, e) ]

node-DecidesBy : DecidesBy platform 64 decides node 0
unfolding evaluate_node confirm
node-DecidesBy = record {
  decision = λ rc w.
      let ((rc', m), e, o) =
        evaluate_total (some filters) (some (word_of platform 64 w)) filters-IsReadable in
      (m, rc', w, ground (arith, e), ground (arith, e), ground (arith, e));
  flag = λ f. decides-lt f 0;
}

cache-IsValid : IsValid 2 registered.cache
cache-IsValid = (clear-IsValid 2 no_cache).0

cache-Coherent : Coherent decides registered.cache
cache-Coherent f h v e = absurd (ground (arith, (clear-IsValid 2 no_cache).1 f h))

decide-Coherent_example :
    (rc' : ℤ) × (c' : Cache) × (w' : World) × (decide platform config registered.cache node 64 0 ok
        world
      ≡ some (decides (word_of platform 64 world) 0, rc', c', w'))
    × IsValid 2 c'
    × Coherent decides c'
    × ((rc'' : ℤ) × (w'' : World) × (decide platform
            (record config { filter_cache = false })
            registered.cache
            node
            64
            0
            ok
            world
          ≡ some (decides (word_of platform 64 world) 0, rc'', registered.cache, w'')))
decide-Coherent_example =
    decide-Coherent platform 64 config decides registered.cache node 0 ok world
      (λ w. (omega arith, omega arith)) (omega arith) refl cache-IsValid cache-Coherent
      node-DecidesBy

chain-IsSafe : IsSafe chain
chain-IsSafe = record { errors = ((_, refl), tt); filters = filters-IsReadable }

process-total_example :
    (r : ℤ × ℕ × System World) × (process platform 24 config 64 true system ≡ some r)
process-total_example =
    process-total platform 64 24 config true system (λ w. omega arith) (omega arith)
      (record { sized = cache-IsValid.sized; timed = cache-IsValid.timed })
      ((_, chain, refl, refl, chain-IsSafe), tt) (inr refl)

-- The node matches, and runs once.
pub processed :
    (s' : System World) × (process platform 24 config 64 true system ≡ some (ok, 1, s'))
    × (s'.world.calls ≡ 1)
unfolding process initialize_workqueue process_nodes process_record decide Cache.check
    Cache.check_loop Cache.hit Cache.clear Cache.add Cache.free_slot evaluate_node confirm evaluate
    evaluate_from evaluate_filter apply_op curr_eval filter_bits flags_bits run_record run_nodes
    run_node fire notify SamplePool.free give_back SamplePool.wait_lock
processed = (_, refl, refl)

process-Kept_example : Kept platform config 64 system.pm processed.0.pm
process-Kept_example = process-Kept platform config 64 24 true system processed.0 ok 1 processed.1

-- The node disabled.
abbrev disabled : Manager World
disabled = record registered {
  reg_access = 1;
  nodes = record (new_record (some chain) 3 0) { enabled = false } ∷ [];
}

process_nodes-enabled_of_example :
    process_nodes platform config (0 ∷ []) 64 (0, ok, disabled, world)
    ≡ process_nodes platform config [] 64 (0, ok, disabled, world)
unfolding enabled_of
process_nodes-enabled_of_example =
    process_nodes-enabled_of platform config 64 (0 ∷ []) 0 ok disabled world (omega arith)

-- 20 cycles, with the counter wrapped around.
elapsed_lem_example :
    elapsed (2 ^ 32 - 5) ((2 ^ 32 - 5 + 20) % 2 ^ 32)
    ≡ (if ltb (2 ^ 32 - 5 + 20) (2 ^ 32) then 20 else 20 - 1)
elapsed_lem_example = elapsed_lem (2 ^ 32 - 5) 20 (omega arith) (omega arith)
