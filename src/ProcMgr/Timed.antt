-- ===== src/ProcMgr/Timed.antt =====
-- CONFIG_STEP_INSTRUMENTATION in src/proc_mgr.c: the run times of the records in step_pm_process, and
-- step_pm_list, which prints them.
pub mod Counting
pub mod Totals
pub mod Listing
use Prim.Native.String.{String}
use step.Common.{
  ℕ, suc, ◌+◌, ◌/◌, ◌==◌, if◌then◌else◌, Bool, true, false, Option, none, some, ◌>>=◌, List, [],
  ◌∷◌, ◌++◌, get_elem?, set, ℤ, ok,
}
use step.Instrumentation.{elapsed}
use step.Platform.{Platform}
use step.Node.{Node, Chain, nodes_of}
use step.SamplePool.{add32}
use step.ProcMgr.{NodeRecord, Config, Manager, System, lock, unlock, initialize_workqueue}
use step.ProcMgr.Process.{process_record, give_back}

-- The fields `runtime_ns` and `runs` of a record. Those of `step_pm_nodes` are an array beside it.
pub record Timing : Type 0 where
  pub runtime_ns : ℕ
  pub runs : ℕ

-- `k_cycle_get_32` and `k_cyc_to_ns_floor32`
pub record Clock (W : Type 0) : Type 0 where
  pub cycle_get : W → ℕ × W
  pub cyc_to_ns : ℕ → ℕ

module _ {W : Type 0} (plat : Platform W) (clock : Clock W) where
  abbrev pub State : Type 0
  State = (ℕ × ℤ × Manager W × W) × List Timing

  -- One round of the loop: that of an enabled record is timed from its first to its last step.
  unfoldable pub timed_record : Config → ℕ → ℕ → State → Option State
  timed_record cfg h mes (st, ts) = do
    r ← get_elem? st.2.nodes h
    if r.enabled
        then (do
          let (start, w₁) = clock.cycle_get st.3
          let (match_count, rc, m, w) = st
          (n', rc', m', w₂) ← process_record plat cfg h mes (match_count, rc, m, w₁)
          let (end, w₃) = clock.cycle_get w₂
          let instr = clock.cyc_to_ns (elapsed start end)
          x ← get_elem? ts h
          let x' : Timing = record { runtime_ns = add32 x.runtime_ns instr; runs = add32 x.runs 1 }
          some ((n', rc', m', w₃), set ts h x'))
        else some (st, ts)

  unfoldable pub timed_nodes : Config → List ℕ → ℕ → State → Option State
  timed_nodes cfg [] mes st = some st
  timed_nodes cfg (h ∷ hs) mes st = elim (timed_record cfg h mes st) [
    | none ↦ none
    | some st' ↦ timed_nodes cfg hs mes st'
  ]

  -- `step_pm_process`
  unfoldable pub timed_process :
      ℕ → Config → ℕ → Bool → System W × List Timing → Option (ℤ × ℕ × System W × List Timing)
  timed_process sizeof_mes cfg mes free (s, ts) =
      let m = lock (initialize_workqueue s.pm) in
      do
        (st, ts') ← timed_nodes cfg m.slist mes ((0, ok, m, s.world), ts)
        let (match_count, rc, m₁, w) = st
        (pool, w₁) ← give_back plat sizeof_mes mes free (s.pool, w)
        some (rc, match_count, record { pm = unlock m₁; pool = pool; world = w₁ }, ts')

-- The lines that `step_pm_list` prints.
pub data Line : Type 0 where
  heading no_node : Line
  record_of : ℕ → ℕ → Line
  total_time : ℕ → ℕ → ℕ → Line
  instance_of : ℕ → Option String → Line

-- A division, which by 0 is undefined.
unfoldable pub divide : ℕ → ℕ → Option ℕ
divide a b = if b == 0 then none else some (a / b)

-- `instrumented` is CONFIG_STEP_INSTRUMENTATION.
module _ {W : Type 0} (instrumented : Bool) where
  -- The names of the nodes of a chain.
  unfoldable pub list_chain : List (Node W) → ℕ → List Line
  list_chain [] inst = []
  list_chain (n ∷ ns) inst = instance_of inst n.name ∷ list_chain ns (suc inst)

  unfoldable pub list_record : NodeRecord W → Timing → Option (List Line)
  list_record r x =
      if instrumented
      then (do
        avg ← divide x.runtime_ns x.runs
        chain ← r.node
        some (
            record_of r.handle r.priority
            ∷ total_time x.runtime_ns avg x.runs
            ∷ list_chain (nodes_of chain) 0))
      else (do chain ← r.node; some (record_of r.handle r.priority ∷ list_chain (nodes_of chain) 0))

  unfoldable pub list_records : List (NodeRecord W) → List Timing → List ℕ → Option (List Line)
  list_records nodes ts [] = some []
  list_records nodes ts (h ∷ hs) = do
    r ← get_elem? nodes h
    x ← get_elem? ts h
    lines ← list_record r x
    rest ← list_records nodes ts hs
    some (lines ++ rest)

  -- The lines of an empty and of another registry.
  unfoldable pub list_registry : List (NodeRecord W) → List Timing → List ℕ → Option (List Line)
  list_registry nodes ts [] = some (heading ∷ no_node ∷ [])
  list_registry nodes ts (h ∷ hs) = do
    lines ← list_records nodes ts (h ∷ hs)
    some (heading ∷ lines)

  -- `step_pm_list`: the return code, the lines printed and the new state.
  unfoldable pub pm_list : Manager W → List Timing → Option (ℤ × List Line × Manager W)
  pm_list m ts =
      let m₁ = initialize_workqueue m in
      do lines ← list_registry m₁.nodes ts m₁.slist; some (ok, lines, m₁)
