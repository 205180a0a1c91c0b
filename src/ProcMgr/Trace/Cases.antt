-- ===== src/ProcMgr/Trace/Cases.antt =====
-- The rounds of the loop of `step_pm_process` of src/proc_mgr.c, case by case.
use mathlib.Core.List.{append_assoc}
use step.Common.{
  ℕ, ◌+◌, ◌≡◌, refl, ◌++◌, List, some, ℤ, true, false, ◌>>=◌, ◌==◌, Option-cases, inl, inr,
  get_elem?,
}
use step.Platform.{Platform}
use step.Node.{Chain, nodes_of}
use step.Cache.{Cache}
use step.ProcMgr.{NodeRecord, Config, Manager, lock, unlock}
use step.ProcMgr.Process.{run_nodes, decide, run_record, process_record}
use step.ProcMgr.Trace.{
  Event, traced_chain, traced_record, traced_platform, record_calls, chain_calls, sub_calls,
}
use step.ProcMgr.Trace.Calls.{run_nodes-traced, notify-traced, with_calls}

-- The cases of a round.
module _ {W : Type 0} (plat : Platform W) (cfg : Config) (mes h n : ℕ) (rc : ℤ) (m : Manager W)
    (w : W) (r : NodeRecord W) where
  pub visit-disabled :
      get_elem? m.nodes h ≡ some r
      → r.enabled ≡ false
      → process_record plat cfg h mes (n, rc, m, w) ≡ some (n, rc, m, w)
  unfolding process_record
  visit-disabled at off = rw (at, off, process_record)

  module _ (c : Chain W) (v : ℕ) (rc₁ : ℤ) (cache : Cache) (w₁ : W)
      (at : get_elem? m.nodes h ≡ some r) (on : r.enabled ≡ true) (there : r.node ≡ some c)
      (d : decide plat cfg m.cache c.first mes r.handle rc w ≡ some (v, rc₁, cache, w₁)) where
    pub visit-passes :
        v == 0 ≡ true
        → process_record plat cfg h mes (n, rc, m, w)
          ≡ some (n, rc₁, lock (unlock (record m { cache = cache })), w₁)
    unfolding process_record
    visit-passes z = rw (at, on, there, d, z, process_record)

    pub visit-runs :
        v == 0 ≡ false
        → process_record plat cfg h mes (n, rc, m, w) ≡ (
            run_record plat r c mes w₁ >>= λ w₂.
            some (n + 1, rc₁, lock (unlock (record m { cache = cache })), w₂))
    unfolding process_record
    visit-runs nz = rw (at, on, there, d, nz, process_record)

record_calls-node :
    {W : Type 0} (nodes : List (NodeRecord W)) (h : ℕ) (r : NodeRecord W) (c : Chain W)
    → get_elem? nodes h ≡ some r
    → r.node ≡ some c
    → record_calls nodes h
      ≡ chain_calls (nodes_of c) r.handle 0 ++ sub_calls r.sub_callbacks r.handle
unfolding record_calls
record_calls-node nodes h r c at there = rw (at, there, record_calls)

pub run_record-traced :
    {W : Type 0} (plat : Platform W) (mes : ℕ) (nodes : List (NodeRecord W)) (h : ℕ)
    (r : NodeRecord W) (c : Chain W) (w : W) (l : List Event)
    → get_elem? nodes h ≡ some r
    → r.node ≡ some c
    → run_record (traced_platform plat) (traced_record r) (traced_chain c) mes (w, l)
      ≡ with_calls plat mes h (l ++ record_calls nodes h) (run_record plat r c mes w)
unfolding run_record
run_record-traced plat mes nodes h r c w l at there =
    elim (Option-cases (run_nodes plat (nodes_of c) mes r.handle 0 w)) [
      | inl e ↦ rw (run_nodes-traced plat mes r.handle (nodes_of c) 0 w l, e) refl
      | inr (w₁, e) ↦
          rw
            (
              run_nodes-traced plat mes r.handle (nodes_of c) 0 w l,
              e,
              record_calls-node nodes h r c at there,
              ← append_assoc,
              ← notify-traced plat mes r.handle r.sub_callbacks w₁
                  (l ++ chain_calls (nodes_of c) r.handle 0),
            )
            refl
    ]
