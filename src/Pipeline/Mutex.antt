-- ===== src/Pipeline/Mutex.antt =====
-- The mutex of src/sample_pool.c, step_sp_alloc_mtx, in the steps of the pipeline.
pub mod Stuck
use step.Common.{ℕ, ◌+◌, ◌≡◌, List, ◌∷◌, none, some, inl, inr, arith}
use step.Platform.{Platform, SlistTail}
use step.SamplePool.{Pool, alloc}
use step.SamplePool.Account.{alloc_outcome, free-some}
use step.ProcMgr.{NodeSub, NodeRecord, Config, System}
use step.ProcMgr.Process.{poll_handler}
use step.ProcMgr.Frame.{AllKeep}
use step.Pipeline.{WorkQueue, Same, Separate, Progress}
use step.Pipeline.Balance.{IsBalanced}
use step.Pipeline.Balance.Handling.{handled}

module _ {W : Type 0} (plat : Platform W) (sizeof_mes : ℕ) where
  pub alloc-some-mtx :
      (sz mes : ℕ) (p p' : Pool) (w w' : W)
      → alloc plat sizeof_mes sz (p, w) ≡ (some mes, p', w')
      → p'.alloc_mtx ≡ p.alloc_mtx
  alloc-some-mtx sz mes p p' w w' e = elim (alloc_outcome plat sizeof_mes sz p w) [
    | inl (f, _, _) ↦ absurd (ground (arith, e, f))
    | inr (m, _, same, _) ↦ rw e at same
  ]

  pub alloc-none-mtx :
      (sz : ℕ) (p p' : Pool) (w w' : W)
      → alloc plat sizeof_mes sz (p, w) ≡ (none, p', w')
      → p'.alloc_mtx ≡ p.alloc_mtx + 1
  alloc-none-mtx sz p p' w w' e = elim (alloc_outcome plat sizeof_mes sz p w) [
    | inl (_, more, _) ↦ rw e at more
    | inr (m, f, _, _) ↦ absurd (ground (arith, e, f))
  ]

module _ {W : Type 0} (plat : Platform W) (queue : WorkQueue W plat) (sep : Separate plat queue)
    (sizeof_mes : ℕ) (subs : SlistTail (NodeSub W)) (cfg : Config) (nodes : List (NodeRecord W))
    (slist : List ℕ) (keep : (l : List ℕ) → AllKeep (Same plat queue l) nodes slist) where
  -- The handler of a measurement of the queue ends only if the mutex is free, and leaves it free.
  pub handled-mtx :
      (a : Progress W) (mes sz : ℕ) (rest : List (ℕ × ℕ)) (s' : System W)
      → IsBalanced plat queue sep sizeof_mes subs cfg nodes slist keep a
      → a.queued ≡ (mes, sz) ∷ rest
      → (let s = a.sys in
          poll_handler plat sizeof_mes cfg mes (record s { world = queue.take s.world }))
        ≡ some s'
      → (a.sys.pool.alloc_mtx ≡ 0) × (s'.pool.alloc_mtx ≡ 0)
  handled-mtx a mes sz rest s' v first e =
      let (rc, n, w₁, kept, ran, freed) =
        handled plat queue sep sizeof_mes subs cfg nodes slist keep a mes sz rest s' v first e in
      let (before, after, _, _) =
        free-some plat sizeof_mes mes a.sys.pool s'.pool w₁ s'.world freed in
      (before, after)
