-- ===== src/ProcMgr/Release.antt =====
-- When `step_pm_process` of src/proc_mgr.c gives a measurement back to the sample pool.
use step.Common.{
  ℕ, ◌≡◌, inl, inr, ◌⊎◌, refl, none, ◌<◌, true, false, Bool, some, ℤ, ok, Option-cases, arith,
}
use step.Platform.{Platform}
use step.SamplePool
use step.SamplePool.{Pool, wait_lock}
use step.SamplePool.Account.{free-waits}
use step.ProcMgr.{Config, Manager, System, lock, unlock, initialize_workqueue}
use step.ProcMgr.Process.{process_nodes, give_back, process, poll_handler}

module _ {W : Type 0} (plat : Platform W) (cfg : Config) (mes : ℕ) where
  -- A call of `step_pm_process` that ends: the loop over the nodes has ended in some memory, with its
  -- return code and number of matches, and then the measurement was given back.
  pub process-free :
      (sizeof_mes : ℕ) (free : Bool) (s s' : System W) (rc : ℤ) (n : ℕ)
      → process plat sizeof_mes cfg mes free s ≡ some (rc, n, s')
      → (m₁ : Manager W) × (w₁ : W) × (process_nodes plat cfg s.pm.slist mes
            (0, ok, lock (initialize_workqueue s.pm), s.world)
          ≡ some (n, rc, m₁, w₁))
        × (s'.pm ≡ unlock m₁)
        × (give_back plat sizeof_mes mes free (s.pool, w₁) ≡ some (s'.pool, s'.world))
  unfolding process initialize_workqueue
  process-free sizeof_mes free s s' rc n e =
      let m : Manager W = lock (initialize_workqueue s.pm) in
      elim (Option-cases (process_nodes plat cfg s.pm.slist mes (0, ok, m, s.world))) [
        | inl f ↦ absurd (ground (arith, f))
        | inr ((n₁, rc₁, m₁, w₁), q) ↦
            elim (Option-cases (give_back plat sizeof_mes mes free (s.pool, w₁))) [
              | inl f ↦ absurd (ground (arith, q, f))
              | inr ((p, w), g) ↦
                  (m₁, w₁, ground (arith, q, g), ground (arith, q, g), ground (arith, q, g))
            ]
      ]

  -- The release ends unless it has to wait.
  pub give_back-total :
      (sizeof_mes : ℕ) (free : Bool) (p : Pool) (w : W)
      → (free ≡ false) ⊎ (p.alloc_mtx ≡ 0)
      → (st : Pool × W) × (give_back plat sizeof_mes mes free (p, w) ≡ some st)
  unfolding give_back SamplePool.free wait_lock
  give_back-total sizeof_mes false p w h = (_, refl)
  give_back-total sizeof_mes true p w (inl e) = absurd (cc)
  give_back-total sizeof_mes true p w (inr e) =
      elim (Option-cases (SamplePool.free plat sizeof_mes mes (p, w))) [
        | inl f ↦ absurd (ground (arith, e, f))
        | inr (st, g) ↦ (st, g)
      ]

  -- One whose loop ends and whose measurement can be given back.
  pub process-ends :
      (sizeof_mes : ℕ) (free : Bool) (s : System W) (n : ℕ) (rc : ℤ) (m : Manager W) (w w' : W)
      (p : Pool)
      → process_nodes plat cfg s.pm.slist mes (0, ok, lock (initialize_workqueue s.pm), s.world)
        ≡ some (n, rc, m, w)
      → give_back plat sizeof_mes mes free (s.pool, w) ≡ some (p, w')
      → process plat sizeof_mes cfg mes free s
        ≡ some (rc, n, record { pm = unlock m; pool = p; world = w' })
  unfolding process initialize_workqueue
  process-ends sizeof_mes free s n rc m w w' p e g = rw (e, g, process)

  -- While the mutex of the pool is held, the handler of the work queue waits for good on a measurement
  -- that is to be freed after use.
  pub poll_handler-waits :
      (sizeof_mes : ℕ) (s : System W)
      → 0 < s.pool.alloc_mtx
      → plat.free_after_use mes s.world ≡ true
      → poll_handler plat sizeof_mes cfg mes s ≡ none
  unfolding poll_handler give_back
  poll_handler-waits sizeof_mes s held flag =
      elim (Option-cases (process plat sizeof_mes cfg mes true s)) [
        | inl e ↦ rw (flag, e) refl
        | inr ((rc, n, s'), e) ↦
            let (m₁, w₁, loop, at, back) = process-free sizeof_mes true s s' rc n e in
            let stuck = free-waits plat sizeof_mes mes s.pool w₁ held in
            absurd (ground (arith, back, stuck))
      ]
