-- ===== src/ProcMgr/Submit.antt =====
-- The submission of a measurement by `step_pm_put` of src/proc_mgr.c.
use step.Common.{ℕ, ◌≡◌, refl, ℤ, pos, negsuc, some}
use step.Platform.{Platform, SlistTail}
use step.ProcMgr.{NodeSub, System, initialize_workqueue, put}

module _ {W : Type 0} (plat : Platform W) (subs : SlistTail (NodeSub W)) where
  -- What `step_pm_put` does to the system, whatever the work queue answers.
  pub put-submit :
      (mes : ℕ) (s : System W)
      → (put plat subs (some mes) s).1
        ≡ record s { pm = initialize_workqueue s.pm; world = (plat.submit mes s.world).1 }
  unfolding put
  put-submit mes s = go (plat.submit mes s.world).0 refl
    where
      go :
          (rc : ℤ)
          → (plat.submit mes s.world).0 ≡ rc
          → (put plat subs (some mes) s).1
            ≡ record s { pm = initialize_workqueue s.pm; world = (plat.submit mes s.world).1 }
      go (pos n) e = rw (e, put)
      go (negsuc n) e = rw (e, put)
