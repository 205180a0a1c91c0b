-- ===== src/Pipeline/Balance/Drain.antt =====
-- The work queue of the pipeline runs empty: step_pm_poll_handler of src/proc_mgr.c ends on each
-- measurement.
use step.Common.{ℕ, ◌<◌, List}
use step.Cache.Valid.{IsTimed}
use step.Platform.{Platform, SlistTail}
use step.ProcMgr.{NodeSub, NodeRecord, Config}
use step.ProcMgr.Total.{IsBounded, AllSafe}
use step.ProcMgr.Frame.{AllKeep}
use step.Pipeline.{WorkQueue, Same, Separate, Progress, Run}
use step.Pipeline.Balance.{IsBalanced}

module _ {W : Type 0} (plat : Platform W) (queue : WorkQueue W plat) (sep : Separate plat queue)
    (sizeof_mes : ℕ) (subs : SlistTail (NodeSub W)) (cfg : Config) (nodes : List (NodeRecord W))
    (slist : List ℕ) (keep : (l : List ℕ) → AllKeep (Same plat queue l) nodes slist)
    (clock : (mes : ℕ) → IsBounded plat mes) (deep : 0 < cfg.cache_depth)
    (safe : (mes : ℕ) → AllSafe plat mes nodes slist) where
  abbrev Balanced : Progress W → Type 0
  Balanced = IsBalanced plat queue sep sizeof_mes subs cfg nodes slist keep

  abbrev Steps : Progress W → Progress W → Type 0
  Steps = Run plat queue sizeof_mes subs cfg

  abbrev Timed : Progress W → Type 0
  Timed a = IsTimed cfg.cache_depth a.sys.pm.cache
