-- ===== src/Pipeline/Mutex/Stuck.antt =====
-- What a failed allocation of step_sp_alloc, src/sample_pool.c, does to the pipeline.
use step.Common.{ℕ, ◌<◌, List}
use step.Platform.{Platform, SlistTail}
use step.SamplePool
use step.ProcMgr.{NodeSub, NodeRecord, Config}
use step.ProcMgr.Frame.{AllKeep}
use step.Pipeline.{WorkQueue, Same, Separate, Progress, Run}

module _ {W : Type 0} (plat : Platform W) (queue : WorkQueue W plat) (sizeof_mes : ℕ)
    (subs : SlistTail (NodeSub W)) (cfg : Config) where
  abbrev Locked : Progress W → Type 0
  Locked a = 0 < a.sys.pool.alloc_mtx

module _ {W : Type 0} (plat : Platform W) (queue : WorkQueue W plat) (sep : Separate plat queue)
    (sizeof_mes : ℕ) (subs : SlistTail (NodeSub W)) (cfg : Config) (nodes : List (NodeRecord W))
    (slist : List ℕ) (keep : (l : List ℕ) → AllKeep (Same plat queue l) nodes slist) where
  abbrev Steps : Progress W → Progress W → Type 0
  Steps = Run plat queue sizeof_mes subs cfg

  abbrev Held : Progress W → Type 0
  Held = Locked plat queue sizeof_mes subs cfg
