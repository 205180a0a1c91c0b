-- ===== src/Pipeline/Balance/Runs.antt =====
-- The balance of the sample pool and the queue after any steps of the pipeline.
use step.Common.{ℕ, ◌≡◌, refl, ap, ◌∙◌, List, [], pos, arith}
use step.Platform.{Platform, SlistTail}
use step.SamplePool.{bytes_alloc}
use step.SamplePool.Ledger.{total}
use step.ProcMgr.{NodeSub, NodeRecord, Config, System}
use step.ProcMgr.Frame.{AllKeep}
use step.Pipeline.{
  addresses, WorkQueue, Same, Separate, Progress, Step, publishes, refuses, fails, processes, works,
  Run, start, then_step,
}
use step.Pipeline.Infos.{Holds-same, alloc-none}
use step.Pipeline.Balance.{IsBalanced, publishes-IsBalanced, refuses-IsBalanced}
use step.Pipeline.Balance.Handling.{processes-IsBalanced}

module _ {W : Type 0} (plat : Platform W) (queue : WorkQueue W plat) (sep : Separate plat queue)
    (sizeof_mes : ℕ) (subs : SlistTail (NodeSub W)) (cfg : Config) (nodes : List (NodeRecord W))
    (slist : List ℕ) (keep : (l : List ℕ) → AllKeep (Same plat queue l) nodes slist) where
  -- The invariant, with its parameters.
  abbrev Balanced : Progress W → Type 0
  Balanced = IsBalanced plat queue sep sizeof_mes subs cfg nodes slist keep

  -- One step.
  pub Step-IsBalanced :
      {a b : Progress W} → Step plat queue sizeof_mes subs cfg a b → Balanced a → Balanced b
  Step-IsBalanced (publishes a sz mes p w₁ w₂ s' e apart spared same e₂) v =
      publishes-IsBalanced plat queue sep sizeof_mes subs cfg nodes slist keep a sz mes p w₁ w₂ s' v
        e apart spared same e₂
  Step-IsBalanced (refuses a sz mes n p w₁ w₂ s' e apart spared same e₂) v =
      refuses-IsBalanced plat queue sep sizeof_mes subs cfg nodes slist keep a sz mes n p w₁ w₂ s' v
        e apart spared same e₂
  Step-IsBalanced (fails a sz p w e) v =
      let (same, uncharged) =
        alloc-none plat queue sep sizeof_mes sz a.sys.pool p a.sys.world w (addresses a.queued) e in
      record {
        pending = same.pending ∙ v.pending;
        holds = Holds-same plat a.queued a.sys.world w same.infos v.holds;
        distinct = v.distinct;
        bytes = uncharged ∙ v.bytes;
        order = v.order;
        nodes_same = v.nodes_same;
        slist_same = v.slist_same;
      }
  Step-IsBalanced (processes a mes sz rest s' first e) v =
      processes-IsBalanced plat queue sep sizeof_mes subs cfg nodes slist keep a mes sz rest s' v
        first e
  Step-IsBalanced (works a w same) v = record {
    pending = same.pending ∙ v.pending;
    holds = Holds-same plat a.queued a.sys.world w same.infos v.holds;
    distinct = v.distinct;
    bytes = v.bytes;
    order = v.order;
    nodes_same = v.nodes_same;
    slist_same = v.slist_same;
  }

  pub Run-IsBalanced :
      {a b : Progress W} → Balanced a → Run plat queue sizeof_mes subs cfg a b → Balanced b
  Run-IsBalanced v start = v
  Run-IsBalanced v (then_step r st) = Step-IsBalanced st (Run-IsBalanced v r)

  -- The state before the first step.
  abbrev pub begin : System W → Progress W
  begin s = record { sys = s; queued = []; refused = []; submitted = []; processed = [] }

  pub begin-IsBalanced :
      (s : System W)
      → s.pm.nodes ≡ nodes
      → s.pm.slist ≡ slist
      → queue.pending s.world ≡ []
      → bytes_alloc s.pool ≡ pos 0
      → Balanced (begin s)
  unfolding total
  begin-IsBalanced s at_nodes at_slist empty nothing = record {
    pending = empty;
    holds = tt;
    distinct = tt;
    bytes = nothing ∙ ap pos (omega arith);
    order = refl;
    nodes_same = at_nodes;
    slist_same = at_slist;
  }
