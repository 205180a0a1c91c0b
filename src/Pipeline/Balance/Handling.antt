-- ===== src/Pipeline/Balance/Handling.antt =====
-- What the handler of the work queue, step_pm_poll_handler of src/proc_mgr.c, does to the balance of
-- the pipeline.
use step.Common.{
  ℕ, ◌+◌, ◌≡◌, sym, ap, ◌∙◌, true, none, some, List, [], ◌∷◌, ◌++◌, ℤ, pos, ok, ◌-ℤ◌, sub-pos,
  subst, >>=-eq-some, arith,
}
use mathlib.Core.List.{append_assoc}
use step.Platform.{Platform, SlistTail}
use step.SamplePool.{charge, free, bytes_alloc}
use step.SamplePool.Ledger.{total}
use step.ProcMgr.{NodeSub, NodeRecord, Config, System, lock, initialize_workqueue}
use step.ProcMgr.Process.{process, give_back, poll_handler}
use step.SamplePool.Account.{free-some}
use step.ProcMgr.Release.{process-free}
use step.ProcMgr.Visit.{process-Kept}
use step.ProcMgr.Frame.{AllKeep}
use step.ProcMgr.Frame.Loop.{process_nodes-keeps}
use step.Pipeline.{addresses, WorkQueue, Same, Separate, Progress}
use step.Pipeline.Infos.{Holds, Holds-same, Distinct, Same-IsFrame}
use step.Pipeline.Balance.{IsBalanced}

module _ {W : Type 0} (plat : Platform W) (queue : WorkQueue W plat) (sep : Separate plat queue)
    (sizeof_mes : ℕ) (subs : SlistTail (NodeSub W)) (cfg : Config) (nodes : List (NodeRecord W))
    (slist : List ℕ) (keep : (l : List ℕ) → AllKeep (Same plat queue l) nodes slist) where
  -- The invariant, with its parameters.
  abbrev Balanced : Progress W → Type 0
  Balanced = IsBalanced plat queue sep sizeof_mes subs cfg nodes slist keep

  -- The handler of the first measurement, and its release.
  pub handled :
      (a : Progress W) (mes sz : ℕ) (rest : List (ℕ × ℕ)) (s' : System W)
      → Balanced a
      → a.queued ≡ (mes, sz) ∷ rest
      → (let s = a.sys in
          poll_handler plat sizeof_mes cfg mes (record s { world = queue.take s.world }))
        ≡ some s'
      → (rc : ℤ) × (n : ℕ) × (w₁ : W) × Same plat queue
          (mes ∷ addresses rest)
          (queue.take a.sys.world)
          w₁
        × (let s = a.sys in
            process plat sizeof_mes cfg mes true (record s { world = queue.take s.world })
            ≡ some (rc, n, s'))
        × (free plat sizeof_mes mes (a.sys.pool, w₁) ≡ some (s'.pool, s'.world))
  unfolding poll_handler initialize_workqueue give_back
  handled a mes sz rest s' v first e =
      let s = a.sys in
      let w = queue.take s.world in
      let s₁ : System W = record s { world = w } in
      let l = mes ∷ addresses rest in
      let holds = subst (λ q. Holds plat q s.world) first v.holds in
      let flag : plat.free_after_use mes w ≡ true =
        ap (λ x. x.1) ((queue.take-InfosSame l s.world).0 ∙ holds.0) in
      let ((rc, n, s₂), run, at) =
        >>=-eq-some (process plat sizeof_mes cfg mes (plat.free_after_use mes w) s₁) (λ r. some r.2)
          e in
      let ran : process plat sizeof_mes cfg mes true s₁ ≡ some (rc, n, s') =
        ap (λ b. process plat sizeof_mes cfg mes b s₁) (sym flag)
        ∙ run
        ∙ ap (λ o. elim o [ none ↦ none | some t ↦ some (rc, n, t) ]) at in
      let (m₁, w₁, loop, left, back) = process-free plat cfg mes sizeof_mes true s₁ s' rc n ran in
      let kept =
        process_nodes-keeps plat (Same plat queue l) (Same-IsFrame plat queue sep l) mes cfg
          s.pm.slist 0 n ok rc (lock (initialize_workqueue s.pm)) m₁ w w₁ (omega arith)
          (rw (v.nodes_same, v.slist_same) (keep l)) loop in
      (rc, n, w₁, kept, ran, back)

  pub processes-IsBalanced :
      (a : Progress W) (mes sz : ℕ) (rest : List (ℕ × ℕ)) (s' : System W)
      → Balanced a
      → a.queued ≡ (mes, sz) ∷ rest
      → (let s = a.sys in
          poll_handler plat sizeof_mes cfg mes (record s { world = queue.take s.world }))
        ≡ some s'
      → Balanced (record a { sys = s'; queued = rest; processed = a.processed ++ mes ∷ [] })
  unfolding total bytes_alloc
  processes-IsBalanced a mes sz rest s' v first e =
      let s = a.sys in
      let (rc, n, w₁, kept, ran, freed) = handled a mes sz rest s' v first e in
      let pend = subst (λ q. queue.pending s.world ≡ addresses q) first v.pending in
      let holds = subst (λ q. Holds plat q s.world) first v.holds in
      let distinct = subst (λ q. Distinct (addresses q)) first v.distinct in
      let took = queue.take-InfosSame (mes ∷ addresses rest) s.world in
      let len : (plat.header mes w₁).srclen.len ≡ sz =
        ap (λ x. x.0) (kept.infos.0 ∙ took.0 ∙ holds.0) in
      let released = sep.heap_free-Same mes (addresses rest) w₁ distinct.0 in
      let (unlocked, mtx, taken, world) =
        free-some plat sizeof_mes mes s.pool s'.pool w₁ s'.world freed in
      let counted : total sizeof_mes a.queued + total sizeof_mes a.refused
          ≡ total sizeof_mes rest + total sizeof_mes a.refused + charge sizeof_mes sz =
        ap (λ q. total sizeof_mes q + total sizeof_mes a.refused) first ∙ omega arith in
      let k =
        process-Kept plat cfg mes sizeof_mes true (record s { world = queue.take s.world }) s' rc n
          ran in
      record {
        pending =
            ap queue.pending world
            ∙ released.pending
            ∙ kept.pending
            ∙ queue.pending-take mes (addresses rest) s.world pend;
        holds = subst (Holds plat rest) (sym world) (
            Holds-same plat rest w₁ (plat.heap_free mes w₁) released.infos (
              Holds-same plat rest (queue.take s.world) w₁ kept.infos.1
                (Holds-same plat rest s.world (queue.take s.world) took.1 holds.1)));
        distinct = distinct.1;
        bytes =
            taken
            ∙ ap (λ x. bytes_alloc s.pool -ℤ pos (charge sizeof_mes x)) len
            ∙ ap (λ x. x -ℤ pos (charge sizeof_mes sz)) (v.bytes ∙ ap pos counted)
            ∙ sub-pos _ _;
        order =
            v.order
            ∙ ap (λ q. a.processed ++ addresses q) first
            ∙ sym (append_assoc a.processed (mes ∷ []) (addresses rest));
        nodes_same = k.nodes ∙ v.nodes_same;
        slist_same = k.slist ∙ v.slist_same;
      }
