-- ===== src/Pipeline/Balance.antt =====
-- What is in use of the sample pool and what has been processed, at any time in the pipeline of
-- src/sample_pool.c and src/proc_mgr.c: the invariant, and what a submission does to it.
pub mod Handling
pub mod Runs
pub mod Drain
use step.Common.{
  ℕ, ◌+◌, ◌≡◌, refl, sym, ap, ◌∙◌, true, Option, none, some, List, [], ◌∷◌, ◌++◌, ℤ, pos, negsuc,
  ok, ◌+ℤ◌, ◌-ℤ◌, inl, inr, ◌⊎◌, Option-cases, add-pos, sub-pos, subst, >>=-eq-some, arith,
}
use mathlib.Core.List.{append_assoc}
use step.Platform.{Platform, SlistTail}
use step.SamplePool
use step.SamplePool.{Pool, charge, free, bytes_alloc}
use step.SamplePool.Ledger.{total}
use step.ProcMgr.{NodeSub, NodeRecord, Config, System, lock, initialize_workqueue, put}
use step.ProcMgr.Process.{process, poll_handler}
use step.ProcMgr.Release.{process-free}
use step.ProcMgr.Submit.{put-submit}
use step.ProcMgr.Visit.{process-Kept}
use step.ProcMgr.Frame.{AllKeep}
use step.ProcMgr.Frame.Loop.{process_nodes-keeps}
use step.Pipeline.{
  Apart, addresses, info, InfosSame, WorkQueue, Same, Separate, Progress, allocated, Spared, given,
  Step, publishes, refuses, fails, processes, works, Run, start, then_step,
}
use step.Pipeline.Infos.{
  Holds, Holds-same, Holds-append, addresses-append, Distinct, Distinct-append, InfosSame-trans,
  Same-trans, Same-IsFrame, alloc-some, alloc-none,
}

pub total-append :
    (s : ℕ) (l : List (ℕ × ℕ)) (mes n : ℕ) → total s (l ++ (mes, n) ∷ []) ≡ charge s n + total s l
unfolding total
total-append s [] mes n = refl
total-append s ((a, b) ∷ l) mes n = omega (arith, total-append s l mes n)

module _ {W : Type 0} (plat : Platform W) (subs : SlistTail (NodeSub W)) where
  -- What step_pm_put answers is what the work queue does.
  put-queued :
      (mes : ℕ) (s s' : System W)
      → put plat subs (some mes) s ≡ (ok, s')
      → (n : ℕ) × ((plat.submit mes s.world).0 ≡ pos n)
  unfolding put
  put-queued mes s s' e = go (plat.submit mes s.world).0 refl
    where
      go :
          (rc : ℤ)
          → (plat.submit mes s.world).0 ≡ rc
          → (n : ℕ) × ((plat.submit mes s.world).0 ≡ pos n)
      go (pos n) q = (n, q)
      go (negsuc n) q = absurd (ground (arith, q, e))

  put-refused :
      (mes n : ℕ) (s s' : System W)
      → put plat subs (some mes) s ≡ (negsuc n, s')
      → (plat.submit mes s.world).0 ≡ negsuc n
  unfolding put
  put-refused mes n s s' e = go (plat.submit mes s.world).0 refl
    where
      go : (rc : ℤ) → (plat.submit mes s.world).0 ≡ rc → (plat.submit mes s.world).0 ≡ negsuc n
      go (pos k) q = absurd (ground (arith, q, e))
      go (negsuc k) q = ground (arith, q, e)

module _ {W : Type 0} (plat : Platform W) (queue : WorkQueue W plat) (sep : Separate plat queue)
    (sizeof_mes : ℕ) (subs : SlistTail (NodeSub W)) (cfg : Config) (nodes : List (NodeRecord W))
    (slist : List ℕ) (keep : (l : List ℕ) → AllKeep (Same plat queue l) nodes slist) where
  -- The registry is the same; the queue is that of the kernel, each of its measurements once, with
  -- its length and its flag; the pool counts the measurements in the queue and those refused; and the
  -- measurements were processed in the order in which they were submitted.
  pub record IsBalanced (a : Progress W) : Type 0 where
    pub pending : queue.pending a.sys.world ≡ addresses a.queued
    pub holds : Holds plat a.queued a.sys.world
    pub distinct : Distinct (addresses a.queued)
    pub bytes :
        bytes_alloc a.sys.pool ≡ pos (total sizeof_mes a.queued + total sizeof_mes a.refused)
    pub order : a.submitted ≡ a.processed ++ addresses a.queued
    pub nodes_same : a.sys.pm.nodes ≡ nodes
    pub slist_same : a.sys.pm.slist ≡ slist

  -- A measurement that was allocated and filled.
  filled :
      (a : Progress W) (sz mes : ℕ) (p : Pool) (w₁ w₂ : W)
      → IsBalanced a
      → allocated plat queue sizeof_mes subs cfg sz a ≡ (some mes, p, w₁)
      → Apart mes (addresses a.queued)
      → Spared plat queue sizeof_mes subs cfg sz mes a
      → Same plat queue (mes ∷ addresses a.queued) w₁ w₂
      → (info plat mes w₂ ≡ (sz, true))
        × Holds plat a.queued w₂
        × (queue.pending w₂ ≡ addresses a.queued)
        × (bytes_alloc p
            ≡ pos (charge sizeof_mes sz + total sizeof_mes a.queued + total sizeof_mes a.refused))
  filled a sz mes p w₁ w₂ v e apart spared same =
      let (own, others, charged) =
        alloc-some plat queue sep sizeof_mes sz mes a.sys.pool p a.sys.world w₁ (addresses a.queued)
          e apart spared in
      (
        same.infos.0 ∙ own,
        Holds-same plat a.queued w₁ w₂ same.infos.1
            (Holds-same plat a.queued a.sys.world w₁ others.infos v.holds),
        same.pending ∙ others.pending ∙ v.pending,
        charged
            ∙ ap (λ x. x +ℤ pos (charge sizeof_mes sz)) v.bytes
            ∙ add-pos _ _
            ∙ ap pos (omega arith),
      )

  publishes-IsBalanced :
      (a : Progress W) (sz mes : ℕ) (p : Pool) (w₁ w₂ : W) (s' : System W)
      → IsBalanced a
      → allocated plat queue sizeof_mes subs cfg sz a ≡ (some mes, p, w₁)
      → Apart mes (addresses a.queued)
      → Spared plat queue sizeof_mes subs cfg sz mes a
      → Same plat queue (mes ∷ addresses a.queued) w₁ w₂
      → given plat queue sizeof_mes subs cfg mes p w₂ a ≡ (ok, s')
      → IsBalanced (record a {
        sys = s';
        queued = a.queued ++ (mes, sz) ∷ [];
        submitted = a.submitted ++ mes ∷ [];
      })
  unfolding initialize_workqueue
  publishes-IsBalanced a sz mes p w₁ w₂ s' v e apart spared same e₂ =
      let (own, held, pend, charged) = filled a sz mes p w₁ w₂ v e apart spared same in
      let s = a.sys in
      let s₂ : System W = record s { pool = p; world = w₂ } in
      let (n, q) = put-queued plat subs mes s₂ s' e₂ in
      let after : System W → Progress W = λ s. record a {
        sys = s;
        queued = a.queued ++ (mes, sz) ∷ [];
        submitted = a.submitted ++ mes ∷ [];
      } in
      let joined = addresses-append a.queued mes sz in
      subst (λ s. IsBalanced (after s)) (sym (put-submit plat subs mes s₂) ∙ ap (λ x. x.1) e₂)
        (record {
          pending =
              queue.pending-submit mes n w₂ (subst (Apart mes) (sym pend) apart) q
              ∙ ap (λ l. l ++ mes ∷ []) pend
              ∙ sym joined;
          holds =
              Holds-same plat (a.queued ++ (mes, sz) ∷ []) w₂ (plat.submit mes w₂).1
                (queue.submit-InfosSame mes (addresses (a.queued ++ (mes, sz) ∷ [])) w₂)
                (Holds-append plat a.queued mes sz w₂ held own);
          distinct =
              subst Distinct (sym joined)
                (Distinct-append (addresses a.queued) mes v.distinct apart);
          bytes = charged ∙ ap pos (omega (arith, total-append sizeof_mes a.queued mes sz));
          order =
              ap (λ l. l ++ mes ∷ []) v.order
              ∙ append_assoc a.processed (addresses a.queued) (mes ∷ [])
              ∙ ap (λ l. a.processed ++ l) (sym joined);
          nodes_same = v.nodes_same;
          slist_same = v.slist_same;
        })

  refuses-IsBalanced :
      (a : Progress W) (sz mes n : ℕ) (p : Pool) (w₁ w₂ : W) (s' : System W)
      → IsBalanced a
      → allocated plat queue sizeof_mes subs cfg sz a ≡ (some mes, p, w₁)
      → Apart mes (addresses a.queued)
      → Spared plat queue sizeof_mes subs cfg sz mes a
      → Same plat queue (mes ∷ addresses a.queued) w₁ w₂
      → given plat queue sizeof_mes subs cfg mes p w₂ a ≡ (negsuc n, s')
      → IsBalanced (record a { sys = s'; refused = (mes, sz) ∷ a.refused })
  unfolding initialize_workqueue total
  refuses-IsBalanced a sz mes n p w₁ w₂ s' v e apart spared same e₂ =
      let (own, held, pend, charged) = filled a sz mes p w₁ w₂ v e apart spared same in
      let s = a.sys in
      let s₂ : System W = record s { pool = p; world = w₂ } in
      let q = put-refused plat subs mes n s₂ s' e₂ in
      let after : System W → Progress W =
        λ s. record a { sys = s; refused = (mes, sz) ∷ a.refused } in
      subst (λ s. IsBalanced (after s)) (sym (put-submit plat subs mes s₂) ∙ ap (λ x. x.1) e₂)
        (record {
          pending = queue.pending-refused mes n w₂ q ∙ pend;
          holds =
              Holds-same plat a.queued w₂ (plat.submit mes w₂).1
                (queue.submit-InfosSame mes (addresses a.queued) w₂) held;
          distinct = v.distinct;
          bytes = charged ∙ ap pos (omega arith);
          order = v.order;
          nodes_same = v.nodes_same;
          slist_same = v.slist_same;
        })
