-- ===== src/Samples/Subscription.antt =====
-- The application of samples/simple_subscription/src/main.c. Its nodes and its driver are those of
-- the shell sample.
pub mod Outcome
use step.Common.{ℕ, is_zero, true, false, Option, none, some, ◌>>=◌, ℤ}
use step.Platform.{Platform, Slist, SlistTail}
use step.Node.{Chain}
use step.SamplePool.{Pool}
use step.ProcMgr.{NodeSub, Config, System, subscribe_to_node, put}
use step.ProcMgr.Register.{register}
use step.Samples.Float.{Float}
use step.Samples.Shell.{Memory}
use step.Samples.Shell.Driver.{get_mes}

module _ {F W : Type 0} (float : Float F) (plat : Platform W) (mem : Memory F W plat)
    (sizeof_mes : ℕ) (subs : SlistTail (NodeSub W)) where
  -- `on_node_completed`, but for the lines printed: neither return code is looked at.
  unfoldable pub on_node_completed : System W → System W
  on_node_completed s =
      let (rc, next_mes, p, w) = get_mes float plat mem sizeof_mes (s.pool, s.world) in
      let (rc', s') = put plat subs next_mes (record s { pool = p; world = w }) in s'

  -- The first measurement of `main`, from the result of the driver on.
  unfoldable pub submit_first : ℤ × Option ℕ × Pool × W → System W → System W
  submit_first (rc, mes, p, w) s =
      let s₁ = record s { pool = p; world = w } in
      elim (is_zero rc) [ false ↦ s₁ | true ↦ let (rc', s₂) = put plat subs mes s₁ in s₂ ]

  unfoldable pub first_sample : System W → System W
  first_sample s = submit_first (get_mes float plat mem sizeof_mes (s.pool, s.world)) s

  -- `main`; `nc` is `on_node_completed` as a subscriber, over the memory that subscribers reach.
  unfoldable pub sample_main : Slist ℕ → Config → Chain W → NodeSub W → System W → Option (System W)
  sample_main sl cfg test_node_chain nc s = do
    (rc, handle, s₁) ← register sl cfg (some test_node_chain) 0 s
    elim (is_zero rc) [
      | false ↦ some s₁
      | true ↦ do
        (rc', s₂) ← subscribe_to_node plat subs handle nc s₁
        elim (is_zero rc') [ false ↦ some s₂ | true ↦ some (first_sample s₂) ]
    ]
