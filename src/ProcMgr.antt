-- ===== src/ProcMgr.antt =====
-- The processor manager: include/step/proc_mgr.h and src/proc_mgr.c, built without
-- CONFIG_STEP_INSTRUMENTATION. This file has the state and the operations on single records; the
-- children have registration, processing and the theorems. An operation returns `none` for a fault:
-- a call or a read through NULL, or an access outside `step_pm_nodes`.
pub mod Register
pub mod Process
pub mod Order
pub mod Registry
pub mod Update
pub mod Access
pub mod Subscribe
pub mod Submit
pub mod Visit
pub mod Caching
pub mod Total
pub mod Frame
pub mod Release
pub mod Trace
pub mod Timed
use step.Common.{
  ℕ, zero, suc, ◌+◌, ◌-◌, ◌^◌, ltb, ◌==◌, if◌then◌else◌, Bool, true, false, Option, none, some,
  ◌>>=◌, List, [], ◌∷◌, length, get_elem?, set, replicate, ℤ, pos, negsuc, ok, einval, enomem,
}
use step.Platform.{Platform, SlistTail}
use step.Node.{Node, Chain, nodes_of}
use step.Cache
use step.Cache.{Cache}
use step.SamplePool.{Pool}

-- `struct step_node_sub_callback`; `cb` takes mes, handle and user_data.
pub record NodeSub (W : Type 0) : Type 0 where
  pub cb : Option (ℕ → ℕ → ℕ → W → W)
  pub user_data : ℕ

-- `struct step_pm_node_record`
pub record NodeRecord (W : Type 0) : Type 0 where
  pub sub_callbacks : List (NodeSub W)
  pub node : Option (Chain W)
  pub handle : ℕ
  pub priority : ℕ
  pub enabled : Bool

-- CONFIG_STEP_PROC_MGR_NODE_LIMIT, CONFIG_STEP_FILTER_CACHE and CONFIG_STEP_FILTER_CACHE_DEPTH.
-- Kconfig.step keeps the limit from 1 to 255, so the loop of `step_pm_clear` on a `uint8_t` ends.
pub record Config : Type 0 where
  pub node_limit : ℕ
  pub filter_cache : Bool
  pub cache_depth : ℕ

-- The static variables of proc_mgr.c, with the cache. `wqueue_starts` counts the calls of
-- `k_work_queue_init` and `k_work_queue_start`, `slist` holds the records of `pm_node_slist`
-- by their index in `step_pm_nodes`, and `reg_access` counts how often the mutex is held.
pub record Manager (W : Type 0) : Type 0 where
  pub wqueue_started : Bool
  pub wqueue_starts : ℕ
  pub nodes : List (NodeRecord W)
  pub handle_counter : ℕ
  pub slist : List ℕ
  pub cache : Cache
  pub reg_access : ℕ

-- The manager, the sample pool and the memory.
pub record System (W : Type 0) : Type 0 where
  pub pm : Manager W
  pub pool : Pool
  pub world : W

-- A record of zero bytes.
abbrev pub zero_record : {W : Type 0} → NodeRecord W
zero_record = record { sub_callbacks = []; node = none; handle = 0; priority = 0; enabled = false }

-- `k_mutex_lock` and `k_mutex_unlock` on `step_pm_reg_access`
abbrev pub lock : {W : Type 0} → Manager W → Manager W
lock m = record m { reg_access = m.reg_access + 1 }

abbrev pub unlock : {W : Type 0} → Manager W → Manager W
unlock m = record m { reg_access = m.reg_access - 1 }

-- `step_pm_initialize_workqueue`
unfoldable pub initialize_workqueue : {W : Type 0} → Manager W → Manager W
initialize_workqueue m = record m {
  wqueue_started = true;
  wqueue_starts = if m.wqueue_started then m.wqueue_starts else m.wqueue_starts + 1;
}

-- `step_pm_clear`, which returns 0
unfoldable pub clear : {W : Type 0} → Config → Manager W → Manager W
clear cfg m =
    let m₁ = lock (initialize_workqueue m) in
    unlock (record m₁ {
      cache = if cfg.filter_cache then Cache.clear cfg.cache_depth m₁.cache else m₁.cache;
      handle_counter = 0;
      nodes = replicate cfg.node_limit zero_record;
      slist = [];
    })

-- `flags.enabled = b` of the record of a handle.
unfoldable pub set_enabled : {W : Type 0} → ℕ → Bool → Manager W → Option (ℤ × Manager W)
set_enabled handle b m =
    let m₁ = initialize_workqueue m in
    if ltb m₁.handle_counter handle then some (einval, m₁) else do
      r ← get_elem? m₁.nodes handle
      some (ok, record m₁ { nodes = set m₁.nodes handle (record r { enabled = b }) })

-- `step_pm_disable_node`
unfoldable pub disable_node : {W : Type 0} → ℕ → Manager W → Option (ℤ × Manager W)
unfolding set_enabled
disable_node handle m = set_enabled handle false m

-- `step_pm_enable_node`
unfoldable pub enable_node : {W : Type 0} → ℕ → Manager W → Option (ℤ × Manager W)
unfolding set_enabled
enable_node handle m = set_enabled handle true m

-- The loop of `step_pm_node_get` over `n->next`, with `k` steps left.
unfoldable pub walk : {W : Type 0} → ℕ → Node W → List (Node W) → Option (Node W)
walk zero n next = some n
walk (suc k) n [] = none
walk (suc k) n (n' ∷ next) = walk k n' next

-- `step_pm_node_get`: the pointer, `none` for NULL.
unfoldable pub node_get : {W : Type 0} → ℕ → ℕ → Manager W → Option (Option (Node W) × Manager W)
node_get handle inst m =
    let m₁ = initialize_workqueue m in
    if ltb m₁.handle_counter handle then some (none, m₁) else do
      r ← get_elem? m₁.nodes handle
      elim r.node [
        | none ↦ if inst == 0 then some (none, m₁) else none
        | some c ↦ some (walk inst c.first c.next, m₁)
      ]

module _ {W : Type 0} (plat : Platform W) (subs : SlistTail (NodeSub W)) where
  -- `step_pm_subscribe_to_node`
  unfoldable pub subscribe_to_node : ℕ → NodeSub W → System W → Option (ℤ × System W)
  subscribe_to_node handle nc s =
      let m = lock (initialize_workqueue s.pm) in
      if ltb m.handle_counter handle
      then some (einval, record s { pm = unlock m })
      else elim (plat.callback_alloc s.world) [
        | none ↦ some (enomem, record s { pm = unlock m })
        | some w ↦ do
          r ← get_elem? m.nodes handle
          let r' = record r { sub_callbacks = subs.append r.sub_callbacks nc }
          some
              (ok, record s { pm = unlock (record m { nodes = set m.nodes handle r' }); world = w })
      ]

  -- `step_pm_put`: the handler `step_pm_poll_handler` is attached, and the measurement submitted to
  -- the work queue, from which it is processed.
  unfoldable pub put : Option ℕ → System W → ℤ × System W
  put none s = (einval, s)
  put (some mes) s =
      let (rc, w) = plat.submit mes s.world in
      let s' = record s { pm = initialize_workqueue s.pm; world = w } in
      elim rc [ pos n ↦ (ok, s') | negsuc n ↦ (negsuc n, s') ]
