-- ===== src/Samples/Subscription/Outcome.antt =====
-- How `main` of samples/simple_subscription/src/main.c ends.
use step.Common.{
  ℕ, List, ◌<◌, ◌≡◌, refl, sym, ap, ◌∙◌, ◌⊎◌, inl, inr, Option, none, some, [], ◌∷◌, ◌++◌,
  get_elem?, get_elem?-set_self, below-get_elem?, ok, enomem, Option-cases, ℤ, arith,
}
use step.Platform.{Platform, Slist, SlistTail}
use step.Node.{Chain, nodes_of}
use step.SamplePool
use step.SamplePool.{Pool}
use step.ProcMgr.{NodeSub, NodeRecord, Config, System, initialize_workqueue, subscribe_to_node, put}
use step.ProcMgr.Register.{init_nodes, new_record}
use step.ProcMgr.Order.{In, In-insert_by_self}
use step.ProcMgr.Registry.{IsRegistry, pri_at, register-IsRegistry}
use step.ProcMgr.Update.{IsRegistry-cong}
use step.ProcMgr.Subscribe.{subscribe_to_node-IsRegistry}
use step.ProcMgr.Timed.Totals.{All-In}
use step.Samples.Float.{Float}
use step.Samples.Shell.{Memory}
use step.Samples.Shell.Driver.{payload_sz, drv_header, fill_mes, get_mes}
use step.ProcMgr.Submit.{put-submit}
use step.Samples.Shell.Publish.{fill_mes-header}
use step.Samples.Subscription.{on_node_completed, submit_first, first_sample, sample_main}

module _ {F W : Type 0} (float : Float F) (plat : Platform W) (mem : Memory F W plat)
    (sizeof_mes : ℕ) (subs : SlistTail (NodeSub W)) where
  -- The memory `w'` after the first measurement, from the pool `p` and the memory `w`: that of the
  -- failed allocation, or that of the submission of a measurement with the header of the driver.
  abbrev pub Sampled : Pool → W → W → Type 0
  Sampled p w w' =
      let (r, p₁, w₁) = SamplePool.alloc plat sizeof_mes payload_sz (p, w) in
      ((r ≡ none) × (w' ≡ w₁))
      ⊎ ((mes : ℕ) × (w₂ : W) × (r ≡ some mes)
          × (w' ≡ (plat.submit mes w₂).1)
          × (plat.header mes w₂ ≡ drv_header))

  module _ (s : System W) where
    abbrev allocated : Option ℕ × Pool × W
    allocated = SamplePool.alloc plat sizeof_mes payload_sz (s.pool, s.world)

    get_mes-none :
        allocated.0 ≡ none
        → get_mes float plat mem sizeof_mes (s.pool, s.world)
          ≡ (enomem, none, allocated.1, allocated.2)
    unfolding get_mes
    get_mes-none e = rw (e, get_mes)

    get_mes-some :
        (mes : ℕ)
        → allocated.0 ≡ some mes
        → get_mes float plat mem sizeof_mes (s.pool, s.world)
          ≡ (ok, some mes, allocated.1, fill_mes float plat mem sizeof_mes mes allocated.2)
    unfolding get_mes
    get_mes-some mes e = rw (e, get_mes)

    abbrev submitted : ℤ × Option ℕ × Pool × W → System W
    submitted g = submit_first float plat mem sizeof_mes subs g s

    first_sample-none :
        allocated.0 ≡ none
        → first_sample float plat mem sizeof_mes subs s
          ≡ record s { pool = allocated.1; world = allocated.2 }
    unfolding first_sample submit_first
    first_sample-none e = ap submitted (get_mes-none e)

    first_sample-some :
        (mes : ℕ)
        → allocated.0 ≡ some mes
        → first_sample float plat mem sizeof_mes subs s ≡ record {
          pm = initialize_workqueue s.pm;
          pool = allocated.1;
          world = (plat.submit mes (fill_mes float plat mem sizeof_mes mes allocated.2)).1;
        }
    unfolding first_sample submit_first
    first_sample-some mes e =
        let w = fill_mes float plat mem sizeof_mes mes allocated.2 in
        ap submitted (get_mes-some mes e)
        ∙ put-submit plat subs mes (record s { pool = allocated.1; world = w })

  -- The first measurement leaves the registry alone but for the start of the work queue.
  first_sample-Sampled :
      (cfg : Config) (s : System W)
      → IsRegistry cfg s.pm
      → (let s' = first_sample float plat mem sizeof_mes subs s in
          IsRegistry cfg s'.pm
          × (s'.pm.reg_access ≡ s.pm.reg_access)
          × (s'.pm.nodes ≡ s.pm.nodes)
          × Sampled s.pool s.world s'.world)
  unfolding initialize_workqueue
  first_sample-Sampled cfg s v = elim (Option-cases (allocated s).0) [
    | inl e ↦ rw (first_sample-none s e) (v, refl, refl, inl (e, refl))
    | inr (mes, e) ↦ rw (first_sample-some s mes e) (
      IsRegistry-cong cfg s.pm (initialize_workqueue s.pm) refl refl refl v,
      refl,
      refl,
      inr (
        mes,
        fill_mes float plat mem sizeof_mes mes (allocated s).2,
        e,
        refl,
        fill_mes-header float plat mem sizeof_mes subs mes (allocated s).2,
      ),
    )
  ]

  -- A subscription that finds no room leaves the memory as it was.
  full-world :
      (h : ℕ) (nc : NodeSub W) (s s' : System W) (rc : ℤ)
      → h < s.pm.handle_counter
      → plat.callback_alloc s.world ≡ none
      → subscribe_to_node plat subs h nc s ≡ some (rc, s')
      → s'.world ≡ s.world
  unfolding subscribe_to_node initialize_workqueue
  full-world h nc s s' rc l full e = ground (arith, full, e)

  -- With a valid registry that has room, and nodes that are initialised without an error, `main` ends
  -- without a fault: the chain is registered with the priority 0 and the registry is valid. If there
  -- is no room for the subscription, nothing is measured. Otherwise the callback is the subscriber of
  -- the chain, and one measurement with the header of the driver is submitted, or none could be
  -- allocated.
  pub sample_main-outcome :
      (sl : Slist ℕ) (cfg : Config) (chain : Chain W) (nc : NodeSub W) (s : System W) (w : W)
      → IsRegistry cfg s.pm
      → s.pm.handle_counter < cfg.node_limit
      → init_nodes (nodes_of chain) s.pm.handle_counter 0 ok s.world ≡ some (ok, w)
      → (let h = s.pm.handle_counter in
          (s' : System W) × (sample_main float plat mem sizeof_mes subs sl cfg chain nc s ≡ some s')
          × IsRegistry cfg s'.pm
          × (s'.pm.reg_access ≡ s.pm.reg_access)
          × (((plat.callback_alloc w ≡ none) × (s'.world ≡ w))
              ⊎ ((p : Pool) × (w₁ : W) × (plat.callback_alloc w ≡ some w₁)
                  × (get_elem? s'.pm.nodes h
                      ≡ some (record (new_record (some chain) 0 h) { sub_callbacks = nc ∷ [] }))
                  × Sampled p w₁ s'.world)))
  unfolding sample_main
  sample_main-outcome sl cfg chain nc s w v room inits =
      let h = s.pm.handle_counter in
      let subscribed_by : NodeRecord W → NodeRecord W =
        λ x. record x { sub_callbacks = x.sub_callbacks ++ nc ∷ [] } in
      let (s₁, registered, v₁, nodes, order, held, world) =
        register-IsRegistry sl cfg chain 0 s ok w v room inits in
      let member : In h s₁.pm.slist =
        rw order (In-insert_by_self (pri_at s₁.pm.nodes) h s.pm.slist) in
      let below : h < s₁.pm.handle_counter =
        All-In (λ x. x < s₁.pm.handle_counter) h s₁.pm.slist v₁.known member in
      let (r, rc, s₂, at, subscribed, v₂, held₂, ends) =
        subscribe_to_node-IsRegistry plat subs cfg h nc s₁ v₁ below in
      elim ends [
        | inr (full, failed, kept) ↦ (
          s₂,
          rw (registered, subscribed, failed, sample_main) refl,
          v₂,
          held₂ ∙ held,
          inl (rw world at full, full-world h nc s₁ s₂ rc below full subscribed ∙ world),
        )
        | inl (alloc, done, changed) ↦
            let (v₃, held₃, nodes₃, sampled) = first_sample-Sampled cfg s₂ v₂ in
            let at_h : List (NodeRecord W) → Option (NodeRecord W) = λ l. get_elem? l h in
            let same : some r ≡ some (new_record (some chain) 0 h) =
              sym at
              ∙ ap at_h nodes
              ∙ get_elem?-set_self s.pm.nodes h (new_record (some chain) 0 h)
                  (omega (arith, room, v.sized)) in
            let entry : r ≡ new_record (some chain) 0 h =
              ap (λ o. elim o [ none ↦ r | some x ↦ x ]) same in
            let stored =
              ap at_h (nodes₃ ∙ changed)
              ∙ get_elem?-set_self s₁.pm.nodes h (subscribed_by r)
                  (below-get_elem? s₁.pm.nodes h r at)
              ∙ ap (λ x. some (subscribed_by x)) entry in
            (
              first_sample float plat mem sizeof_mes subs s₂,
              rw (registered, subscribed, done, sample_main) refl,
              v₃,
              held₃ ∙ held₂ ∙ held,
              inr (s₂.pool, s₂.world, rw world at alloc, stored, sampled),
            )
      ]

  -- The callback of a subscription takes a measurement as `main` takes the first: that it looks at
  -- no return code makes no difference, since step_pm_put refuses NULL.
  on_node_completed-first_sample :
      (s : System W)
      → on_node_completed float plat mem sizeof_mes subs s
        ≡ first_sample float plat mem sizeof_mes subs s
  unfolding on_node_completed put
  on_node_completed-first_sample s =
      let completed : ℤ × Option ℕ × Pool × W → System W =
        λ g. (put plat subs g.1 (record s { pool = g.2; world = g.3 })).1 in
      elim (Option-cases (allocated s).0) [
        | inl e ↦ ap completed (get_mes-none s e) ∙ sym (first_sample-none s e)
        | inr (mes, e) ↦
            let w = fill_mes float plat mem sizeof_mes mes (allocated s).2 in
            ap completed (get_mes-some s mes e)
            ∙ put-submit plat subs mes (record s { pool = (allocated s).1; world = w })
            ∙ sym (first_sample-some s mes e)
      ]
