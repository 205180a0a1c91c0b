-- ===== src/ProcMgr/Timed/Listing.antt =====
-- What `step_pm_list` of src/proc_mgr.c prints, and when it divides by 0.
use step.Common.{
  ℕ, suc, ◌/◌, ◌<◌, ◌≡◌, ◌≢◌, refl, ap, ◌⊎◌, inl, inr, ◌==◌, ==_iff, Bool, true, false, Bool-cases,
  none, some, List, [], ◌∷◌, ◌++◌, length, get_elem?, get_elem?-below, below-get_elem?, ok, All,
  arith,
}
use step.Node.{Node, nodes_of}
use step.ProcMgr.{NodeRecord, Config, Manager, initialize_workqueue}
use step.ProcMgr.Order.{All-map}
use step.ProcMgr.Registry.{IsRegistry, IsFilled}
use step.ProcMgr.Timed.{
  Timing, Line, heading, no_node, record_of, total_time, instance_of, divide, list_chain,
  list_record, list_records, list_registry, pm_list,
}
use step.ProcMgr.Timed.Counting.{runs_at}

-- Each record of the list has run, if the instrumentation is built in.
abbrev pub AllRan : Bool → List Timing → List ℕ → Type 0
AllRan b ts = All (λ h. (b ≡ false) ⊎ (runs_at ts h ≢ 0))

-- The instrumentation is built in, and a record of the list has not run.
abbrev pub Unrun : Bool → List Timing → List ℕ → Type 0
Unrun b ts [] = ⊥
Unrun b ts (h ∷ hs) = ((b ≡ true) × (runs_at ts h ≡ 0)) ⊎ Unrun b ts hs

-- The handles of the records printed, in their order.
unfoldable pub handles_of : List Line → List ℕ
handles_of [] = []
handles_of (record_of h p ∷ ls) = h ∷ handles_of ls
handles_of (heading ∷ ls) = handles_of ls
handles_of (no_node ∷ ls) = handles_of ls
handles_of (total_time t a n ∷ ls) = handles_of ls
handles_of (instance_of i s ∷ ls) = handles_of ls

handles_of-append : (ls ks : List Line) → handles_of (ls ++ ks) ≡ handles_of ls ++ handles_of ks
unfolding handles_of
handles_of-append [] ks = refl
handles_of-append (record_of h p ∷ ls) ks = ap (λ l. h ∷ l) (handles_of-append ls ks)
handles_of-append (heading ∷ ls) ks = handles_of-append ls ks
handles_of-append (no_node ∷ ls) ks = handles_of-append ls ks
handles_of-append (total_time t a n ∷ ls) ks = handles_of-append ls ks
handles_of-append (instance_of i s ∷ ls) ks = handles_of-append ls ks

handles_of-list_chain :
    {W : Type 0} (b : Bool) (ns : List (Node W)) (i : ℕ) → handles_of (list_chain b ns i) ≡ []
unfolding handles_of list_chain
handles_of-list_chain b [] i = refl
handles_of-list_chain b (n ∷ ns) i = handles_of-list_chain b ns (suc i)

module _ {W : Type 0} (b : Bool) (nodes : List (NodeRecord W)) (ts : List Timing)
    (sized : length nodes ≡ length ts) where
  -- A record that has run is printed, and one that has not is a fault.
  list_record-ran :
      (h : ℕ)
      → IsFilled nodes h
      → (r : NodeRecord W) × (x : Timing) × (get_elem? nodes h ≡ some r)
        × (get_elem? ts h ≡ some x)
        × ((((b ≡ false) ⊎ (runs_at ts h ≢ 0))
              × ((lines : List Line) × (list_record b r x ≡ some lines)
                  × (handles_of lines ≡ h ∷ [])))
            ⊎ ((b ≡ true) × (runs_at ts h ≡ 0) × (list_record b r x ≡ none)))
  unfolding list_record divide runs_at handles_of
  list_record-ran h (r, c, at, own, there) =
      let (x, time) = get_elem?-below ts h (omega (arith, below-get_elem? nodes h r at, sized)) in
      let chain = list_chain b (nodes_of c) 0 in
      let lines = record_of r.handle r.priority ∷ chain in
      let timed =
        record_of r.handle r.priority
        ∷ total_time x.runtime_ns (x.runtime_ns / x.runs) x.runs
        ∷ chain in
      let listed : r.handle ∷ handles_of chain ≡ h ∷ [] =
        rw (own, handles_of-list_chain b (nodes_of c) 0) refl in
      (
        r,
        x,
        at,
        time,
        elim (Bool-cases b) [
          | inr off ↦ inl (inl off, (lines, rw (off, there, list_record) refl, listed))
          | inl on ↦ elim (Bool-cases (x.runs == 0)) [
            | inl z ↦
                inr
                  (on, rw (time, runs_at) ((==_iff x.runs 0).0 z), rw (on, z, divide, list_record))
            | inr nz ↦
                let ran : x.runs ≢ 0 = λ q. ground (arith, nz, q) in
                inl (
                  inr (rw (time, runs_at) ran),
                  (timed, rw (on, nz, there, divide, list_record) refl, listed),
                )
          ]
        ],
      )

  list_records-ran :
      (l : List ℕ)
      → All (IsFilled nodes) l
      → (AllRan b ts l
          × ((lines : List Line) × (list_records b nodes ts l ≡ some lines)
              × (handles_of lines ≡ l)))
        ⊎ (Unrun b ts l × (list_records b nodes ts l ≡ none))
  unfolding list_records handles_of
  list_records-ran [] a = inl (tt, ([], refl, refl))
  list_records-ran (h ∷ hs) (f, a) =
      let (r, x, at, time, one) = list_record-ran h f in
      elim one [
        | inr (on, z, e) ↦ inr (inl (on, z), rw (at, time, e, list_records))
        | inl (nz, (lines, e, own)) ↦ elim (list_records-ran hs a) [
          | inl (rest, (lines', e', own')) ↦ inl (
            (nz, rest),
            (
              lines ++ lines',
              rw (at, time, e, e', list_records) refl,
              rw (handles_of-append lines lines', own, own') refl,
            ),
          )
          | inr (u, e') ↦ inr (inr u, rw (at, time, e, e', list_records))
        ]
      ]

  list_registry-ran :
      (l : List ℕ)
      → All (IsFilled nodes) l
      → (AllRan b ts l
          × ((lines : List Line) × (list_registry b nodes ts l ≡ some lines)
              × (handles_of lines ≡ l)))
        ⊎ (Unrun b ts l × (list_registry b nodes ts l ≡ none))
  unfolding list_registry handles_of
  list_registry-ran [] a = inl (tt, (heading ∷ no_node ∷ [], refl, refl))
  list_registry-ran (h ∷ hs) a = elim (list_records-ran (h ∷ hs) a) [
    | inl (ran, (lines, q, own)) ↦ inl (ran, (heading ∷ lines, rw (q, list_registry), own))
    | inr (u, q) ↦ inr (u, rw (q, list_registry))
  ]

-- On a valid registry `step_pm_list` ends, with 0 and the records of the list in the order of the
-- registry, if CONFIG_STEP_INSTRUMENTATION is not set or each of the records has run. If it is set
-- and one has not run, then the average of its run time is a division by 0.
pub pm_list-ran :
    {W : Type 0} (b : Bool) (cfg : Config) (m : Manager W) (ts : List Timing)
    → IsRegistry cfg m
    → length m.nodes ≡ length ts
    → (AllRan b ts m.slist
        × ((lines : List Line) × (pm_list b m ts ≡ some (ok, lines, initialize_workqueue m))
            × (handles_of lines ≡ m.slist)))
      ⊎ (Unrun b ts m.slist × (pm_list b m ts ≡ none))
unfolding pm_list initialize_workqueue
pm_list-ran b cfg m ts reg sized =
    let known =
      All-map (λ k. k < m.handle_counter) (IsFilled m.nodes) m.slist reg.filled reg.known in
    elim (list_registry-ran b m.nodes ts sized m.slist known) [
      | inl (ran, (lines, q, own)) ↦ inl (ran, (lines, rw (q, pm_list), own))
      | inr (u, q) ↦ inr (u, rw (q, pm_list))
    ]
