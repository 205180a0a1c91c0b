-- ===== src/ProcMgr/Trace/Visits.antt =====
-- Which records `step_pm_process` of src/proc_mgr.c runs, and in which order.
use mathlib.Core.Option
use step.Common.{
  ℕ, ◌+◌, ◌≡◌, ◌≢◌, refl, sym, ap, ◌∙◌, ◌∷◌, [], ◌++◌, List, map, Option, some, ℤ, true, false,
  ◌==◌, ==_iff, Bool-cases, Option-cases, ◌⊎◌, inl, inr, get_elem?, arith,
}
use step.Platform.{Platform}
use step.Node.{Chain}
use step.Cache.{Cache}
use step.ProcMgr.{NodeRecord, Config, Manager, lock, unlock}
use step.ProcMgr.Process.{decide, run_record, process_record}
use step.ProcMgr.Trace.{
  Event, Traced, traced_chain, traced_node, traced_record, traced_manager, traced_platform,
  record_calls,
}
use step.ProcMgr.Trace.Decisions.{Decision, decide-Decision}
use step.ProcMgr.Trace.Cases.{visit-disabled, visit-passes, visit-runs, run_record-traced}
use step.ProcMgr.Trace.Loop.{get_elem?-traced, decide-traced}

-- The calls of the records of a list of handles, one after the other.
unfoldable pub calls_of : {W : Type 0} → List (NodeRecord W) → List ℕ → List Event
calls_of nodes [] = []
calls_of nodes (h ∷ hs) = record_calls nodes h ++ calls_of nodes hs

module _ {W : Type 0} (plat : Platform W) (cfg : Config) (mes : ℕ) where
  -- The return code, the cache and the memory.
  abbrev pub View : Type 0
  View = ℤ × Cache × W

  -- From one state to another, the cache or the first node of the record decides `v`.
  pub record Decides (r : NodeRecord W) (x : View) (v : ℕ) (y : View) : Type 0 where
    pub chain : Chain W
    pub node : r.node ≡ some chain
    pub decided : Decision plat cfg mes chain.first r.handle x.0 x.1 x.2 v y.0 y.1 y.2

  -- The handles that are picked from a list, in its order, from a first state to a last one: a
  -- disabled record is skipped, an enabled one is passed over if the decision in the state that the
  -- records before it have left is 0, and else it is picked and run in this state.
  pub data Picks (nodes : List (NodeRecord W)) : List ℕ → View → List ℕ → View → Type 0 where
    done : {x : View} → Picks nodes [] x [] x
    skips :
        {hs sel : List ℕ} {x y : View} (h : ℕ) (r : NodeRecord W)
        → get_elem? nodes h ≡ some r
        → r.enabled ≡ false
        → Picks nodes hs x sel y
        → Picks nodes (h ∷ hs) x sel y
    passes :
        {hs sel : List ℕ} {x x₁ y : View} (h : ℕ) (r : NodeRecord W)
        → get_elem? nodes h ≡ some r
        → r.enabled ≡ true
        → Decides r x 0 x₁
        → Picks nodes hs x₁ sel y
        → Picks nodes (h ∷ hs) x sel y
    runs :
        {hs sel : List ℕ} {x y : View} {rc : ℤ} {cache : Cache} {w w' : W} (h v : ℕ)
        (r : NodeRecord W)
        → get_elem? nodes h ≡ some r
        → r.enabled ≡ true
        → v ≢ 0
        → (d : Decides r x v (rc, cache, w)) → run_record plat r d.chain mes w ≡ some w'
        → Picks nodes hs (rc, cache, w') sel y
        → Picks nodes (h ∷ hs) x (h ∷ sel) y

  -- What one round does: the record is passed over, or it is run and the calls recorded.
  abbrev pub Round :
      ℕ
      → Manager W
      → ℕ × ℤ × Manager W × W
      → List Event
      → Option (ℕ × ℤ × Manager (Traced W) × Traced W)
      → ℕ
      → View
      → Type 0
  Round h m (n', rc', m', w') l traced n x =
      (r : NodeRecord W) × (get_elem? m.nodes h ≡ some r)
      × (((traced ≡ some (n', rc', traced_manager m', (w', l)))
            × (n' ≡ n)
            × (((r.enabled ≡ false) × (x ≡ (rc', m'.cache, w')))
                ⊎ ((r.enabled ≡ true) × Decides r x 0 (rc', m'.cache, w'))))
          ⊎ ((traced ≡ some (n', rc', traced_manager m', (w', l ++ record_calls m.nodes h)))
              × (n' ≡ n + 1)
              × (r.enabled ≡ true)
              × ((v : ℕ) × (w : W) × (v ≢ 0)
                  × (d : Decides r x v (rc', m'.cache, w)) × (run_record plat r d.chain mes w
                      ≡ some w'))))

  -- A state of the loop, with the calls recorded.
  abbrev pub traced_state :
      List Event → ℕ × ℤ × Manager W × W → ℕ × ℤ × Manager (Traced W) × Traced W
  traced_state l (n, rc, m, w) = (n, rc, traced_manager m, (w, l))

  abbrev decided_state : ℕ → ℕ × ℤ × Manager W × W → ℕ × ℤ × Cache × W
  decided_state v (n, rc, m, w) = (v, rc, m.cache, w)

  abbrev matched_state : ℕ → W → ℕ × ℤ × Manager W × W → ℕ × ℤ × Cache × W
  matched_state v w₁ (n, rc, m, w) = (v, rc, m.cache, w₁)

  abbrev final_memory : ℕ × ℤ × Manager W × W → W
  final_memory (n, rc, m, w) = w

  pub process_record-traced :
      (h n n' : ℕ) (rc rc' : ℤ) (m m' : Manager W) (w w' : W) (l : List Event)
      → process_record plat cfg h mes (n, rc, m, w) ≡ some (n', rc', m', w')
      → Round h m
          (n', rc', m', w')
          l
          (process_record (traced_platform plat) cfg h mes (n, rc, traced_manager m, (w, l)))
          n
          (rc, m.cache, w)
  unfolding process_record
  process_record-traced h n n' rc rc' m m' w w' l e = elim (Option-cases (get_elem? m.nodes h)) [
    | inl out ↦ absurd (ground (arith, out))
    | inr (r, at) ↦
        let found : get_elem? (map traced_record m.nodes) h ≡ some (traced_record r) =
          rw (get_elem?-traced m.nodes h, at) refl in
        elim (Bool-cases r.enabled) [
          | inl on ↦ elim (Option-cases r.node) [
            | inl missing ↦ absurd (ground (arith, at, on, missing))
            | inr (c, there) ↦
                let decides = decide-traced plat mes cfg m.cache c.first r.handle rc w l in
                elim (Option-cases (decide plat cfg m.cache c.first mes r.handle rc w)) [
                  | inl f ↦ absurd (ground (arith, at, on, there, f))
                  | inr ((v, rc₁, cache, w₁), d) ↦
                      let traced_d : decide (traced_platform plat) cfg m.cache (traced_node c.first)
                            mes r.handle rc (w, l)
                          ≡ some (v, rc₁, cache, (w₁, l)) =
                        rw (decides, d) refl in
                      elim (Bool-cases (v == 0)) [
                        | inl z ↦
                            let q =
                              sym (
                                visit-passes plat cfg mes h n rc m w r c v rc₁ cache w₁ at on there
                                  d z)
                              ∙ e in
                            (
                              r,
                              at,
                              inl (
                                visit-passes (traced_platform plat) cfg mes h n rc
                                      (traced_manager m) (w, l) (traced_record r) (traced_chain c) v
                                      rc₁ cache (w₁, l) found on (rw there refl) traced_d z
                                    ∙ ap (Option.map (traced_state l)) q,
                                ground (arith, q),
                                inr (
                                  on,
                                  record {
                                    chain = c;
                                    node = there;
                                    decided =
                                        decide-Decision plat cfg mes c.first r.handle rc rc' m.cache
                                          m'.cache w w' 0
                                          (d
                                            ∙ ap (λ x. some (x, rc₁, cache, w₁)) ((==_iff v 0).0 z)
                                            ∙ ap (Option.map (decided_state 0)) q);
                                  },
                                ),
                              ),
                            )
                        | inr nz ↦ elim (Option-cases (run_record plat r c mes w₁)) [
                          | inl fails ↦ absurd (
                              ground (
                                arith,
                                sym (
                                      visit-runs plat cfg mes h n rc m w r c v rc₁ cache w₁ at on
                                        there d nz)
                                    ∙ e,
                                fails,
                              ))
                          | inr (w₂, ran) ↦
                              let q : some
                                    (n + 1, rc₁, lock (unlock (record m { cache = cache })), w₂)
                                  ≡ some (n', rc', m', w') =
                                rw
                                  (
                                    ← e,
                                    visit-runs plat cfg mes h n rc m w r c v rc₁ cache w₁ at on
                                        there d nz,
                                    ran,
                                  )
                                  refl in
                              (
                                r,
                                at,
                                inr (
                                  visit-runs (traced_platform plat) cfg mes h n rc
                                        (traced_manager m) (w, l) (traced_record r) (traced_chain c)
                                        v rc₁ cache (w₁, l) found on (rw there refl) traced_d nz
                                      ∙ rw
                                          (
                                            run_record-traced plat mes m.nodes h r c w₁ l at there,
                                            ran,
                                          )
                                          (ap
                                            (Option.map
                                              (traced_state (l ++ record_calls m.nodes h)))
                                            q),
                                  ground (arith, q),
                                  on,
                                  (
                                    v,
                                    w₁,
                                    (λ zero. ground (arith, nz, zero)),
                                    record {
                                      chain = c;
                                      node = there;
                                      decided =
                                          decide-Decision plat cfg mes c.first r.handle rc rc'
                                            m.cache m'.cache w w₁ v
                                            (d ∙ ap (Option.map (matched_state v w₁)) q);
                                    },
                                    ran ∙ ap (Option.map final_memory) q,
                                  ),
                                ),
                              )
                        ]
                      ]
                ]
          ]
          | inr off ↦
              let q = sym (visit-disabled plat cfg mes h n rc m w r at off) ∙ e in
              (
                r,
                at,
                inl (
                  visit-disabled (traced_platform plat) cfg mes h n rc (traced_manager m) (w, l)
                        (traced_record r) found off
                      ∙ ap (Option.map (traced_state l)) q,
                  ground (arith, q),
                  inl (off, ground (arith, q)),
                ),
              )
        ]
  ]
