-- ===== src/ProcMgr/Frame/Loop.antt =====
-- What the loop of step_pm_process of src/proc_mgr.c does to the memory: no more than the handlers,
-- the subscribers and the clock do.
use step.Common.{
  ℕ, ◌<◌, ◌≡◌, inl, inr, ◌==◌, some, List, [], ◌∷◌, get_elem?, ℤ, Bool-cases, Option-cases, subst,
  >>=-eq-some, arith,
}
use step.Platform.{Platform}
use step.Node.{Node, Chain, nodes_of}
use step.Cache
use step.Cache.{Cache}
use step.ProcMgr.{NodeRecord, Config, Manager}
use step.ProcMgr.Process.{
  evaluate_node, confirm, decide, run_nodes, run_record, process_record, process_nodes, word_of,
}
use step.ProcMgr.Visit.{process_record-Kept}
use step.ProcMgr.Frame.{
  IsFrame, NodeKeeps, RecordKeeps, AllKeep, notify-keeps, run_nodes-keeps, evaluate_node-keeps,
  confirm-keeps,
}

module _ {W : Type 0} (plat : Platform W) (R : W → W → Type 0) (frame : IsFrame plat R) (mes : ℕ)
    (cfg : Config) where
  decide-keeps :
      (cache cache' : Cache) (n : Node W) (handle : ℕ) (rc rc' : ℤ) (match : ℕ) (w w' : W)
      → NodeKeeps R n
      → decide plat cfg cache n mes handle rc w ≡ some (match, rc', cache', w')
      → R w w'
  unfolding decide
  decide-keeps cache cache' n handle rc rc' match w w' k e =
      let check = Cache.check cache (word_of plat mes w) handle (plat.uptime w).0 in
      elim (Bool-cases cfg.filter_cache) [
        | inl on ↦ elim (Bool-cases (check.0 == 0)) [
          | inr hit ↦ subst (R w) (ground (arith, on, hit, e)) (frame.uptime w)
          | inl miss ↦ elim (Option-cases (evaluate_node plat n mes handle rc w)) [
            | inl f ↦ absurd (ground (arith, on, miss, f, e))
            | inr ((m, rc₁, w₁), q) ↦
                let w₂ = (confirm plat n mes handle m w₁).1 in
                elim (Option-cases (
                  Cache.add check.2 (word_of plat mes w₂) handle (confirm plat n mes handle m w₁).0
                    (plat.uptime w₂).0)) [
                      | inl f ↦ absurd (ground (arith, on, miss, q, f, e))
                      | inr (c, stored) ↦
                          let at : R w (plat.uptime w₂).1 =
                            frame.trans w w₁ _
                              (evaluate_node-keeps plat R frame mes n handle rc rc₁ m w w₁ k q)
                              (frame.trans w₁ w₂ _ (confirm-keeps plat R frame mes n handle m w₁ k)
                                (frame.uptime w₂)) in
                          subst (R w) (ground (arith, on, miss, q, stored, e)) at
                    ]
          ]
        ]
        | inr off ↦ elim (Option-cases (evaluate_node plat n mes handle rc w)) [
          | inl f ↦ absurd (ground (arith, off, f, e))
          | inr ((m, rc₁, w₁), q) ↦
              let w₂ = (confirm plat n mes handle m w₁).1 in
              let at : R w w₂ =
                frame.trans w w₁ w₂
                  (evaluate_node-keeps plat R frame mes n handle rc rc₁ m w w₁ k q)
                  (confirm-keeps plat R frame mes n handle m w₁ k) in
              subst (R w) (ground (arith, off, q, e)) at
        ]
      ]

  run_record-keeps :
      (r : NodeRecord W) (c : Chain W) (w w' : W)
      → r.node ≡ some c
      → RecordKeeps R r
      → run_record plat r c mes w ≡ some w'
      → R w w'
  unfolding run_record
  run_record-keeps r c w w' at (nodes, subs) e =
      let (w₁, ran, notified) = >>=-eq-some (run_nodes plat (nodes_of c) mes r.handle 0 w) _ e in
      frame.trans w w₁ w'
        (run_nodes-keeps plat R frame mes (nodes_of c) r.handle 0 w w₁ (nodes c at) ran)
        (subst (R w₁) (ground (arith, notified))
          (notify-keeps plat R frame mes r.sub_callbacks r.handle w₁ subs))

  process_record-keeps :
      (h n n' : ℕ) (rc rc' : ℤ) (m m' : Manager W) (w w' : W)
      → ((r : NodeRecord W) → get_elem? m.nodes h ≡ some r → RecordKeeps R r)
      → process_record plat cfg h mes (n, rc, m, w) ≡ some (n', rc', m', w')
      → R w w'
  unfolding process_record
  process_record-keeps h n n' rc rc' m m' w w' keeps e =
      let (r, at, e₁) = >>=-eq-some (get_elem? m.nodes h) _ e in
      let k = keeps r at in
      elim (Bool-cases r.enabled) [
        | inr off ↦ subst (R w) (ground (arith, off, e₁)) (frame.same w)
        | inl on ↦ elim (Option-cases r.node) [
          | inl q ↦ absurd (ground (arith, on, q, e₁))
          | inr (c, q) ↦
              let node = (k.0 c q).0 in
              elim (Option-cases (decide plat cfg m.cache c.first mes r.handle rc w)) [
                | inl f ↦ absurd (ground (arith, on, q, f, e₁))
                | inr ((match, rc₁, cache, w₁), d) ↦
                    let decided =
                      decide-keeps m.cache cache c.first r.handle rc rc₁ match w w₁ node d in
                    elim (Bool-cases (match == 0)) [
                      | inl z ↦ subst (R w) (ground (arith, on, q, d, z, e₁)) decided
                      | inr y ↦ elim (Option-cases (run_record plat r c mes w₁)) [
                        | inl f ↦ absurd (ground (arith, on, q, d, y, f, e₁))
                        | inr (w₂, ran) ↦
                            subst (R w) (ground (arith, on, q, d, y, ran, e₁))
                              (frame.trans w w₁ w₂ decided (run_record-keeps r c w₁ w₂ q k ran))
                      ]
                    ]
              ]
        ]
      ]

  -- The loop over the handles `l`, with the mutex held, ends in a memory that is related to the one
  -- that it began in, if the handlers and the subscribers of the records keep the relation.
  pub process_nodes-keeps :
      (l : List ℕ) (n n' : ℕ) (rc rc' : ℤ) (m m' : Manager W) (w w' : W)
      → 0 < m.reg_access
      → AllKeep R m.nodes l
      → process_nodes plat cfg l mes (n, rc, m, w) ≡ some (n', rc', m', w')
      → R w w'
  unfolding process_nodes
  process_nodes-keeps [] n n' rc rc' m m' w w' held keep e =
      subst (R w) (ground (arith, e)) (frame.same w)
  process_nodes-keeps (h ∷ hs) n n' rc rc' m m' w w' held (keep, keeps) e =
      elim (Option-cases (process_record plat cfg h mes (n, rc, m, w))) [
        | inl f ↦ absurd (ground (arith, f, e))
        | inr ((n₁, rc₁, m₁, w₁), q) ↦
            let k = process_record-Kept plat cfg mes h n n₁ rc rc₁ m m₁ w w₁ held q in
            frame.trans w w₁ w' (process_record-keeps h n n₁ rc rc₁ m m₁ w w₁ keep q) (
              process_nodes-keeps hs n₁ n' rc₁ rc' m₁ m' w₁ w' (omega (arith, k.reg_access))
                (rw k.nodes keeps) (ground (arith, q, e)))
      ]
