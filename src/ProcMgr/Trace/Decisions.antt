-- ===== src/ProcMgr/Trace/Decisions.antt =====
-- How `step_pm_process` of src/proc_mgr.c comes to decide whether a record matches: by the cache or
-- by the node.
use step.Common.{
  ℕ, ◌≡◌, ◌≢◌, Option, subst, refl, sym, ap, ◌==◌, ==_iff, Bool-cases, Option-cases, inl, inr, some,
  none, ℤ, true, false, arith,
}
use step.Platform.{Platform}
use step.Node.{Node}
use step.Cache
use step.Cache.{Cache}
use step.ProcMgr.{Config}
use step.ProcMgr.Process.{word_of, evaluate_node, confirm, decide}

module _ {W : Type 0} (plat : Platform W) (cfg : Config) (mes : ℕ) (n : Node W) (handle : ℕ) where
  -- The decision `v` of the node itself: its evaluation, and its matched handler after that.
  abbrev pub ByNode : ℤ → W → ℕ → ℤ → W → Type 0
  ByNode rc w v rc' w' =
      (match : ℕ) × (w₁ : W) × (evaluate_node plat n mes handle rc w ≡ some (match, rc', w₁))
      × (confirm plat n mes handle match w₁ ≡ (v, w'))

  -- The decision `v` from one return code, cache and memory to another. Without the cache, the node
  -- decides. With it, a hit is taken as it is; after a miss, the node decides, and its decision is
  -- added to the cache.
  pub data Decision (rc : ℤ) (cache : Cache) (w : W) (v : ℕ) : ℤ → Cache → W → Type 0 where
    uncached :
        {rc' : ℤ} {w' : W}
        → cfg.filter_cache ≡ false
        → ByNode rc w v rc' w'
        → Decision rc cache w v rc' cache w'
    hits :
        (hit : ℕ) (cache' : Cache)
        → cfg.filter_cache ≡ true
        → hit ≢ 0
        → Cache.check cache (word_of plat mes w) handle (plat.uptime w).0 ≡ (hit, v, cache')
        → Decision rc cache w v rc cache' (plat.uptime w).1
    misses :
        {rc' : ℤ} {w' : W} (result : ℕ) (cache₁ cache' : Cache)
        → cfg.filter_cache ≡ true
        → Cache.check cache (word_of plat mes w) handle (plat.uptime w).0 ≡ (0, result, cache₁)
        → ByNode rc w v rc' w'
        → Cache.add cache₁ (word_of plat mes w') handle v (plat.uptime w').0 ≡ some cache'
        → Decision rc cache w v rc' cache' (plat.uptime w').1

  -- That the state which is left, if any, is that of a decision.
  abbrev Decided : ℤ → Cache → W → Option (ℕ × ℤ × Cache × W) → Type 0
  Decided rc cache w o = elim o [
    | none ↦ Unit
    | some (v, rc', cache', w') ↦ Decision rc cache w v rc' cache' w'
  ]

  decide-Decided :
      (rc : ℤ) (cache : Cache) (w : W)
      → Decided rc cache w (decide plat cfg cache n mes handle rc w)
  unfolding decide
  decide-Decided rc cache w =
      let word = word_of plat mes w in
      let (hit, result, cache₁) = Cache.check cache word handle (plat.uptime w).0 in
      let leaves =
        λ (o : Option (ℕ × ℤ × Cache × W)) (q : decide plat cfg cache n mes handle rc w ≡ o)
            (d : Decided rc cache w o).
          subst (Decided rc cache w) (sym q) d in
      elim (Bool-cases cfg.filter_cache) [
        | inl on ↦ elim (Bool-cases (hit == 0)) [
          | inl z ↦ elim (Option-cases (evaluate_node plat n mes handle rc w)) [
            | inl f ↦ leaves none (ground (arith, on, z, f)) tt
            | inr ((match, rc₁, w₁), ran) ↦
                let (v, w₂) = confirm plat n mes handle match w₁ in
                let (now, w₃) = plat.uptime w₂ in
                elim (Option-cases (Cache.add cache₁ (word_of plat mes w₂) handle v now)) [
                  | inl f ↦ leaves none (ground (arith, on, z, ran, f)) tt
                  | inr (cache₂, stored) ↦
                      leaves (some (v, rc₁, cache₂, w₃)) (ground (arith, on, z, ran, stored)) (
                        misses result cache₁ cache₂ on
                          (ap (λ h. (h, result, cache₁)) ((==_iff hit 0).0 z))
                          (match, w₁, ran, refl) stored)
                ]
          ]
          | inr nz ↦
              leaves (some (result, rc, cache₁, (plat.uptime w).1)) (ground (arith, on, nz))
                (hits hit cache₁ on (λ zero. ground (arith, nz, zero)) refl)
        ]
        | inr off ↦ elim (Option-cases (evaluate_node plat n mes handle rc w)) [
          | inl f ↦ leaves none (ground (arith, off, f)) tt
          | inr ((match, rc₁, w₁), ran) ↦
              let (v, w₂) = confirm plat n mes handle match w₁ in
              leaves (some (v, rc₁, cache, w₂)) (ground (arith, off, ran))
                (uncached off (match, w₁, ran, refl))
        ]
      ]

  pub decide-Decision :
      (rc rc' : ℤ) (cache cache' : Cache) (w w' : W) (v : ℕ)
      → decide plat cfg cache n mes handle rc w ≡ some (v, rc', cache', w')
      → Decision rc cache w v rc' cache' w'
  decide-Decision rc rc' cache cache' w w' v e =
      subst (Decided rc cache w) e (decide-Decided rc cache w)
