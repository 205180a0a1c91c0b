-- ===== src/ProcMgr/Caching.antt =====
-- The match decision of src/proc_mgr.c with and without the filter cache, for nodes that decide by
-- the filter word alone.
use step.Common.{ℕ, ◌<◌, ◌≡◌, refl, inl, inr, true, false, some, ℤ, arith}
use step.Platform.{Platform}
use step.Node.{Node}
use step.Cache
use step.Cache.{Cache, int64_max}
use step.Cache.Valid.{IsValid, Coherent, check-IsValid, add-IsValid}
use step.ProcMgr.{Config}
use step.ProcMgr.Process.{word_of, evaluate_node, confirm, decide}

module _ {W : Type 0} (plat : Platform W) (mes : ℕ) where
  -- The decision of a node about a word is `g`, whatever else the memory holds: it ends without a
  -- fault, with no effect on the word.
  pub record DecidesBy (g : ℕ → ℕ → ℕ) (n : Node W) (handle : ℕ) : Type 0 where
    pub decision :
        (rc : ℤ) (w : W)
        → (v : ℕ) × (rc' : ℤ) × (w₁ : W) × (evaluate_node plat n mes handle rc w
            ≡ some (v, rc', w₁))
          × ((confirm plat n mes handle v w₁).0 ≡ g (word_of plat mes w) handle)
          × (word_of plat mes (confirm plat n mes handle v w₁).1 ≡ word_of plat mes w)
    pub flag : (f : ℕ) → g f handle < 2

  -- The clock shows a time after 0 that an `int64_t` can hold.
  abbrev pub IsClock : Type 0
  IsClock = (w : W) → (0 < (plat.uptime w).0) × ((plat.uptime w).0 < int64_max)

  decide-uncached :
      (cfg : Config) (g : ℕ → ℕ → ℕ) (c : Cache) (n : Node W) (handle : ℕ) (rc : ℤ) (w : W)
      → cfg.filter_cache ≡ false
      → DecidesBy g n handle
      → (rc' : ℤ) × (w' : W) × (decide plat cfg c n mes handle rc w
          ≡ some (g (word_of plat mes w) handle, rc', c, w'))
  unfolding decide
  decide-uncached cfg g c n handle rc w off d =
      let (m, rc', w₁, run, decides, same) = d.decision rc w in
      (rc', (confirm plat n mes handle m w₁).1, ground (arith, off, run, decides))

  -- Of a node that decides by the filter word, with a valid and coherent cache of at least one record
  -- and a clock after 0 and below the largest `int64_t`: the decision with the cache on ends, is the
  -- one that is made with the cache off, and leaves the cache valid and coherent.
  pub decide-Coherent :
      (cfg : Config) (g : ℕ → ℕ → ℕ) (c : Cache) (n : Node W) (handle : ℕ) (rc : ℤ) (w : W)
      → IsClock
      → 0 < cfg.cache_depth
      → cfg.filter_cache ≡ true
      → IsValid cfg.cache_depth c
      → Coherent g c
      → DecidesBy g n handle
      → (rc' : ℤ) × (c' : Cache) × (w' : W) × (decide plat cfg c n mes handle rc w
          ≡ some (g (word_of plat mes w) handle, rc', c', w'))
        × IsValid cfg.cache_depth c'
        × Coherent g c'
        × ((rc'' : ℤ) × (w'' : W) × (decide plat
                (record cfg { filter_cache = false })
                c
                n
                mes
                handle
                rc
                w
              ≡ some (g (word_of plat mes w) handle, rc'', c, w'')))
  unfolding decide
  decide-Coherent cfg g c n handle rc w clock deep on v k d =
      let now = (plat.uptime w).0 in
      let word = word_of plat mes w in
      let plain = decide-uncached (record cfg { filter_cache = false }) g c n handle rc w refl d in
      let (valid, coherent, reply) =
        check-IsValid g cfg.cache_depth c word handle now (clock w).0 (clock w).1 v k in
      elim reply [
        | inl (hit, right) ↦ (
          rc,
          (Cache.check c word handle now).2,
          (plat.uptime w).1,
          ground (arith, on, hit, right),
          valid,
          coherent,
          plain,
        )
        | inr (miss, unknown) ↦
            let (m, rc', w₁, run, decides, same) = d.decision rc w in
            let c₁ = (Cache.check c word handle now).2 in
            let w₂ = (confirm plat n mes handle m w₁).1 in
            let now' = (plat.uptime w₂).0 in
            let (c₂, stored, valid', coherent') =
              add-IsValid g cfg.cache_depth c₁ word handle now' (clock w₂).0 (clock w₂).1 deep
                (omega (arith, d.flag word)) valid coherent unknown in
            (
              rc',
              c₂,
              (plat.uptime w₂).1,
              ground (arith, on, miss, run, decides, same, stored),
              valid',
              coherent',
              plain,
            )
      ]
