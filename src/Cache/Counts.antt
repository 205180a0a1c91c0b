-- ===== src/Cache/Counts.antt =====
-- The statistics of src/cache.c.
use step.Common.{ℕ, ◌≡◌, refl, some, arith}
use step.Cache.{Cache, clear, check, add}

-- No operation of the cache changes the count of the removals, not even an insertion that removes a
-- record from a full cache.
removals_lem :
    (depth f h v now : ℕ) (c c' : Cache)
    → add c f h v now ≡ some c'
    → (c'.stats.removals ≡ c.stats.removals)
      × ((clear depth c).stats.removals ≡ c.stats.removals)
      × ((check c f h now).2.stats.removals ≡ c.stats.removals)
unfolding add clear check
removals_lem depth f h v now c c' e = (ground arith, refl, ground arith)
