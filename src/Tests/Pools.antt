-- ===== src/Tests/Pools.antt =====
-- Tests of the sample pool.
use step.Common.{◌+◌, ◌≤◌, ◌≡◌, refl, ℕ, none, some, arith}
use step.SamplePool.{Pool, free, alloc}
use step.SamplePool.Account.{payload_outside}
use step.Tests.Samples.{World, world, platform, pool}

payload_outside_example :
    (a : ℕ) × (w₁ : World) × ((alloc platform 24 12 (pool, world)).0 ≡ some 64)
    × (64 + (24 + 12) ≤ a)
    × ((alloc platform 24 12 (pool, world)).2
        ≡ platform.set_free_after_use 64
            (platform.zero_bytes a 12 (platform.set_payload 64 (some a) w₁)))
payload_outside_example =
    payload_outside platform 24 12 64 pool world (omega arith) (omega arith) (omega arith) refl

-- After an allocation, and after the release.
abbrev allocated : Pool × World
allocated = let (_, p, w) = alloc platform 24 12 (pool, world) in (p, w)

abbrev released : Pool × World
released = elim (free platform 24 64 allocated) [ none ↦ allocated | some st ↦ st ]
