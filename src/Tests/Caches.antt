-- ===== src/Tests/Caches.antt =====
-- Tests of the filter match cache.
use step.Common.{
  ℕ, ◌^◌, ◌%◌, ◌≡◌, refl, ◌==◌, ◌&&◌, if◌then◌else◌, [], ◌∷◌, length, none, some, arith,
}
use step.Cache.{Rec, Cache, hit, check, add, free_slot, oldest_slot, entry_of}
use step.Cache.Lru.{Expendable}
use step.Cache.Map.{cached, Distinct, reply, check-cached}
use step.Cache.Insert.{cached-add}
use step.Cache.Valid.{IsValid, Coherent, add-IsValid}
use step.Tests.Samples.{no_cache}

-- A full cache of two records, the second the older one.
abbrev full : Cache
full = record no_cache { recs = entry_of 0x24 0 1 9 ∷ entry_of 0x24 1 1 7 ∷ [] }

full-Distinct : Distinct full.recs
unfolding cached hit
full-Distinct = (λ u. refl, (λ u. refl, tt))

full-IsValid : IsValid 2 full
full-IsValid = record {
  sized = refl;
  timed = (omega arith, (omega arith, tt));
  distinct = full-Distinct;
}

-- Every node matches every measurement.
abbrev always : ℕ → ℕ → ℕ
always f h = 1

full-Coherent : Coherent always full
unfolding cached hit
full-Coherent f h v e = ground arith

abbrev full_again : Cache
full_again = record {
  recs = entry_of 0x24 0 1 9 ∷ entry_of 0x25 0 1 11 ∷ [];
  stats = record { clear_calls = 0; check_calls = 0; add_calls = 1; matches = 0; removals = 0 };
}

-- The older of the two records is given up.
add-full : add full 0x25 0 1 11 ≡ some full_again
unfolding add free_slot oldest_slot
add-full = refl

cached-add_example :
    (old : Rec) × (c' : Cache) × (add full 0x25 0 1 11 ≡ some c')
    × Expendable full.recs old
    × ((f' h' : ℕ)
        → cached c'.recs f' h' ≡ (
            if (0x25 == f') && (0 == h')
            then some (1 % 2 ^ 32)
            else (if hit f' h' old then none else cached full.recs f' h')))
    × Distinct c'.recs
unfolding cached hit
cached-add_example =
    cached-add full 0x25 0 1 11 (omega arith) (omega arith) (omega arith, (omega arith, tt))
      full-Distinct refl

check-cached_example :
    (c' : Cache) × (check full 0x24 1 11 ≡ reply (cached full.recs 0x24 1) c')
    × ((f' h' : ℕ) → cached c'.recs f' h' ≡ cached full.recs f' h')
    × (length c'.recs ≡ length full.recs)
check-cached_example = check-cached full 0x24 1 11 (omega arith)

add-IsValid_example :
    (c' : Cache) × (add full 0x25 0 1 11 ≡ some c') × IsValid 2 c' × Coherent always c'
unfolding cached hit
add-IsValid_example =
    add-IsValid always 2 full 0x25 0 11 (omega arith) (omega arith) (omega arith) (omega arith)
      full-IsValid full-Coherent refl
