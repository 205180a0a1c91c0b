-- ===== src/Cache/Map.antt =====
-- The cache of src/cache.c as a map from (filter word, handle) to a cached result, and what
-- `step_cache_check` and `step_cache_add` do to that map.
use step.Common.{
  ℕ, suc, ◌<◌, ◌≡◌, refl, ap, ◌⊎◌, inl, inr, true, false, Option, none, some, List, [], ◌∷◌, length,
  Bool-cases, arith,
}
use step.Cache.{Rec, Cache, hit, check_loop, check, incr32}

-- The result of the first record that a check would hit.
unfoldable pub cached : List Rec → ℕ → ℕ → Option ℕ
cached [] filter handle = none
cached (r ∷ rs) filter handle = elim (hit filter handle r) [
  | true ↦ some r.result
  | false ↦ cached rs filter handle
]

-- No two records in use have the same key.
abbrev pub Distinct : List Rec → Type 0
Distinct [] = Unit
Distinct (r ∷ rs) = ((0 < r.last_used) → cached rs r.input r.handle ≡ none) × Distinct rs

-- A record in use that is used again is hit by the same keys.
hit-touch :
    (f h f' h' now : ℕ) (r : Rec)
    → 0 < now
    → hit f h r ≡ true
    → hit f' h' (record r { last_used = now }) ≡ hit f' h' r
unfolding hit
hit-touch f h f' h' now r t y = ground arith

-- What `check_loop` returns, and that the map stays as it is.
pub check_loop-cached :
    (f h now : ℕ) (rs : List Rec)
    → 0 < now
    → ((check_loop f h now rs ≡ none) × (cached rs f h ≡ none))
      ⊎ ((v : ℕ) × (rs' : List Rec) × (check_loop f h now rs ≡ some (v, rs'))
          × (cached rs f h ≡ some v)
          × ((f' h' : ℕ) → cached rs' f' h' ≡ cached rs f' h')
          × (length rs' ≡ length rs))
unfolding check_loop cached
check_loop-cached f h now [] t = inl (refl, refl)
check_loop-cached f h now (r ∷ rs) t = elim (Bool-cases (hit f h r)) [
  | inl y ↦ inr (
    r.result,
    record r { last_used = now } ∷ rs,
    rw (y, check_loop),
    rw (y, cached),
    λ f' h'.
        ap (λ b. elim b [ true ↦ some r.result | false ↦ cached rs f' h' ])
          (hit-touch f h f' h' now r t y),
    refl,
  )
  | inr n ↦ elim (check_loop-cached f h now rs t) [
    | inl (e, c) ↦ inl (rw (n, check_loop, e), rw (n, cached, c))
    | inr (v, rs', e, c, same, len) ↦ inr (
      v,
      r ∷ rs',
      rw (n, check_loop, e),
      rw (n, cached, c),
      λ f' h'. ap (λ m. elim (hit f' h' r) [ true ↦ some r.result | false ↦ m ]) (same f' h'),
      ap suc len,
    )
  ]
]

-- The reply of a check that finds `o` in the map.
abbrev pub reply : Option ℕ → Cache → ℕ × ℕ × Cache
reply none c = (0, 0, c)
reply (some v) c = (1, v, c)

-- A check, at any time but 0, returns 1 and the cached result if the key is in the map, and 0 and
-- 0 if it is not; it leaves the map and the number of records as they are.
pub check-cached :
    (c : Cache) (f h now : ℕ)
    → 0 < now
    → (c' : Cache) × (check c f h now ≡ reply (cached c.recs f h) c')
      × ((f' h' : ℕ) → cached c'.recs f' h' ≡ cached c.recs f' h')
      × (length c'.recs ≡ length c.recs)
unfolding check
check-cached c f h now t = elim (check_loop-cached f h now c.recs t) [
  | inl (e, m) ↦ (missed, rw (e, m, check), λ f' h'. refl, refl)
  | inr (v, rs, e, m, same, len) ↦ (matched rs, rw (e, m, check), same, len)
]
  where
    missed : Cache
    missed = record c { stats = let s = c.stats in record s { check_calls = incr32 s.check_calls } }

    matched : List Rec → Cache
    matched rs = record {
      recs = rs;
      stats =
          let s = c.stats in
          record s { check_calls = incr32 s.check_calls; matches = incr32 s.matches };
    }
