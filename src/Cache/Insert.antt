-- ===== src/Cache/Insert.antt =====
-- What `step_cache_add` of src/cache.c does to the map of the cached results.
use step.Common.{
  ℕ, zero, suc, ◌^◌, ◌%◌, ◌<◌, ◌≡◌, refl, inl, inr, ◌==◌, true, false, if◌then◌else◌, ◌&&◌, none,
  some, List, [], ◌∷◌, length, get_elem?, below-get_elem?, set, ◌∙◌, Bool-cases, All, arith,
}
use step.Cache.{Rec, Cache, hit, add, entry_of, int64_max}
use step.Cache.Lru.{add_replaces, Expendable}
use step.Cache.Map.{cached, Distinct}

-- No record that a key hits is in an array without the key.
hit_of_none :
    (f h j : ℕ) (rs : List Rec) (r : Rec)
    → cached rs f h ≡ none
    → get_elem? rs j ≡ some r
    → hit f h r ≡ false
unfolding cached
hit_of_none f h j [] r e at = cc
hit_of_none f h zero (x ∷ rs) r e at = ground arith
hit_of_none f h (suc j) (x ∷ rs) r e at = ground (arith, hit_of_none f h j rs r)

-- Records of one key are all hit, or all missed.
hit_key : (f h : ℕ) (r x : Rec) → hit f h r ≡ true → hit f h x ≡ hit r.input r.handle x
unfolding hit
hit_key f h r x y = ground arith

pub hit-used : (f h : ℕ) (r : Rec) → hit f h r ≡ true → 0 < r.last_used
unfolding hit
hit-used f h r y = ground arith

cached_key :
    (f h : ℕ) (r : Rec) (rs : List Rec)
    → hit f h r ≡ true
    → cached rs f h ≡ cached rs r.input r.handle
unfolding hit
cached_key f h r rs y =
    let a : r.input ≡ f = ground arith in let b : r.handle ≡ h = ground arith in rw (a, b)

-- Writing a record over the slot of another removes the key of the old one from the map.
cached-set_ne :
    (f h j : ℕ) (rs : List Rec) (old e : Rec)
    → Distinct rs
    → get_elem? rs j ≡ some old
    → hit f h e ≡ false
    → cached (set rs j e) f h ≡ (if hit f h old then none else cached rs f h)
unfolding cached
cached-set_ne f h j [] old e d at n = cc
cached-set_ne f h zero (r ∷ rs) old e d at n = elim (Bool-cases (hit f h r)) [
  | inl y ↦ ground (arith, cached_key f h r rs y, d.0 (hit-used f h r y))
  | inr m ↦ ground arith
]
cached-set_ne f h (suc j) (r ∷ rs) old e d at n = elim (Bool-cases (hit f h r)) [
  | inl y ↦ ground (
    arith,
    hit_key f h r old y,
    hit_of_none r.input r.handle j rs old (d.0 (hit-used f h r y)) at,
  )
  | inr m ↦ ground (arith, cached-set_ne f h j rs old e d.1 at n)
]

cached-set_self :
    (f h j : ℕ) (rs : List Rec) (e : Rec)
    → cached rs f h ≡ none
    → j < length rs
    → hit f h e ≡ true
    → cached (set rs j e) f h ≡ some e.result
unfolding cached
cached-set_self f h j [] e c l y = absurd (omega arith)
cached-set_self f h zero (r ∷ rs) e c l y = ground arith
cached-set_self f h (suc j) (r ∷ rs) e c l y = ground (arith, cached-set_self f h j rs e)

-- A key that misses one record with a time misses it both ways round.
miss-swap :
    (r e : Rec) → 0 < r.last_used → hit e.input e.handle r ≡ false → hit r.input r.handle e ≡ false
unfolding hit
miss-swap r e u m = ground arith

Distinct-set :
    (j : ℕ) (rs : List Rec) (old e : Rec)
    → Distinct rs
    → get_elem? rs j ≡ some old
    → cached rs e.input e.handle ≡ none
    → Distinct (set rs j e)
unfolding cached
Distinct-set j [] old e d at c = tt
Distinct-set zero (r ∷ rs) old e d at c = (λ _. ground arith, d.1)
Distinct-set (suc j) (r ∷ rs) old e d at c = (
  λ u. ground (
    arith,
    cached-set_ne r.input r.handle j rs old e d.1 at
        (miss-swap r e u (hit_of_none e.input e.handle 0 (r ∷ rs) r c refl)),
    d.0 u,
  ),
  Distinct-set j rs old e d.1 at (ground arith),
)

hit-entry :
    (f h f' h' v now : ℕ) → 0 < now → hit f' h' (entry_of f h v now) ≡ ((f == f') && (h == h'))
unfolding hit
hit-entry f h f' h' v now t = ground arith

hit-entry_self : (f h v now : ℕ) → 0 < now → hit f h (entry_of f h v now) ≡ true
unfolding hit
hit-entry_self f h v now t = ground arith

-- After a miss, on a cache of at least one record with no key twice and its times below the largest
-- `int64_t`, `step_cache_add` at a time after 0 succeeds and gives the key the new result. Every
-- other key keeps its own, except that of the one record given up, which was empty or the least
-- recently used of a full cache. No key is stored twice.
pub cached-add :
    (c : Cache) (f h v now : ℕ)
    → 0 < now
    → 0 < length c.recs
    → All (λ r. r.last_used < int64_max) c.recs
    → Distinct c.recs
    → cached c.recs f h ≡ none
    → (old : Rec) × (c' : Cache) × (add c f h v now ≡ some c')
      × Expendable c.recs old
      × ((f' h' : ℕ)
          → cached c'.recs f' h' ≡ (
              if (f == f') && (h == h')
              then some (v % 2 ^ 32)
              else (if hit f' h' old then none else cached c.recs f' h')))
      × Distinct c'.recs
cached-add c f h v now t pos bounded d miss =
    let (j, old, c', run, at, give, recs) = add_replaces c f h v now pos bounded in
    let l : j < length c.recs = below-get_elem? c.recs j old at in
    (
      old,
      c',
      run,
      give,
      λ f' h'. rw recs (map_at f' h' j old l at),
      rw recs (Distinct-set j c.recs old (entry_of f h v now) d at miss),
    )
  where
    map_at :
        (f' h' j : ℕ) (old : Rec)
        → j < length c.recs
        → get_elem? c.recs j ≡ some old
        → cached (set c.recs j (entry_of f h v now)) f' h' ≡ (
            if (f == f') && (h == h')
            then some (v % 2 ^ 32)
            else (if hit f' h' old then none else cached c.recs f' h'))
    map_at f' h' j old l at = elim (Bool-cases ((f == f') && (h == h'))) [
      | inl y ↦
          let p : f ≡ f' = ground arith in
          let q : h ≡ h' = ground arith in
          rw y (
            rw (← p, ← q)
              (cached-set_self f h j c.recs (entry_of f h v now) miss l
                (hit-entry_self f h v now t)))
      | inr m ↦ rw m (cached-set_ne f' h' j c.recs old _ d at (hit-entry f h f' h' v now t ∙ m))
    ]
