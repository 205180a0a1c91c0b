-- ===== src/Cache/Lru.antt =====
-- Which record `step_cache_add` of src/cache.c overwrites.
use native.Mathlib.Nat.{add-zero, add-suc, suc-add, zero-add}
use step.Common.{
  ℕ, zero, suc, ◌+◌, ◌<◌, ◌≤◌, ◌≡◌, refl, ap, ◌⊎◌, inl, inr, ◌==◌, ltb, true, none, some, List, [],
  ◌∷◌, length, get_elem?, set, Bool-cases, lt→ltb, All, arith,
}
use step.Cache.{Rec, Cache, free_slot, oldest_slot, int64_max, add, incr32, entry_of}

-- The first loop finds an empty record, or every record is in use.
free_slot_lem :
    (i : ℕ) (rs : List Rec)
    → ((j : ℕ) × (r : Rec) × (free_slot i rs ≡ some (i + j))
        × (get_elem? rs j ≡ some r)
        × (r.last_used ≡ 0))
      ⊎ ((free_slot i rs ≡ none) × All (λ r. 0 < r.last_used) rs)
unfolding free_slot
free_slot_lem i [] = inr (refl, tt)
free_slot_lem i (r ∷ rs) = elim (Bool-cases (r.last_used == 0)) [
  | inl z ↦ inl (0, r, rw (z, free_slot, add-zero), refl, ground arith)
  | inr nz ↦ elim (free_slot_lem (suc i) rs) [
    | inl (j, x, e, at, u) ↦ inl (suc j, x, rw (nz, free_slot, e, add-suc, suc-add), at, u)
    | inr (e, all) ↦ inr (rw (nz, free_slot, e), (ground arith, all))
  ]
]

-- The second loop, once a candidate is known, ends with a record no newer than the candidate and
-- than all the records that it reads.
oldest_slot-some :
    (i oldest k : ℕ) (rs : List Rec)
    → ((oldest_slot i oldest (some k) rs ≡ some k) × All (λ r. oldest ≤ r.last_used) rs)
      ⊎ ((j : ℕ) × (r : Rec) × (oldest_slot i oldest (some k) rs ≡ some (i + j))
          × (get_elem? rs j ≡ some r)
          × (r.last_used < oldest)
          × All (λ x. r.last_used ≤ x.last_used) rs)
unfolding oldest_slot
oldest_slot-some i oldest k [] = inl (refl, tt)
oldest_slot-some i oldest k (r ∷ rs) = elim (Bool-cases (ltb r.last_used oldest)) [
  | inl lt ↦ elim (oldest_slot-some (suc i) r.last_used i rs) [
    | inl (e, all) ↦
        inr (0, r, rw (lt, oldest_slot, e, add-zero), refl, ground arith, (omega arith, all))
    | inr (j, x, e, at, l, all) ↦
        inr (
          suc j,
          x,
          rw (lt, oldest_slot, e, add-suc, suc-add),
          at,
          ground arith,
          (omega arith, all),
        )
  ]
  | inr ge ↦ elim (oldest_slot-some (suc i) oldest k rs) [
    | inl (e, all) ↦ inl (rw (ge, oldest_slot, e), (ground arith, all))
    | inr (j, x, e, at, l, all) ↦
        inr (suc j, x, rw (ge, oldest_slot, e, add-suc, suc-add), at, l, (ground arith, all))
  ]
]

oldest_slot_lem :
    (rs : List Rec)
    → 0 < length rs
    → All (λ r. r.last_used < int64_max) rs
    → (j : ℕ) × (x : Rec) × (oldest_slot 0 int64_max none rs ≡ some j)
      × (get_elem? rs j ≡ some x)
      × All (λ y. x.last_used ≤ y.last_used) rs
unfolding oldest_slot
oldest_slot_lem [] h b = absurd (omega arith)
oldest_slot_lem (r ∷ rs) h b =
    let lt : ltb r.last_used int64_max ≡ true = lt→ltb _ _ b.0 in
    elim (oldest_slot-some 1 r.last_used 0 rs) [
      | inl (e, all) ↦ (0, r, rw (lt, oldest_slot, e), refl, (omega arith, all))
      | inr (j, x, e, at, l, all) ↦
          (suc j, x, rw (lt, oldest_slot, e) (ap some (omega arith)), at, (omega arith, all))
    ]

set-set {ℓ} : {A : Type ℓ} (xs : List A) (i : ℕ) (v w : A) → set (set xs i v) i w ≡ set xs i w
set-set [] i v w = refl
set-set (x ∷ xs) zero v w = refl
set-set (x ∷ xs) (suc i) v w = ap (◌∷◌ x) (set-set xs i v w)

-- The record at a slot may be given up: it is empty, or no record is empty and it is the least
-- recently used.
abbrev pub Expendable : List Rec → Rec → Type 0
Expendable rs old =
    (old.last_used ≡ 0)
    ⊎ (All (λ r. 0 < r.last_used) rs × All (λ r. old.last_used ≤ r.last_used) rs)

-- On a cache of at least one record, with times below the largest `int64_t`, `step_cache_add` stores the
-- new record in place of one that is empty, or of the least recently used if none is empty, and
-- changes no other.
pub add_replaces :
    (c : Cache) (filter handle result now : ℕ)
    → 0 < length c.recs
    → All (λ r. r.last_used < int64_max) c.recs
    → (j : ℕ) × (old : Rec) × (c' : Cache) × (add c filter handle result now ≡ some c')
      × (get_elem? c.recs j ≡ some old)
      × Expendable c.recs old
      × (c'.recs ≡ set c.recs j (entry_of filter handle result now))
unfolding add
add_replaces c filter handle result now pos bounded = elim (free_slot_lem 0 c.recs) [
  | inl (j, old, e, at, empty) ↦ (j, old, stored j, rw (e, zero-add, add), at, inl empty, refl)
  | inr (full, used) ↦
      let (j, old, e, at, least) = oldest_slot_lem c.recs pos bounded in
      (j, old, stored j, rw (full, e, set-set, add), at, inr (used, least), refl)
]
  where
    stored : ℕ → Cache
    stored j = record {
      recs = set c.recs j (entry_of filter handle result now);
      stats = let s = c.stats in record s { add_calls = incr32 s.add_calls };
    }
