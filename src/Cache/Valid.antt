-- ===== src/Cache/Valid.antt =====
-- The invariant of the cache of src/cache.c, and its operations.
use step.Common.{
  ℕ, zero, suc, ◌^◌, ◌%◌, ◌<◌, ◌≡◌, refl, ap, ◌⊎◌, inl, inr, ◌==◌, if◌then◌else◌, ◌&&◌, Option,
  none, some, List, [], ◌∷◌, length, length-set, set, replicate, length-replicate, Bool-cases, ◌∙◌,
  All, arith,
}
use step.Cache.{Rec, Cache, hit, check_loop, check, add, clear, entry_of, int64_max, zero_rec}
use step.Cache.Lru.{add_replaces}
use step.Cache.Map.{cached, Distinct, check_loop-cached}
use step.Cache.Insert.{cached-add, hit-used}

abbrev pub Timed : List Rec → Type 0
Timed = All (λ r. r.last_used < int64_max)

-- A cache of `depth` records, with no key twice, and times below the largest `int64_t`.
pub record IsValid (depth : ℕ) (c : Cache) : Type 0 where
  pub sized : length c.recs ≡ depth
  pub timed : Timed c.recs
  pub distinct : Distinct c.recs

-- Every cached result is what `g` gives for the filter word and the handle.
abbrev pub Coherent : (ℕ → ℕ → ℕ) → Cache → Type 0
Coherent g c = (f h v : ℕ) → cached c.recs f h ≡ some v → v ≡ g f h

Timed-set :
    (rs : List Rec) (j : ℕ) (e : Rec) → Timed rs → e.last_used < int64_max → Timed (set rs j e)
Timed-set [] j e t l = tt
Timed-set (r ∷ rs) zero e t l = (l, t.1)
Timed-set (r ∷ rs) (suc j) e t l = (t.0, Timed-set rs j e t.1 l)

cleared : (n f h : ℕ) → cached (replicate n zero_rec) f h ≡ none
unfolding cached hit
cleared zero f h = refl
cleared (suc n) f h = cleared n f h

Timed-cleared : (n : ℕ) → Timed (replicate n zero_rec)
Timed-cleared zero = tt
Timed-cleared (suc n) = (omega arith, Timed-cleared n)

Distinct-cleared : (n : ℕ) → Distinct (replicate n zero_rec)
Distinct-cleared zero = tt
Distinct-cleared (suc n) = (λ u. absurd (omega arith), Distinct-cleared n)

-- After `step_cache_clear` the cache is valid and no key is cached.
pub clear-IsValid :
    (depth : ℕ) (c : Cache)
    → IsValid depth (clear depth c) × ((f h : ℕ) → cached (clear depth c).recs f h ≡ none)
unfolding clear
clear-IsValid depth c = (
  record {
    sized = length-replicate depth zero_rec;
    timed = Timed-cleared depth;
    distinct = Distinct-cleared depth;
  },
  cleared depth,
)

-- The loop of a check keeps the bounds on the times and the keys distinct.
check_loop-keeps :
    (f h now : ℕ) (rs : List Rec) {v : ℕ} {rs' : List Rec}
    → 0 < now
    → now < int64_max
    → Timed rs
    → Distinct rs
    → check_loop f h now rs ≡ some (v, rs')
    → Timed rs' × Distinct rs'
unfolding check_loop
check_loop-keeps f h now [] p l t d e = cc
check_loop-keeps f h now (r ∷ rs) {v} {rs'} p l t d e = elim (Bool-cases (hit f h r)) [
  | inl y ↦
      let q : rs' ≡ record r { last_used = now } ∷ rs = ground arith in
      rw q ((l, t.1), ((λ _. d.0 (hit-used f h r y)), d.1))
  | inr n ↦ elim (check_loop-cached f h now rs p) [
    | inl (m, _) ↦ absurd (ground arith)
    | inr (w, rest, m, _, same, _) ↦
        let q : rs' ≡ r ∷ rest = ground arith in
        let (t', d') = check_loop-keeps f h now rs p l t.1 d.1 m in
        rw q ((t.0, t'), ((λ u. same r.input r.handle ∙ d.0 u), d'))
  ]
]

-- A check of a valid and coherent cache, at a time after 0 and below the largest `int64_t`, keeps
-- it valid and coherent; it returns 1 and the right result, or 0 if the key is not cached.
pub check-IsValid :
    (g : ℕ → ℕ → ℕ) (depth : ℕ) (c : Cache) (f h now : ℕ)
    → 0 < now
    → now < int64_max
    → IsValid depth c
    → Coherent g c
    → let (match, result, c') = check c f h now in
      IsValid depth c'
      × Coherent g c'
      × (((match ≡ 1) × (result ≡ g f h)) ⊎ ((match ≡ 0) × (cached c'.recs f h ≡ none)))
unfolding check
check-IsValid g depth c f h now p l v k = elim (check_loop-cached f h now c.recs p) [
  | inl (m, none_at) ↦
      rw (m, check)
        (record { sized = v.sized; timed = v.timed; distinct = v.distinct }, k, inr (refl, none_at))
  | inr (w, rs, m, at, same, len) ↦
      let (t, d) = check_loop-keeps f h now c.recs p l v.timed v.distinct m in
      rw (m, check)
        (
          record { sized = len ∙ v.sized; timed = t; distinct = d },
          λ f' h' x e. k f' h' x (rw (← same f' h') e),
          inl (refl, k f h w at),
        )
]

-- Storing the right result, of 32 bits, of a key that is not cached in a valid and coherent cache of
-- at least one record, at a time after 0 and below the largest `int64_t`, succeeds and keeps the
-- cache valid and coherent.
pub add-IsValid :
    (g : ℕ → ℕ → ℕ) (depth : ℕ) (c : Cache) (f h now : ℕ)
    → 0 < now
    → now < int64_max
    → 0 < depth
    → g f h < 2 ^ 32
    → IsValid depth c
    → Coherent g c
    → cached c.recs f h ≡ none
    → (c' : Cache) × (add c f h (g f h) now ≡ some c') × IsValid depth c' × Coherent g c'
add-IsValid g depth c f h now p l n b v k miss =
    let pos : 0 < length c.recs = omega (arith, v.sized) in
    let (old, c', run, _, law, d) = cached-add c f h (g f h) now p pos v.timed v.distinct miss in
    let (j, _, c₁, run₁, _, _, recs₁) = add_replaces c f h (g f h) now pos v.timed in
    let recs : c'.recs ≡ set c.recs j (entry_of f h (g f h) now) =
      same_recs c' c₁ run run₁ ∙ recs₁ in
    (
      c',
      run,
      record {
        sized = rw recs (length-set c.recs j _ ∙ v.sized);
        timed = rw recs (Timed-set c.recs j _ v.timed l);
        distinct = d;
      },
      λ f' h' x e. right f' h' x old (cached c'.recs f' h') (law f' h') e,
    )
  where
    same_recs :
        (a b : Cache)
        → add c f h (g f h) now ≡ some a
        → add c f h (g f h) now ≡ some b
        → a.recs ≡ b.recs
    same_recs a b e e' = let q : a ≡ b = ground arith in ap (λ (x : Cache). x.recs) q

    right :
        (f' h' x : ℕ) (old : Rec) (m : Option ℕ)
        → m ≡ (
            if (f == f') && (h == h')
            then some (g f h % 2 ^ 32)
            else (if hit f' h' old then none else cached c.recs f' h'))
        → m ≡ some x
        → x ≡ g f' h'
    right f' h' x old m e e' = ground (arith, k f' h' x)

-- The loop of a check keeps the number of records and the bounds on their times.
check_loop-Timed :
    (f h now : ℕ) (rs : List Rec)
    → now < int64_max
    → Timed rs
    → (check_loop f h now rs ≡ none)
      ⊎ ((v : ℕ) × (rs' : List Rec) × (check_loop f h now rs ≡ some (v, rs'))
          × Timed rs'
          × (length rs' ≡ length rs))
unfolding check_loop
check_loop-Timed f h now [] l t = inl refl
check_loop-Timed f h now (r ∷ rs) l t = elim (Bool-cases (hit f h r)) [
  | inl y ↦ inr (r.result, record r { last_used = now } ∷ rs, rw (y, check_loop), (l, t.1), refl)
  | inr n ↦ elim (check_loop-Timed f h now rs l t.1) [
    | inl m ↦ inl (rw (n, check_loop, m))
    | inr (v, rs', m, t', len) ↦ inr (v, r ∷ rs', rw (n, check_loop, m), (t.0, t'), ap suc len)
  ]
]

-- What keeps `step_cache_add` from a fault: the records are `depth` in number, with times below the
-- largest `int64_t`.
pub record IsTimed (depth : ℕ) (c : Cache) : Type 0 where
  pub sized : length c.recs ≡ depth
  pub timed : Timed c.recs

pub check-IsTimed :
    (depth : ℕ) (c : Cache) (f h now : ℕ)
    → now < int64_max
    → IsTimed depth c
    → IsTimed depth (check c f h now).2
unfolding check
check-IsTimed depth c f h now l v = elim (check_loop-Timed f h now c.recs l v.timed) [
  | inl m ↦ rw (m, check) (record { sized = v.sized; timed = v.timed })
  | inr (_, rs, m, t, len) ↦ rw (m, check) (record { sized = len ∙ v.sized; timed = t })
]

pub add-IsTimed :
    (depth : ℕ) (c : Cache) (f h v now : ℕ)
    → now < int64_max
    → 0 < depth
    → IsTimed depth c
    → (c' : Cache) × (add c f h v now ≡ some c') × IsTimed depth c'
add-IsTimed depth c f h v now l deep t =
    let (j, _, c', run, _, _, recs) = add_replaces c f h v now (omega (arith, t.sized)) t.timed in
    (
      c',
      run,
      record {
        sized = rw recs (length-set c.recs j _ ∙ t.sized);
        timed = rw recs (Timed-set c.recs j _ t.timed l);
      },
    )
