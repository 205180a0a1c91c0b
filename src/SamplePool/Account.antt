-- ===== src/SamplePool/Account.antt =====
-- The accounting, the mutex and the payload pointer of src/sample_pool.c.
use step.Common.{
  ℕ, ◌+◌, ◌-◌, ◌*◌, ◌%◌, ◌<◌, ◌≤◌, ◌≡◌, none, some, refl, pos, ◌+ℤ◌, ◌-ℤ◌, ◌==◌, ==_iff, Bool-cases,
  false, ◌⊎◌, inl, inr, Option-cases, arith,
}
use step.Platform.{Platform}
use step.Measurement.{SrcLen}
use step.SamplePool.{
  zero_header, Pool, charge, payload_of, alloc, set_up, free, wait_lock, record_alloc, bytes_alloc,
}

-- The charge covers the measurement and its payload, in whole blocks of 8 bytes, with between 1
-- and 8 bytes to spare.
charge_bounds : (s n : ℕ) → (n + s < charge s n) × (charge s n ≤ n + s + 8) × (charge s n % 8 ≡ 0)
unfolding charge
charge_bounds s n = (omega arith, omega arith, omega arith)

module _ {W : Type 0} (plat : Platform W) (s : ℕ) where
  -- An allocation gives the mutex back if it succeeds, and keeps it if the heap is exhausted; only a
  -- success changes the number of bytes allocated.
  pub alloc_outcome :
      (sz : ℕ) (p : Pool) (w : W)
      → let (r, p', _) = alloc plat s sz (p, w) in
        ((r ≡ none) × (p'.alloc_mtx ≡ p.alloc_mtx + 1) × (bytes_alloc p' ≡ bytes_alloc p))
        ⊎ ((mes : ℕ) × (r ≡ some mes)
            × (p'.alloc_mtx ≡ p.alloc_mtx)
            × (bytes_alloc p' ≡ bytes_alloc p +ℤ pos (charge s sz)))
  unfolding alloc bytes_alloc record_alloc
  alloc_outcome sz p w = elim (Option-cases (plat.heap_alloc (s + sz) w).0) [
    | inl e ↦ inl (ground (arith, e), ground (arith, e), ground (arith, e))
    | inr (mes, e) ↦ inr (mes, ground (arith, e), ground (arith, e), ground (arith, e))
  ]

  -- A release that ends: the mutex was free and is free again, and the charge is taken back.
  pub free-some :
      (mes : ℕ) (p p' : Pool) (w w' : W)
      → free plat s mes (p, w) ≡ some (p', w')
      → (p.alloc_mtx ≡ 0)
        × (p'.alloc_mtx ≡ 0)
        × (bytes_alloc p' ≡ bytes_alloc p -ℤ pos (charge s (plat.header mes w).srclen.len))
        × (w' ≡ plat.heap_free mes w)
  unfolding free wait_lock bytes_alloc
  free-some mes p p' w w' e = elim (Bool-cases (p.alloc_mtx == 0)) [
    | inl z ↦
        let none_held : p.alloc_mtx ≡ 0 = (==_iff p.alloc_mtx 0).0 z in
        (none_held, ground (arith, e, z, none_held), ground (arith, e, z), ground (arith, e, z))
    | inr nz ↦ absurd (ground (arith, e, nz))
  ]

  pub free-bytes :
      (mes : ℕ) (p p' : Pool) (w w' : W)
      → free plat s mes (p, w) ≡ some (p', w')
      → bytes_alloc p' ≡ bytes_alloc p -ℤ pos (charge s (plat.header mes w).srclen.len)
  free-bytes mes p p' w w' e = (free-some mes p p' w w' e).2

  -- While the mutex is held a release waits for good.
  pub free-waits : (mes : ℕ) (p : Pool) (w : W) → 0 < p.alloc_mtx → free plat s mes (p, w) ≡ none
  unfolding free wait_lock
  free-waits mes p w h = let held : (p.alloc_mtx == 0) ≡ false = ground (arith, h) in rw held refl

  -- A successful allocation of a payload of at least one and up to s * (s - 1) bytes, for a measurement
  -- of `s` bytes: the address that is stored as the payload pointer, and from which on `sz` bytes are
  -- set to 0, lies at or beyond the end of the block of `s + sz` bytes that was allocated.
  pub payload_outside :
      (sz mes : ℕ) (p : Pool) (w : W)
      → 1 < s
      → 0 < sz
      → sz ≤ s * (s - 1)
      → (plat.heap_alloc (s + sz) w).0 ≡ some mes
      → (let (r, p', w') = alloc plat s sz (p, w) in
          (a : ℕ) × (w₁ : W) × (r ≡ some mes)
          × (mes + (s + sz) ≤ a)
          × (w'
              ≡ plat.set_free_after_use mes
                  (plat.zero_bytes a sz (plat.set_payload mes (some a) w₁))))
  unfolding alloc set_up payload_of
  payload_outside sz mes p w h pos_sz l e =
      let some_bytes : (sz == 0) ≡ false = ground (arith, pos_sz) in
      let fresh : SrcLen = zero_header.srclen in
      (
        mes + s * s,
        plat.set_header mes (record zero_header { srclen = record fresh { len = sz } })
            (plat.heap_alloc (s + sz) w).1,
        rw (e, alloc) refl,
        grind arith,
        rw (e, some_bytes, alloc, set_up) refl,
      )
