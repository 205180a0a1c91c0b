-- ===== src/SamplePool/Ledger.antt =====
-- The byte count of src/sample_pool.c against the measurements that are allocated.
use step.Common.{ℕ, ◌+◌, ◌≡◌, none, some, List, [], ◌∷◌, ◌++◌, pos}
use step.Platform.{Platform}
use step.SamplePool.{Pool, charge, free, alloc, bytes_alloc}

-- The charges of a list of measurements, each an address and a payload length.
unfoldable pub total : ℕ → List (ℕ × ℕ) → ℕ
total s [] = 0
total s ((mes, n) ∷ l) = charge s n + total s l

module _ {W : Type 0} (plat : Platform W) (s : ℕ) where
  -- What happens to the pool, the memory and the list of the measurements in use: allocations that
  -- succeed or fail, a release of any measurement in use that still has its length, and whatever
  -- else the program does to the memory.
  pub data Step : Pool × W × List (ℕ × ℕ) → Pool × W × List (ℕ × ℕ) → Type 0 where
    allocates :
        (sz mes : ℕ) (p p' : Pool) (w w' : W) (l : List (ℕ × ℕ))
        → alloc plat s sz (p, w) ≡ (some mes, p', w')
        → Step (p, w, l) (p', w', (mes, sz) ∷ l)
    fails :
        (sz : ℕ) (p p' : Pool) (w w' : W) (l : List (ℕ × ℕ))
        → alloc plat s sz (p, w) ≡ (none, p', w')
        → Step (p, w, l) (p', w', l)
    frees :
        (mes n : ℕ) (p p' : Pool) (w w' : W) (xs ys : List (ℕ × ℕ))
        → (plat.header mes w).srclen.len ≡ n
        → free plat s mes (p, w) ≡ some (p', w')
        → Step (p, w, xs ++ (mes, n) ∷ ys) (p', w', xs ++ ys)
    works : (p : Pool) (w w' : W) (l : List (ℕ × ℕ)) → Step (p, w, l) (p, w', l)

  pub data Run (a : Pool × W × List (ℕ × ℕ)) : Pool × W × List (ℕ × ℕ) → Type 0 where
    start : Run a a
    then_step : {b c : Pool × W × List (ℕ × ℕ)} → Run a b → Step b c → Run a c

  -- The count is the charge of the measurements in use.
  abbrev pub Counts : Pool × W × List (ℕ × ℕ) → Type 0
  Counts a = bytes_alloc a.0 ≡ pos (total s a.2)
