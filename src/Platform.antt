-- ===== src/Platform.antt =====
-- What the pipeline takes from the platform, Zephyr: the memory that holds the measurements, its
-- heaps, its clock and its work queue (include/step/platform.h), and the linked lists of
-- zephyr/sys/slist.h. All of it is a parameter of the models.
use step.Common.{ℕ, ◌≡◌, ◌≢◌, Option, List, [], ◌∷◌, ◌++◌, All, ℤ, Bool}
use step.Measurement.{Header}

-- The kernel and the memory, over the states `W` of all that the pipeline and the handlers of the
-- nodes can reach. A measurement is given by its address.
pub record Platform (W : Type 0) : Type 0 where
  -- The header of the measurement at an address, and a write to it.
  pub header : ℕ → W → Header
  pub set_header : ℕ → Header → W → W
  -- Writes to the `payload` pointer and to the flag `queue.free_after_use` of a measurement, and
  -- the flag.
  pub set_payload : ℕ → Option ℕ → W → W
  pub free_after_use : ℕ → W → Bool
  pub set_free_after_use : ℕ → W → W
  -- `memset(p, 0, n)`
  pub zero_bytes : ℕ → ℕ → W → W
  -- `k_uptime_get`
  pub uptime : W → ℕ × W
  -- `k_heap_alloc` with K_NO_WAIT, and `k_heap_free`, on the sample pool's heap.
  pub heap_alloc : ℕ → W → Option ℕ × W
  pub heap_free : ℕ → W → W
  -- `k_heap_alloc` with K_NO_WAIT on the heap of the subscribers' callbacks: whether a record was
  -- allocated.
  pub callback_alloc : W → Option W
  -- `k_work_submit_to_queue`
  pub submit : ℕ → W → ℤ × W

-- The operations of a `sys_slist_t`, seen as the sequence of its nodes, and their documented
-- effects. `insert l p x` puts `x` behind the node `p`.
pub record Slist (E : Type 0) : Type 0 where
  pub prepend : List E → E → List E
  pub append : List E → E → List E
  pub insert : List E → E → E → List E
  pub prepend_lem : (l : List E) (x : E) → prepend l x ≡ x ∷ l
  pub append_lem : (l : List E) (x : E) → append l x ≡ l ++ x ∷ []
  pub insert_lem :
      (xs ys : List E) (p x : E)
      → All (λ y. y ≢ p) xs
      → insert (xs ++ p ∷ ys) p x ≡ xs ++ p ∷ x ∷ ys

-- The lists that are only appended to.
pub record SlistTail (E : Type 0) : Type 0 where
  pub append : List E → E → List E
  pub append_lem : (l : List E) (x : E) → append l x ≡ l ++ x ∷ []
