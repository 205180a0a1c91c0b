-- ===== src/SamplePool.antt =====
-- The sample pool: include/step/sample_pool.h and src/sample_pool.c.
pub mod Account
pub mod Ledger
use step.Common.{
  ◌>>=◌, ℕ, ◌+◌, ◌-◌, ◌*◌, ◌%◌, ◌^◌, ◌==◌, if◌then◌else◌, Option, none, some, ℤ, pos, ◌+ℤ◌, ◌-ℤ◌,
}
use step.Measurement.{Header, SrcLen, FilterFields, UnitFields, Flags}
use step.Platform.{Platform}

-- `struct step_sp_stats`
pub record Stats : Type 0 where
  pub bytes_alloc : ℤ
  pub bytes_alloc_total : ℕ
  pub pool_free_calls : ℕ
  pub bytes_freed_total : ℕ
  pub pool_alloc_calls : ℕ

-- `step_sp_stats_inst`, and how often `step_sp_alloc_mtx` is held.
pub record Pool : Type 0 where
  pub stats : Stats
  pub alloc_mtx : ℕ

-- Addition on a `uint32_t`.
abbrev pub add32 : ℕ → ℕ → ℕ
add32 a b = (a + b) % 2 ^ 32

abbrev pub zero_header : Header
zero_header = record {
  filter = record {
    base_type = 0;
    ext_type = 0;
    flags = record { data_format = 0; encoding = 0; compression = 0; timestamp = 0; rsvd = 0 };
  };
  unit = record { si_unit = 0; scale_factor = 0; ctype = 0 };
  srclen = record { len = 0; fragment = 0; vec_sz = 0; samples = 0; sourceid = 0 };
}

-- `k_mutex_lock` and `k_mutex_unlock` on `step_sp_alloc_mtx`
abbrev pub lock : Pool → Pool
lock p = record p { alloc_mtx = p.alloc_mtx + 1 }

abbrev pub unlock : Pool → Pool
unlock p = record p { alloc_mtx = p.alloc_mtx - 1 }

-- `k_mutex_lock` with K_FOREVER by the thread of the work queue, which waits for good while the mutex
-- is held: the thread of the application takes it and, where it keeps it, does not give it back. The
-- application itself can take a mutex that it holds once more.
unfoldable pub wait_lock : Pool → Option Pool
wait_lock p = if p.alloc_mtx == 0 then some (lock p) else none

-- The bytes that are charged for a payload of `sz` bytes: `len` of both functions. Here and below
-- `sizeof_mes` is `sizeof(struct step_measurement)`.
unfoldable pub charge : ℕ → ℕ → ℕ
charge sizeof_mes sz = sz + sizeof_mes + (8 - (sz + sizeof_mes) % 8)

-- The address `mes + sizeof(struct step_measurement)`: the pointer moves in units of `sizeof_mes`
-- bytes.
unfoldable pub payload_of : ℕ → ℕ → ℕ
payload_of sizeof_mes mes = mes + sizeof_mes * sizeof_mes

module _ {W : Type 0} (plat : Platform W) (sizeof_mes : ℕ) where
  -- `step_sp_free`, called from the thread of the work queue: none if it waits for good.
  unfoldable pub free : ℕ → Pool × W → Option (Pool × W)
  free mes (p, w) =
      let s = p.stats in
      do
        p₁ ←
            wait_lock
              (record p { stats = record s { pool_free_calls = add32 s.pool_free_calls 1 } })
        let len = charge sizeof_mes (plat.header mes w).srclen.len
        let s₁ = p₁.stats
        let p₂ = record p₁ {
          stats = record s₁ {
            bytes_alloc = s₁.bytes_alloc -ℤ pos len;
            bytes_freed_total = add32 s₁.bytes_freed_total len;
          };
        }
        some (unlock p₂, plat.heap_free mes w)

  -- The writes of `step_sp_alloc` to a new measurement.
  unfoldable pub set_up : ℕ → ℕ → W → W
  set_up mes sz w =
      let s : SrcLen = zero_header.srclen in
      let w₁ = plat.set_header mes (record zero_header { srclen = record s { len = sz } }) w in
      let payload = payload_of sizeof_mes mes in
      let w₂ =
        if sz == 0
        then plat.set_payload mes none w₁
        else plat.zero_bytes payload sz (plat.set_payload mes (some payload) w₁) in
      plat.set_free_after_use mes w₂

  -- The bookkeeping of a successful allocation.
  unfoldable pub record_alloc : ℕ → Pool → Pool
  record_alloc sz p =
      let s = p.stats in
      record p {
        stats = record s {
          bytes_alloc = s.bytes_alloc +ℤ pos (charge sizeof_mes sz);
          bytes_alloc_total = add32 s.bytes_alloc_total (charge sizeof_mes sz);
        };
      }

  -- `step_sp_alloc`: the pointer, NULL if the heap is exhausted, and the new state.
  unfoldable pub alloc : ℕ → Pool × W → Option ℕ × Pool × W
  alloc sz (p, w) =
      let s = p.stats in
      let p₁ =
        lock (record p { stats = record s { pool_alloc_calls = add32 s.pool_alloc_calls 1 } }) in
      let (r, w₁) = plat.heap_alloc (sizeof_mes + sz) w in
      elim r [
        | none ↦ (none, p₁, w₁)
        | some mes ↦ (some mes, unlock (record_alloc sz p₁), set_up mes sz w₁)
      ]

-- `step_sp_bytes_alloc`
unfoldable pub bytes_alloc : Pool → ℤ
bytes_alloc p = p.stats.bytes_alloc
