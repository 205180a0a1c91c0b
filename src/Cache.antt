-- ===== src/Cache.antt =====
-- The filter match cache: include/step/cache.h and src/cache.c. The value that `k_uptime_get`
-- returns is the argument `now` of the operations that call it.
pub mod Lru
pub mod Map
pub mod Insert
pub mod Valid
pub mod Counts
use step.Common.{
  ℕ, zero, suc, ◌+◌, ◌-◌, ◌^◌, ◌%◌, ltb, ◌==◌, Bool, true, false, not, ◌&&◌, Option, none, some,
  ◌>>=◌, List, [], ◌∷◌, length, get_elem?, set, replicate,
}

-- `struct step_cache_rec`; `last_used` is 0 for an empty record.
pub record Rec : Type 0 where
  pub input : ℕ
  pub handle : ℕ
  pub result : ℕ
  pub last_used : ℕ

-- `struct step_cache_stats`
pub record Stats : Type 0 where
  pub clear_calls : ℕ
  pub check_calls : ℕ
  pub add_calls : ℕ
  pub matches : ℕ
  pub removals : ℕ

-- `step_cache_recs` and `step_cache_stats_inst`
pub record Cache : Type 0 where
  pub recs : List Rec
  pub stats : Stats

-- `x++` of a `uint32_t`
abbrev pub incr32 : ℕ → ℕ
incr32 x = (x + 1) % 2 ^ 32

-- A record of zero bytes.
abbrev pub zero_rec : Rec
zero_rec = record { input = 0; handle = 0; result = 0; last_used = 0 }

-- `step_cache_clear`, for a cache of `depth` records
unfoldable pub clear : ℕ → Cache → Cache
clear depth c = record {
  recs = replicate depth zero_rec;
  stats = let s = c.stats in record s { clear_calls = incr32 s.clear_calls };
}

-- The condition of the loop of `step_cache_check`.
unfoldable pub hit : ℕ → ℕ → Rec → Bool
hit filter handle r = not (r.last_used == 0) && (r.input == filter) && (r.handle == handle)

-- The loop of `step_cache_check`: on a hit the cached result, and the array with its time updated.
unfoldable pub check_loop : ℕ → ℕ → ℕ → List Rec → Option (ℕ × List Rec)
check_loop filter handle now [] = none
check_loop filter handle now (r ∷ rs) = elim (hit filter handle r) [
  | true ↦ some (r.result, record r { last_used = now } ∷ rs)
  | false ↦ elim (check_loop filter handle now rs) [
    | none ↦ none
    | some (v, rs') ↦ some (v, r ∷ rs')
  ]
]

-- `step_cache_check`: the return value, `*result` and the cache.
unfoldable pub check : Cache → ℕ → ℕ → ℕ → ℕ × ℕ × Cache
check c filter handle now =
    let s = c.stats in
    let s' = record s { check_calls = incr32 s.check_calls } in
    elim (check_loop filter handle now c.recs) [
      | none ↦ (0, 0, record c { stats = s' })
      | some (v, rs) ↦
          (1, v, record { recs = rs; stats = record s' { matches = incr32 s.matches } })
    ]

-- The first loop of `step_cache_add`: the first empty slot, from index `i`.
unfoldable pub free_slot : ℕ → List Rec → Option ℕ
free_slot i [] = none
free_slot i (r ∷ rs) = elim (r.last_used == 0) [ true ↦ some i | false ↦ free_slot (suc i) rs ]

-- The second loop: the least time and its slot; `none` for the initial `free = -1`.
unfoldable pub oldest_slot : ℕ → ℕ → Option ℕ → List Rec → Option ℕ
oldest_slot i oldest free [] = free
oldest_slot i oldest free (r ∷ rs) = elim (ltb r.last_used oldest) [
  | true ↦ oldest_slot (suc i) r.last_used (some i) rs
  | false ↦ oldest_slot (suc i) oldest free rs
]

-- 0x7FFFFFFFFFFFFFFF
abbrev pub int64_max : ℕ
int64_max = 2 ^ 63 - 1

-- The record that `step_cache_add` stores: its label `insert`.
abbrev pub entry_of : ℕ → ℕ → ℕ → ℕ → Rec
entry_of filter handle result now = record {
  input = filter;
  handle = handle;
  result = result % 2 ^ 32;
  last_used = now;
}

-- `step_cache_add`. The result `none` is the fault of a write to `step_cache_recs[-1]`; else it
-- returns 0.
unfoldable pub add : Cache → ℕ → ℕ → ℕ → ℕ → Option Cache
add c filter handle result now =
    let s = c.stats in
    let entry = entry_of filter handle result now in
    let s' = record s { add_calls = incr32 s.add_calls } in
    elim (free_slot 0 c.recs) [
      | some i ↦ some (record { recs = set c.recs i entry; stats = s' })
      | none ↦ elim (oldest_slot 0 int64_max none c.recs) [
        | some i ↦ some (record { recs = set (set c.recs i zero_rec) i entry; stats = s' })
        | none ↦ none
      ]
    ]
