-- ===== src/Tests/Samples.antt =====
-- A small platform, a node and a filter chain for the tests.
use step.Common.{
  ℕ, ◌+◌, ◌≡◌, refl, ap, true, false, none, some, List, [], ◌∷◌, ◌++◌, pos, ok, ◌==◌, if◌then◌else◌,
  All, ◌≢◌, ==_iff, Bool-cases, inl, inr,
}
use step.Measurement.{Header}
use step.Filter.{Filter, FilterChain, op_is, op_and_not}
use step.Platform.{Platform, Slist}
use step.Node.{Node, Chain, Callbacks}
use step.Cache.{Cache}
use step.SamplePool.{Pool, zero_header}
use step.ProcMgr.{Config, Manager}

-- Memory for one measurement, and a count of the calls of handlers.
pub record World : Type 0 where
  pub header : Header
  pub calls : ℕ

-- Twelve bytes of payload, of the type 0x24.
abbrev pub sample_header : Header
sample_header =
    let f = zero_header.filter in
    let s = zero_header.srclen in
    record zero_header { filter = record f { base_type = 0x24 }; srclen = record s { len = 12 } }

abbrev pub world : World
world = record { header = sample_header; calls = 0 }

-- A heap with one block, at the address 64, and a clock that stands at 5.
abbrev pub platform : Platform World
platform = record {
  header = λ mes w. w.header;
  set_header = λ mes h w. record w { header = h };
  set_payload = λ mes p w. w;
  free_after_use = λ mes w. true;
  set_free_after_use = λ mes w. w;
  zero_bytes = λ p n w. w;
  uptime = λ w. (5, w);
  heap_alloc = λ n w. (some 64, w);
  heap_free = λ mes w. w;
  callback_alloc = λ w. some w;
  submit = λ mes w. (ok, w);
}

-- `insert` on lists.
abbrev pub insert_after : List ℕ → ℕ → ℕ → List ℕ
insert_after [] p x = []
insert_after (y ∷ ys) p x = if y == p then y ∷ x ∷ ys else y ∷ insert_after ys p x

pub insert_after_lem :
    (xs ys : List ℕ) (p x : ℕ)
    → All (λ y. y ≢ p) xs
    → insert_after (xs ++ p ∷ ys) p x ≡ xs ++ p ∷ x ∷ ys
insert_after_lem [] ys p x a = rw ((==_iff p p).1 refl) refl
insert_after_lem (y ∷ xs) ys p x a = elim (Bool-cases (y == p)) [
  | inl e ↦ absurd (a.0 ((==_iff y p).0 e))
  | inr n ↦ rw n (ap (λ l. y ∷ l) (insert_after_lem xs ys p x a.1))
]

abbrev pub slist : Slist ℕ
slist = record {
  prepend = λ l x. x ∷ l;
  append = λ l x. l ++ x ∷ [];
  insert = insert_after;
  prepend_lem = λ l x. refl;
  append_lem = λ l x. refl;
  insert_lem = insert_after_lem;
}

-- The type 0x24, and not the filter word 0x124.
abbrev pub type_filter : Filter
type_filter = record { op = op_is; match = 0x24; ignore_mask = 0xFFFFFF00 }

abbrev pub word_filter : Filter
word_filter = record { op = op_and_not; match = 0x124; ignore_mask = 0 }

abbrev pub filters : FilterChain
filters = record { count = 2; chain = some (type_filter ∷ word_filter ∷ []) }

-- A node that counts the executions.
abbrev pub callbacks : Callbacks World
callbacks = record {
  init_handler = none;
  evaluate_handler = none;
  matched_handler = none;
  start_handler = none;
  exec_handler = some (λ mes handle inst w. (ok, record w { calls = w.calls + 1 }));
  stop_handler = none;
  error_handler = some (λ mes handle inst rc w. w);
}

abbrev pub node : Node World
node = record { name = none; filters = filters; callbacks = callbacks; config = 0 }

abbrev pub chain : Chain World
chain = record { first = node; next = [] }

abbrev pub config : Config
config = record { node_limit = 2; filter_cache = true; cache_depth = 2 }

abbrev pub no_cache : Cache
no_cache = record {
  recs = [];
  stats = record { clear_calls = 0; check_calls = 0; add_calls = 0; matches = 0; removals = 0 };
}

abbrev pub pool : Pool
pool = record {
  stats = record {
    bytes_alloc = pos 0;
    bytes_alloc_total = 0;
    pool_free_calls = 0;
    bytes_freed_total = 0;
    pool_alloc_calls = 0;
  };
  alloc_mtx = 0;
}

-- The manager before the first call.
abbrev pub manager : Manager World
manager = record {
  wqueue_started = false;
  wqueue_starts = 0;
  nodes = [];
  handle_counter = 0;
  slist = [];
  cache = no_cache;
  reg_access = 0;
}
