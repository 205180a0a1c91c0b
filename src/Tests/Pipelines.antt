-- ===== src/Tests/Pipelines.antt =====
-- Tests of the pipeline with its work queue, and of the throughput sample.
use step.Common.{
  ℕ, suc, ◌+◌, ◌≤◌, ◌≡◌, ◌≢◌, refl, ap, Bool, true, false, none, some, Option, List, [], ◌∷◌, ◌++◌,
  ℤ, pos, ok, ◌==◌, ltb, leb, ◌&&◌, ◌^◌, ◌⊎◌, ==_iff, if◌then◌else◌, All, Bool-cases, inl, inr,
  subst, arith,
}
use step.Measurement.{Header}
use step.Node.{Node, Chain, nodes_of, NodeHandler, ErrorHandler}
use step.Platform.{Platform, SlistTail}
use step.Cache
use step.SamplePool
use step.SamplePool.{Pool, zero_header, set_up}
use step.ProcMgr.{NodeSub, NodeRecord, System, put, zero_record}
use step.ProcMgr.Register.{new_record}
use step.ProcMgr.Frame.{NodeKeeps, RecordKeeps, AllKeep}
use step.Pipeline.{Apart, InfosSame, WorkQueue, Same, Separate, Progress, Run, start}
use step.Pipeline.Infos.{Same-refl}
use step.Pipeline.Balance.Runs.{begin}
use step.Tests.Samples.{filters, config, no_cache, pool}

-- A memory for measurements anywhere, and the queue.
pub record QueueWorld : Type 0 where
  pub headers : ℕ → Header
  pub flags : ℕ → Bool
  pub queue : List ℕ

unfoldable pub sum_of : List ℕ → ℕ
sum_of [] = 0
sum_of (x ∷ l) = x + sum_of l

pub below_sum : (l : List ℕ) (k : ℕ) → sum_of l ≤ k → Apart (suc k) l
unfolding sum_of
below_sum [] k h = tt
below_sum (x ∷ l) k h = (λ e. absurd (omega (arith, e)), below_sum l k (omega arith))

unfoldable pub behind : List ℕ → List ℕ
behind [] = []
behind (x ∷ l) = l

abbrev write : {A : Type 0} → (ℕ → A) → ℕ → A → ℕ → A
write f m a x = if x == m then a else f x

-- The heap hands out up to 1000 bytes, at an address that is not in the queue.
abbrev pub platform : Platform QueueWorld
platform = record {
  header = λ mes w. w.headers mes;
  set_header = λ mes h w. record w { headers = write w.headers mes h };
  set_payload = λ mes p w. w;
  free_after_use = λ mes w. w.flags mes;
  set_free_after_use = λ mes w. record w { flags = write w.flags mes true };
  zero_bytes = λ p n w. record w {
    headers = λ a. if leb p a && ltb a (p + n) then zero_header else w.headers a;
  };
  uptime = λ w. (5, w);
  heap_alloc = λ n w. ((if ltb n 1000 then some (suc (sum_of w.queue)) else none), w);
  heap_free = λ mes w. w;
  callback_alloc = λ w. some w;
  submit = λ mes w. (pos 1, record w { queue = w.queue ++ mes ∷ [] });
}

pub same_infos :
    (l : List ℕ) (w w' : QueueWorld)
    → w'.headers ≡ w.headers
    → w'.flags ≡ w.flags
    → InfosSame platform l w w'
same_infos [] w w' h f = tt
same_infos (m ∷ l) w w' h f = (λ i. ((h i m).srclen.len, f i m), same_infos l w w' h f)

written : {A : Type 0} (f : ℕ → A) (m x : ℕ) (a : A) → x ≢ m → write f m a x ≡ f x
written f m x a d = elim (Bool-cases (x == m)) [
  | inl e ↦ absurd (d ((==_iff x m).0 e))
  | inr e ↦ rw e refl
]

written_at : {A : Type 0} (f : ℕ → A) (m : ℕ) (a : A) → write f m a m ≡ a
written_at f m a = rw ((==_iff m m).1 refl) refl

header_infos :
    (m : ℕ) (h : Header) (l : List ℕ) (w : QueueWorld)
    → Apart m l
    → InfosSame platform l w (platform.set_header m h w)
header_infos m h [] w a = tt
header_infos m h (x ∷ l) w (d, a) =
    (λ i. ((written w.headers m x h d i).srclen.len, w.flags x), header_infos m h l w a)

flag_infos :
    (m : ℕ) (l : List ℕ) (w : QueueWorld)
    → Apart m l
    → InfosSame platform l w (platform.set_free_after_use m w)
flag_infos m [] w a = tt
flag_infos m (x ∷ l) w (d, a) =
    (λ i. ((w.headers x).srclen.len, written w.flags m x true d i), flag_infos m l w a)

-- The bytes that are set to 0 lie before or behind each of the measurements.
zeroed_infos :
    (p n : ℕ) (l : List ℕ) (w : QueueWorld)
    → All (λ m. (p + n ≤ m) ⊎ (m + 24 ≤ p)) l
    → InfosSame platform l w (platform.zero_bytes p n w)
zeroed_infos p n [] w out = tt
zeroed_infos p n (m ∷ l) w (o, out) =
    let no : (leb p m && ltb m (p + n)) ≡ false = elim o [
      | inl h ↦ ground (arith, h)
      | inr h ↦ ground (arith, h)
    ] in
    (rw no refl, zeroed_infos p n l w out)

unfoldable pub queue : WorkQueue QueueWorld platform
unfolding behind
queue = record {
  pool_start = 0;
  pool_end = 2 ^ 16;
  mes_sz = 24;
  pending = λ w. w.queue;
  take = λ w. record w { queue = behind w.queue };
  pending-take = λ m l w e. ap behind e;
  pending-submit = λ m n w a e. refl;
  pending-refused = λ m n w e. absurd (cc);
  take-InfosSame = λ l w. same_infos l w (record w { queue = behind w.queue }) refl refl;
  submit-InfosSame = λ m l w. same_infos l w (record w { queue = w.queue ++ m ∷ [] }) refl refl;
}

pub separate : Separate platform queue
unfolding queue
separate = record {
  set_header-Same = λ m h l w a. record { infos = header_infos m h l w a; pending = refl };
  set_payload-Same = λ m p l w. Same-refl platform queue l w;
  zero_bytes-Same =
      λ p n l w (low, high, out). record { infos = zeroed_infos p n l w out; pending = refl };
  set_free_after_use-Same = λ m l w a. record { infos = flag_infos m l w a; pending = refl };
  heap_alloc-Same = λ n l w. Same-refl platform queue l w;
  heap_free-Same = λ m l w a. Same-refl platform queue l w;
  uptime-Same = λ l w. Same-refl platform queue l w;
  header-set_header = λ m h w. written_at w.headers m h;
  header-set_free_after_use = λ m w. refl;
  free_after_use-set = λ m w. written_at w.flags m true;
}

-- A node that selects by the filters of the tests, and has nothing to do.
abbrev exec : NodeHandler QueueWorld
exec mes handle inst w = (ok, w)

abbrev error : ErrorHandler QueueWorld
error mes handle inst rc w = w

abbrev node : Node QueueWorld
node = record {
  name = none;
  filters = filters;
  callbacks = record {
    init_handler = none;
    evaluate_handler = none;
    matched_handler = none;
    start_handler = none;
    exec_handler = some exec;
    stop_handler = none;
    error_handler = some error;
  };
  config = 0;
}

abbrev chain : Chain QueueWorld
chain = record { first = node; next = [] }

abbrev pub nodes : List (NodeRecord QueueWorld)
nodes = new_record (some chain) 0 0 ∷ zero_record ∷ []

-- What holds of a value holds of the one that a pointer is found to have.
pub found {ℓ} : {A : Type ℓ} (P : A → Type 0) (a b : A) → some a ≡ some b → P a → P b
found {A} P a b e p = subst (λ (o : Option A). elim o [ none ↦ P a | some x ↦ P x ]) e p

abbrev Keeps : List ℕ → QueueWorld → QueueWorld → Type 0
Keeps l = Same platform queue l

node-Keeps : (l : List ℕ) → NodeKeeps (Keeps l) node
node-Keeps l = record {
  evaluate = λ f e. absurd (cc);
  matched = λ f e. absurd (cc);
  start = λ f e. absurd (cc);
  exec = λ f e.
      found (λ g. (mes handle idx : ℕ) (w : QueueWorld) → Keeps l w (g mes handle idx w).1) exec f e
        (λ mes handle idx w. Same-refl platform queue l w);
  stop = λ f e. absurd (cc);
  error = λ f e.
      found
        (λ g.
          (mes : Option ℕ) (handle idx : ℕ) (rc : ℤ) (w : QueueWorld)
          → Keeps l w (g mes handle idx rc w))
        error f e (λ mes handle idx rc w. Same-refl platform queue l w);
}

chain-Keeps :
    (l : List ℕ) (c : Chain QueueWorld)
    → some chain ≡ some c
    → All (NodeKeeps (Keeps l)) (nodes_of c)
chain-Keeps l c e = found (λ c. All (NodeKeeps (Keeps l)) (nodes_of c)) chain c e (node-Keeps l, tt)

pub all-keep : (l : List ℕ) → AllKeep (Keeps l) nodes (0 ∷ [])
all-keep l =
    (λ r e. found (RecordKeeps (Keeps l)) (new_record (some chain) 0 0) r e (chain-Keeps l, tt), tt)

abbrev pub subscribers : SlistTail (NodeSub QueueWorld)
subscribers = record { append = λ l x. l ++ x ∷ []; append_lem = λ l x. refl }

abbrev pub system : System QueueWorld
system = record {
  pm = record {
    wqueue_started = true;
    wqueue_starts = 1;
    nodes = nodes;
    handle_counter = 1;
    slist = 0 ∷ [];
    cache = Cache.clear 2 no_cache;
    reg_access = 0;
  };
  pool = pool;
  world = record { headers = λ mes. zero_header; flags = λ mes. false; queue = [] };
}

-- One measurement is submitted.
abbrev first_alloc : Pool × QueueWorld
first_alloc = let (r, p, w) = SamplePool.alloc platform 24 12 (pool, system.world) in (p, w)

abbrev submitted : Progress QueueWorld
submitted = record {
  sys =
      (put platform subscribers (some 1)
        (record system { pool = first_alloc.0; world = first_alloc.1 })).1;
  queued = (1, 12) ∷ [];
  refused = [];
  submitted = 1 ∷ [];
  processed = [];
}

abbrev before : Progress QueueWorld
before = begin platform queue separate 24 subscribers config nodes (0 ∷ []) all-keep system

abbrev Steps : Progress QueueWorld → Progress QueueWorld → Type 0
Steps = Run platform queue 24 subscribers config

-- A payload of 1000 bytes is too much; the measurement before it is in the queue for good.
abbrev failed : Option ℕ × Pool × QueueWorld
failed = SamplePool.alloc platform 24 1000 (submitted.sys.pool, submitted.sys.world)

abbrev stuck : Progress QueueWorld
stuck =
    let s = submitted.sys in
    record submitted { sys = record s { pool = failed.1; world = failed.2 } }
