-- ===== src/Kafka/Consumer.antt =====
-- kafka/utils.go: `ConsumeParallel` and its `consumeWorker` goroutines, with `GracefulShutdown` of
-- kafka/fx_module.go, as relations on what they share. The broker, which decides what a fetch gives,
-- and the reader of the output channel are steps of their own. The reader of kafka-go is set, since a
-- worker without it returns at once.
pub mod Workers
pub mod Delivery
pub mod Closing
pub mod Order
pub mod Stops
use stdlib_lab.Prelude.{
  ℕ, zero, suc, ◌*◌, ◌<◌, Bool, true, false, ◌||◌, List, [], ◌∷◌, ◌++◌, Option, none, some, length,
  ltb, if◌then◌else◌, ◌≡◌,
}

-- A message is known here by a number. A worker is in the `select` of its loop, in `FetchMessage`, in
-- the `select` that sends what it fetched, or has returned.
pub data Phase : Type 0 where
  head fetching returned : Phase
  sending : ℕ → Phase

pub record System : Type 0 where
  pub workers : List Phase
  pub capacity : ℕ
  -- `outChan`: what its buffer holds, the oldest first, and whether it is closed.
  pub buffer : List ℕ
  pub closed : Bool
  pub shutdown : Bool
  pub cancelled : Bool
  -- What the fetches have given, what the reader of the channel has taken and what workers gave up
  -- when they returned, each in the order of time.
  pub fetched : List ℕ
  pub received : List ℕ
  pub dropped : List ℕ

abbrev pub stopping : System → Bool
stopping s = s.shutdown || s.cancelled

abbrev pub get_elem? : List Phase → ℕ → Option Phase
get_elem? [] i = none
get_elem? (p ∷ ps) zero = some p
get_elem? (p ∷ ps) (suc i) = get_elem? ps i

abbrev pub set : List Phase → ℕ → Phase → List Phase
set [] i q = []
set (p ∷ ps) zero q = q ∷ ps
set (p ∷ ps) (suc i) q = p ∷ set ps i q

abbrev pub goto : System → ℕ → Phase → System
goto s i p = record s { workers = set s.workers i p }

abbrev pub heads : ℕ → List Phase
heads zero = []
heads (suc n) = head ∷ heads n

-- `numWorkers`, at least one.
abbrev pub worker_count : ℕ → ℕ
worker_count n = if ltb n 1 then 1 else n

unfoldable pub consume_parallel : ℕ → System
consume_parallel n = record {
  workers = heads (worker_count n);
  capacity = 100 * worker_count n;
  buffer = [];
  closed = false;
  shutdown = false;
  cancelled = false;
  fetched = [];
  received = [];
  dropped = [];
}

-- The steps of `consumeWorker` for the worker of the given number.
pub data WorkerStep (i : ℕ) : System → System → Type 0 where
  stop :
      (s : System)
      → get_elem? s.workers i ≡ some head
      → stopping s ≡ true
      → WorkerStep i s (goto s i returned)
  fetch :
      (s : System)
      → get_elem? s.workers i ≡ some head
      → stopping s ≡ false
      → WorkerStep i s (goto s i fetching)
  message :
      (s : System) (m : ℕ)
      → get_elem? s.workers i ≡ some fetching
      → WorkerStep i s (goto (record s { fetched = s.fetched ++ (m ∷ []) }) i (sending m))
  -- An error that the context's end does not explain is logged, and the loop goes on.
  fetch_failed :
      (s : System) → get_elem? s.workers i ≡ some fetching → WorkerStep i s (goto s i head)
  fetch_cancelled :
      (s : System) → get_elem? s.workers i ≡ some fetching → WorkerStep i s (goto s i returned)
  send :
      (s : System) (m : ℕ)
      → get_elem? s.workers i ≡ some (sending m)
      → length s.buffer < s.capacity
      → WorkerStep i s (goto (record s { buffer = s.buffer ++ (m ∷ []) }) i head)
  give_up :
      (s : System) (m : ℕ)
      → get_elem? s.workers i ≡ some (sending m)
      → stopping s ≡ true
      → WorkerStep i s (goto (record s { dropped = s.dropped ++ (m ∷ []) }) i returned)

abbrev pub all_returned : List Phase → Bool
all_returned [] = true
all_returned (returned ∷ ps) = all_returned ps
all_returned (_ ∷ ps) = false

pub data Step : System → System → Type 0 where
  by_worker : (i : ℕ) {s t : System} → WorkerStep i s t → Step s t
  -- The goroutine that waits for the workers and closes the channel.
  close : (s : System) → all_returned s.workers ≡ true → Step s (record s { closed = true })
  -- The reader of the channel takes the oldest message.
  take :
      (s : System) (m : ℕ) (rest : List ℕ)
      → s.buffer ≡ m ∷ rest
      → Step s (record s { buffer = rest; received = s.received ++ (m ∷ []) })
  shut_down : (s : System) → Step s (record s { shutdown = true })
  cancel : (s : System) → Step s (record s { cancelled = true })

pub data Reached (n : ℕ) : System → Type 0 where
  start : Reached n (consume_parallel n)
  next : {s t : System} → Reached n s → Step s t → Reached n t
