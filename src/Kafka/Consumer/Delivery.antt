-- ===== src/Kafka/Consumer/Delivery.antt =====
-- No message is lost or delivered twice: where each fetched message is, and how many are given up.
use stdlib_lab.Prelude.{
  ◌⊎◌, inl, inr, Bool-cases, ℕ, ◌+◌, ◌*◌, ◌≤◌, true, [], ◌∷◌, length, nat_eqb, if◌then◌else◌, ◌≡◌,
  arith,
}
use stdlib_lab.Kafka.Consumer.{
  Phase, head, fetching, returned, sending, System, stopping, worker_count, consume_parallel,
  WorkerStep, Step, Reached,
}
use stdlib_lab.Kafka.Consumer.Workers.{
  total, total-set, total-heads, count, count-append, length-append,
}

-- How often a worker holds the message.
abbrev pub hand : ℕ → Phase → ℕ
hand a (sending m) = if nat_eqb m a then 1 else 0
hand a head = 0
hand a fetching = 0
hand a returned = 0

abbrev active : Phase → ℕ
active returned = 0
active head = 1
active fetching = 1
active (sending m) = 1

record IsKept (n a : ℕ) (s : System) : Type 0 where
  kept :
      count a s.fetched
      ≡ count a s.received + count a s.buffer + total (hand a) s.workers + count a s.dropped
  few_dropped : length s.dropped + total active s.workers ≤ worker_count n
  none_dropped : (if stopping s then 0 else length s.dropped) ≡ 0
  capacity_fixed : s.capacity ≡ 100 * worker_count n
  in_capacity : length s.buffer ≤ s.capacity

WorkerStep-IsKept : (n a i : ℕ) {s t : System} → WorkerStep i s t → IsKept n a s → IsKept n a t
WorkerStep-IsKept n a i (WorkerStep.stop s at h) v = ground (
  arith,
  total-set (hand a) s.workers i head returned at,
  total-set active s.workers i head returned at,
)
WorkerStep-IsKept n a i (WorkerStep.fetch s at h) v = ground (
  arith,
  total-set (hand a) s.workers i head fetching at,
  total-set active s.workers i head fetching at,
)
WorkerStep-IsKept n a i (WorkerStep.message s m at) v = ground (
  arith,
  total-set (hand a) s.workers i fetching (sending m) at,
  total-set active s.workers i fetching (sending m) at,
  count-append a s.fetched (m ∷ []),
)
WorkerStep-IsKept n a i (WorkerStep.fetch_failed s at) v = ground (
  arith,
  total-set (hand a) s.workers i fetching head at,
  total-set active s.workers i fetching head at,
)
WorkerStep-IsKept n a i (WorkerStep.fetch_cancelled s at) v = ground (
  arith,
  total-set (hand a) s.workers i fetching returned at,
  total-set active s.workers i fetching returned at,
)
WorkerStep-IsKept n a i (WorkerStep.send s m at room) v = ground (
  arith,
  total-set (hand a) s.workers i (sending m) head at,
  total-set active s.workers i (sending m) head at,
  count-append a s.buffer (m ∷ []),
  length-append s.buffer (m ∷ []),
)
WorkerStep-IsKept n a i (WorkerStep.give_up s m at h) v = ground (
  arith,
  total-set (hand a) s.workers i (sending m) returned at,
  total-set active s.workers i (sending m) returned at,
  count-append a s.dropped (m ∷ []),
  length-append s.dropped (m ∷ []),
)

Reached-IsKept : (n a : ℕ) {s : System} → Reached n s → IsKept n a s
unfolding consume_parallel
Reached-IsKept n a Reached.start =
    ground (arith, total-heads (hand a) (worker_count n), total-heads active (worker_count n))
Reached-IsKept n a (Reached.next r (Step.by_worker i st)) =
    WorkerStep-IsKept n a i st (Reached-IsKept n a r)
Reached-IsKept n a (Reached.next r (Step.close s h)) = let v = Reached-IsKept n a r in ground arith
Reached-IsKept n a (Reached.next r (Step.take s m rest found)) =
    let v = Reached-IsKept n a r in ground (arith, count-append a s.received (m ∷ []))
Reached-IsKept n a (Reached.next r (Step.shut_down s)) =
    let v = Reached-IsKept n a r in ground arith
Reached-IsKept n a (Reached.next r (Step.cancel s)) = let v = Reached-IsKept n a r in ground arith

-- In every order of the steps of any number of workers: each fetched message has been received, or
-- waits in the buffer, or is held by one worker, or was given up, and as often as it was fetched;
-- the buffer keeps its capacity of 100 for each worker; and at most one message for each worker is
-- given up, and none before the shutdown or the end of the context.
pub messages_are_kept :
    (n a : ℕ) {s : System}
    → Reached n s
    → (count a s.fetched
        ≡ count a s.received + count a s.buffer + total (hand a) s.workers + count a s.dropped)
      × (length s.buffer ≤ 100 * worker_count n)
      × (length s.dropped ≤ worker_count n)
      × ((stopping s ≡ true) ⊎ (length s.dropped ≡ 0))
messages_are_kept n a {s} r =
    let v = Reached-IsKept n a r in
    (
      v.kept,
      omega (arith, v.in_capacity, v.capacity_fixed),
      omega (arith, v.few_dropped),
      given_up_late v,
    )
  where
    given_up_late : IsKept n a s → (stopping s ≡ true) ⊎ (length s.dropped ≡ 0)
    given_up_late v = elim (Bool-cases (stopping s)) [
      | inl stop ↦ inl stop
      | inr go ↦ inr (ground arith)
    ]
