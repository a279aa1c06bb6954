-- ===== src/Kafka/Consumer/Stops.antt =====
-- After the shutdown or the end of the context the workers come to an end.
use stdlib_lab.Prelude.{
  ℕ, suc, ◌+◌, ◌*◌, ◌≤◌, ◌<◌, true, false, List, [], ◌∷◌, ◌++◌, some, length, ◌≡◌, ◌⊎◌, inl, inr,
  refl, arith,
}
use stdlib_lab.Kafka.Consumer.{
  Phase, head, fetching, returned, sending, System, stopping, get_elem?, goto, WorkerStep,
  all_returned,
}
use stdlib_lab.Kafka.Consumer.Workers.{total, total-set}

-- The steps that a worker has left.
abbrev left : Phase → ℕ
left returned = 0
left head = 1
left (sending m) = 2
left fetching = 3

-- A run from a state to another, with the number of the steps that workers made in it.
pub data Run (s : System) : System → ℕ → Type 0 where
  here : Run s s 0
  work : {t u : System} {k : ℕ} (i : ℕ) → Run s t k → WorkerStep i t u → Run s u (suc k)
  close :
      {t : System} {k : ℕ}
      → Run s t k
      → all_returned t.workers ≡ true
      → Run s (record t { closed = true }) k
  take :
      {t : System} {k : ℕ} (m : ℕ) (rest : List ℕ)
      → Run s t k
      → t.buffer ≡ m ∷ rest
      → Run s (record t { buffer = rest; received = t.received ++ (m ∷ []) }) k
  shut_down : {t : System} {k : ℕ} → Run s t k → Run s (record t { shutdown = true }) k
  cancel : {t : System} {k : ℕ} → Run s t k → Run s (record t { cancelled = true }) k

WorkerStep-left :
    {i : ℕ} {s t : System}
    → WorkerStep i s t
    → stopping s ≡ true
    → (stopping t ≡ true) × (total left t.workers < total left s.workers)
WorkerStep-left {i} (WorkerStep.stop s at h) stop =
    (stop, omega (arith, total-set left s.workers i head returned at))
WorkerStep-left {i} (WorkerStep.fetch s at h) stop = cc
WorkerStep-left {i} (WorkerStep.message s m at) stop =
    (stop, omega (arith, total-set left s.workers i fetching (sending m) at))
WorkerStep-left {i} (WorkerStep.fetch_failed s at) stop =
    (stop, omega (arith, total-set left s.workers i fetching head at))
WorkerStep-left {i} (WorkerStep.fetch_cancelled s at) stop =
    (stop, omega (arith, total-set left s.workers i fetching returned at))
WorkerStep-left {i} (WorkerStep.send s m at room) stop =
    (stop, omega (arith, total-set left s.workers i (sending m) head at))
WorkerStep-left {i} (WorkerStep.give_up s m at h) stop =
    (stop, omega (arith, total-set left s.workers i (sending m) returned at))

Run-left :
    {s t : System} {k : ℕ}
    → Run s t k
    → stopping s ≡ true
    → (stopping t ≡ true) × (k + total left t.workers ≤ total left s.workers)
Run-left Run.here h = (h, omega arith)
Run-left (Run.work i r st) h =
    let (stop, bound) = Run-left r h in
    let (still, less) = WorkerStep-left st stop in (still, omega arith)
Run-left (Run.close r done) h = Run-left r h
Run-left (Run.take m rest r found) h = Run-left r h
Run-left (Run.shut_down r) h = let (stop, bound) = Run-left r h in (refl, bound)
Run-left (Run.cancel r) h = let (stop, bound) = Run-left r h in (ground arith, bound)

total-left-le : (ps : List Phase) → total left ps ≤ 3 * length ps
total-left-le [] = omega arith
total-left-le (head ∷ ps) = omega (arith, total-left-le ps)
total-left-le (fetching ∷ ps) = omega (arith, total-left-le ps)
total-left-le (returned ∷ ps) = omega (arith, total-left-le ps)
total-left-le (sending m ∷ ps) = omega (arith, total-left-le ps)

-- A worker that has not returned, and where it is.
busy_worker :
    (ps : List Phase)
    → (all_returned ps ≡ true)
      ⊎ ((i : ℕ) × (p : Phase) × (get_elem? ps i ≡ some p) × (all_returned (p ∷ []) ≡ false))
busy_worker [] = inl refl
busy_worker (head ∷ ps) = inr (0, head, refl, refl)
busy_worker (fetching ∷ ps) = inr (0, fetching, refl, refl)
busy_worker (sending m ∷ ps) = inr (0, sending m, refl, refl)
busy_worker (returned ∷ ps) = elim (busy_worker ps) [
  | inl done ↦ inl done
  | inr (i, p, at, busy) ↦ inr (suc i, p, at, busy)
]

can_step :
    (s : System) (i : ℕ) (p : Phase)
    → stopping s ≡ true
    → get_elem? s.workers i ≡ some p
    → all_returned (p ∷ []) ≡ false
    → (t : System) × WorkerStep i s t
can_step s i head h at busy = (goto s i returned, WorkerStep.stop s at h)
can_step s i fetching h at busy = (goto s i head, WorkerStep.fetch_failed s at)
can_step s i (sending m) h at busy =
    (goto (record s { dropped = s.dropped ++ (m ∷ []) }) i returned, WorkerStep.give_up s m at h)
can_step s i returned h at busy = cc

-- Once the shutdown is signalled or the context is done, in every order of the steps, the workers make
-- at most three more steps for each worker; and until all have returned one of them can make a step.
pub workers_stop :
    {s t : System} {k : ℕ}
    → stopping s ≡ true
    → Run s t k
    → (k ≤ 3 * length s.workers)
      × ((all_returned t.workers ≡ true) ⊎ ((i : ℕ) × (u : System) × WorkerStep i t u))
workers_stop {s} {t} h r =
    let (still, bound) = Run-left r h in
    (
      omega (arith, total-left-le s.workers),
      elim (busy_worker t.workers) [
        | inl done ↦ inl done
        | inr (i, p, at, busy) ↦ let (u, st) = can_step t i p still at busy in inr (i, u, st)
      ],
    )
