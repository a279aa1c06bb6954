-- ===== src/Kafka/Consumer/Closing.antt =====
-- The output channel is closed only after its last send.
use stdlib_lab.Prelude.{ℕ, true, false, some, ◌≡◌, ◌≢◌, inl, inr, Bool-cases, refl, sym, ◌∙◌}
use stdlib_lab.Kafka.Consumer.{
  Phase, head, fetching, returned, sending, System, get_elem?, WorkerStep, Step, Reached,
  consume_parallel, all_returned,
}
use stdlib_lab.Kafka.Consumer.Workers.{get_elem?-all_returned}

-- The place that a worker's step starts from.
from_phase :
    {i : ℕ} {s t : System}
    → WorkerStep i s t
    → (p : Phase) × (get_elem? s.workers i ≡ some p) × (p ≢ returned)
from_phase (WorkerStep.stop s at h) = (head, at, λ e. cc)
from_phase (WorkerStep.fetch s at h) = (head, at, λ e. cc)
from_phase (WorkerStep.message s m at) = (fetching, at, λ e. cc)
from_phase (WorkerStep.fetch_failed s at) = (fetching, at, λ e. cc)
from_phase (WorkerStep.fetch_cancelled s at) = (fetching, at, λ e. cc)
from_phase (WorkerStep.send s m at room) = (sending m, at, λ e. cc)
from_phase (WorkerStep.give_up s m at h) = (sending m, at, λ e. cc)

closed_same : {i : ℕ} {s t : System} → WorkerStep i s t → t.closed ≡ s.closed
closed_same (WorkerStep.stop s at h) = refl
closed_same (WorkerStep.fetch s at h) = refl
closed_same (WorkerStep.message s m at) = refl
closed_same (WorkerStep.fetch_failed s at) = refl
closed_same (WorkerStep.fetch_cancelled s at) = refl
closed_same (WorkerStep.send s m at room) = refl
closed_same (WorkerStep.give_up s m at h) = refl

not_after_return : {i : ℕ} {s t : System} → WorkerStep i s t → all_returned s.workers ≡ true → ⊥
not_after_return {i} {s} st h =
    let (p, at, busy) = from_phase st in busy (get_elem?-all_returned s.workers i h at)

-- `closed ≡ true` only with every worker returned.
closed_late : {n : ℕ} {s : System} → Reached n s → s.closed ≡ true → all_returned s.workers ≡ true
unfolding consume_parallel
closed_late Reached.start e = cc
closed_late (Reached.next r (Step.by_worker i st)) e =
    absurd (not_after_return st (closed_late r (sym (closed_same st) ∙ e)))
closed_late (Reached.next r (Step.close s h)) e = h
closed_late (Reached.next r (Step.take s m rest found)) e = closed_late r e
closed_late (Reached.next r (Step.shut_down s)) e = closed_late r e
closed_late (Reached.next r (Step.cancel s)) e = closed_late r e

-- In every order of the steps, a worker that makes a step, the send included, finds the output channel
-- open, and leaves it open.
pub closes_last :
    {n i : ℕ} {s t : System}
    → Reached n s
    → WorkerStep i s t
    → (s.closed ≡ false) × (t.closed ≡ false)
closes_last {s = s} r st = (open_before, closed_same st ∙ open_before)
  where
    open_before : s.closed ≡ false
    open_before = elim (Bool-cases s.closed) [
      | inl shut ↦ absurd (not_after_return st (closed_late r shut))
      | inr ready ↦ ready
    ]
