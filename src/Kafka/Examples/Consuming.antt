-- ===== src/Kafka/Examples/Consuming.antt =====
-- One worker that fetches a message, sends it and is shut down.
use stdlib_lab.Prelude.{
  ℕ, ◌+◌, ◌*◌, ◌≤◌, true, false, List, [], ◌∷◌, ◌++◌, length, ◌≡◌, ◌⊎◌, refl, arith,
}
use stdlib_lab.Kafka.Consumer.{
  System, head, fetching, sending, returned, stopping, worker_count, consume_parallel, WorkerStep,
  Step, Reached, all_returned,
}
use stdlib_lab.Kafka.Consumer.Workers.{count, total}
use stdlib_lab.Kafka.Consumer.Delivery.{hand, messages_are_kept}
use stdlib_lab.Kafka.Consumer.Closing.{closes_last}
use stdlib_lab.Kafka.Consumer.Order.{consume_in_order}
use stdlib_lab.Kafka.Consumer.Stops.{Run, workers_stop}

abbrev at_start : System
at_start = record {
  workers = head ∷ [];
  capacity = 100;
  buffer = [];
  closed = false;
  shutdown = false;
  cancelled = false;
  fetched = [];
  received = [];
  dropped = [];
}

abbrev in_fetch : System
in_fetch = record at_start { workers = fetching ∷ [] }

abbrev holding : System
holding = record at_start { workers = sending 7 ∷ []; fetched = 7 ∷ [] }

abbrev sent : System
sent = record at_start { fetched = 7 ∷ []; buffer = 7 ∷ [] }

abbrev taken : System
taken = record at_start { fetched = 7 ∷ []; received = 7 ∷ [] }

abbrev shut : System
shut = record taken { shutdown = true }

start_run : Reached 1 at_start
unfolding consume_parallel
start_run = Reached.start

holding_run : Reached 1 holding
holding_run =
    Reached.next (Reached.next start_run (Step.by_worker 0 (WorkerStep.fetch at_start refl refl)))
      (Step.by_worker 0 (WorkerStep.message in_fetch 7 refl))

sending_step : WorkerStep 0 holding sent
sending_step = WorkerStep.send holding 7 refl (omega arith)

taken_run : Reached 1 taken
taken_run =
    Reached.next (Reached.next holding_run (Step.by_worker 0 sending_step))
      (Step.take sent 7 [] refl)

closes_last_example : (holding.closed ≡ false) × (sent.closed ≡ false)
closes_last_example = closes_last holding_run sending_step

messages_are_kept_example :
    (count 7 taken.fetched
      ≡ count 7 taken.received
        + count 7 taken.buffer
        + total (hand 7) taken.workers
        + count 7 taken.dropped)
    × (length taken.buffer ≤ 100 * worker_count 1)
    × (length taken.dropped ≤ worker_count 1)
    × ((stopping taken ≡ true) ⊎ (length taken.dropped ≡ 0))
messages_are_kept_example = messages_are_kept 1 7 taken_run

consume_in_order_example :
    (rest : List ℕ) × (taken.fetched ≡ taken.received ++ (taken.buffer ++ rest)) × (length rest ≤ 1)
consume_in_order_example = consume_in_order taken_run

stopping-Run : Run shut (record shut { workers = returned ∷ [] }) 1
stopping-Run = Run.work 0 Run.here (WorkerStep.stop shut refl refl)

workers_stop_example :
    (1 ≤ 3 * length shut.workers)
    × ((all_returned (returned ∷ []) ≡ true)
        ⊎ ((i : ℕ) × (u : System) × WorkerStep i (record shut { workers = returned ∷ [] }) u))
workers_stop_example = workers_stop refl stopping-Run
