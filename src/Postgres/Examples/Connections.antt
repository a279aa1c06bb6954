-- ===== src/Postgres/Examples/Connections.antt =====
-- A client whose health check fails, and its shutdown.
use stdlib_lab.Prelude.{◌≤◌, true, false, ◌≡◌, ◌⊎◌, refl}
use stdlib_lab.Postgres.Connection.{
  Monitor, Retry, Owner, System, started, on_stop, graceful, Step, Reached, MonitorStep, RetryStep,
  OnStopStep,
}
use stdlib_lab.Postgres.Connection.Invariant.{on_stop_never_panics, is_past_wait}
use stdlib_lab.Postgres.Connection.Stops.{Run, retry_stops}
use stdlib_lab.Postgres.Connection.Panics.{Leads, graceful_shutdown_panics}

abbrev checking : System
checking = record started { monitor = Monitor.checking }

checking_run : Reached graceful checking
checking_run = Reached.next Reached.start (Step.by_monitor (MonitorStep.tick started refl))

graceful_shutdown_panics_example : (t : System) × Leads graceful checking t × (t.panicked ≡ true)
graceful_shutdown_panics_example = graceful_shutdown_panics checking_run refl refl refl

abbrev signalled : System
signalled = record started { owner = Owner.signalled; shutdown = true }

abbrev retry_left : System
retry_left = record signalled { retry = Retry.retry_stopped }

abbrev monitor_leaving : System
monitor_leaving = record retry_left { monitor = Monitor.leaving }

abbrev both_left : System
both_left = record monitor_leaving { monitor = Monitor.monitor_stopped; retry_closed = true }

abbrev waited : System
waited = record both_left { owner = Owner.waited }

retry_step : RetryStep signalled retry_left
retry_step = RetryStep.stop_outer signalled refl refl

waited_run : Reached on_stop waited
waited_run =
    Reached.next
      (Reached.next
        (Reached.next
          (Reached.next
            (Reached.next Reached.start (Step.by_owner (OnStopStep.signal started refl)))
            (Step.by_retry retry_step))
          (Step.by_monitor (MonitorStep.leave retry_left refl refl)))
        (Step.by_monitor (MonitorStep.close_retry monitor_leaving refl)))
      (Step.by_owner (OnStopStep.wait both_left refl refl refl))

on_stop_never_panics_example :
    (waited.panicked ≡ false)
    × ((is_past_wait waited.owner ≡ false)
        ⊎ ((waited.monitor ≡ Monitor.monitor_stopped) × (waited.retry ≡ Retry.retry_stopped)))
on_stop_never_panics_example = on_stop_never_panics waited_run

retry_stops_example :
    (1 ≤ 3) × ((retry_left.retry ≡ Retry.retry_stopped) ⊎ ((u : System) × RetryStep retry_left u))
retry_stops_example = retry_stops on_stop refl (Run.retry Run.here retry_step)

abbrev failed : System
failed = record started { monitor = Monitor.signalling; failures = 1 }

abbrev told : System
told = record failed { monitor = Monitor.waiting; pending = true }

abbrev in_retry : System
in_retry = record told { retry = Retry.inner; pending = false }

abbrev connecting : System
connecting = record in_retry { retry = Retry.connecting }

abbrev replaced : System
replaced = record connecting { retry = Retry.outer; stored = 1 }

replaced_run : Reached graceful replaced
replaced_run =
    Reached.next
      (Reached.next
        (Reached.next
          (Reached.next
            (Reached.next checking_run (Step.by_monitor (MonitorStep.unhealthy checking refl)))
            (Step.by_monitor (MonitorStep.send failed refl refl refl)))
          (Step.by_retry (RetryStep.receive told refl refl)))
        (Step.by_retry (RetryStep.attempt in_retry refl refl)))
      (Step.by_retry (RetryStep.connected connecting refl))
