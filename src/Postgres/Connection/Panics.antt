-- ===== src/Postgres/Connection/Panics.antt =====
-- `GracefulShutdown` closes the channel while `MonitorConnection` may be about to send on it.
use stdlib_lab.Prelude.{suc, true, false, ◌≡◌, refl}
use stdlib_lab.Postgres.Connection.{
  Monitor, Owner, System, Way, graceful, Step, Reached, MonitorStep, GracefulStep,
}

-- The steps from one state to another.
pub data Leads (way : Way) (s : System) : System → Type 0 where
  nowhere : Leads way s s
  onwards : {t u : System} → Leads way s t → Step way t u → Leads way s u

-- From every state that a client can be in while a health check runs, before its shutdown and before any
-- panic, steps lead on to the panic of a send on a closed channel: `GracefulShutdown` closes it without
-- waiting, and then the check fails.
pub graceful_shutdown_panics :
    {s : System}
    → Reached graceful s
    → s.owner ≡ Owner.running
    → s.monitor ≡ Monitor.checking
    → s.panicked ≡ false
    → (t : System) × Leads graceful s t × (t.panicked ≡ true)
graceful_shutdown_panics {s} r idle check calm = (_, panics, refl)
  where
    signalled : System
    signalled = record s { owner = Owner.signalled; shutdown = true }

    closed : System
    closed = record signalled { owner = Owner.closed; retry_closed = true }

    found : System
    found = record closed { monitor = Monitor.signalling; failures = suc closed.failures }

    panics : Leads graceful s (record found { panicked = true })
    panics =
        Leads.onwards
          (Leads.onwards
            (Leads.onwards
              (Leads.onwards Leads.nowhere (Step.by_owner (GracefulStep.signal s idle)))
              (Step.by_owner (GracefulStep.close_retry signalled refl)))
            (Step.by_monitor (MonitorStep.unhealthy closed check)))
          (Step.by_monitor (MonitorStep.send_closed found refl refl))
