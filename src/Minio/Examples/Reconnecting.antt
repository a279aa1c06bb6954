-- ===== src/Minio/Examples/Reconnecting.antt =====
-- A reconnection up to the place between its two stores.
use stdlib_lab.Prelude.{◌≤◌, true, ◌⊎◌, ◌≡◌, refl}
use stdlib_lab.Minio.Connection.{
  Monitor, Retry, System, started, MonitorStep, RetryStep, Step, Reached,
}
use stdlib_lab.Minio.Connection.Clients.{clients_match}

abbrev checked : System
checked = record started { monitor = Monitor.checking }

abbrev unhealthy : System
unhealthy = record started { monitor = Monitor.signalling }

abbrev signalled : System
signalled = record started { pending = true }

abbrev woken : System
woken = record started { retry = Retry.inner }

abbrev trying : Retry → System
trying place = record started { retry = place; attempts = 1 }

abbrev listed : System
listed = record (trying Retry.validated) { listed = 1 }

abbrev half : System
half = record listed { retry = Retry.half_stored; client = 1 }

Reached-woken : Reached woken
Reached-woken =
    Reached.next
      (Reached.next
        (Reached.next (Reached.next Reached.start (Step.by_monitor (MonitorStep.tick started refl)))
          (Step.by_monitor (MonitorStep.unhealthy checked refl)))
        (Step.by_monitor (MonitorStep.send unhealthy refl refl)))
      (Step.by_retry (RetryStep.receive signalled refl refl))

Reached-half : Reached half
Reached-half =
    Reached.next
      (Reached.next
        (Reached.next
          (Reached.next
            (Reached.next Reached-woken (Step.by_retry (RetryStep.attempt woken refl refl)))
            (Step.by_retry (RetryStep.client_made (trying Retry.dialing) refl)))
          (Step.by_retry (RetryStep.core_made (trying Retry.dialing_core) refl)))
        (Step.by_retry (RetryStep.list_made (trying Retry.listing) refl)))
      (Step.by_retry (RetryStep.store_client listed refl))

clients_match_example :
    ((half.retry ≡ Retry.half_stored) ⊎ (half.client ≡ half.core))
    × ((half.retry ≡ Retry.validated) ⊎ (half.client ≡ half.listed))
    × (half.core ≤ half.listed)
    × (half.listed ≤ half.attempts)
clients_match_example = clients_match Reached-half
