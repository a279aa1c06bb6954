-- ===== src/Postgres/Connection/Invariant.antt =====
-- With the hook `OnStop` no send meets a closed channel.
use stdlib_lab.Prelude.{◌⊎◌, inl, inr, Bool-cases, Bool, true, false, not, ◌||◌, ◌≡◌, refl, arith}
use stdlib_lab.Postgres.Connection.{
  Monitor, Retry, Owner, System, on_stop, Step, Reached, MonitorStep, RetryStep, OnStopStep,
}

abbrev monitor_returned : Monitor → Bool
monitor_returned Monitor.monitor_stopped = true
monitor_returned _ = false

abbrev retry_returned : Retry → Bool
retry_returned Retry.retry_stopped = true
retry_returned _ = false

-- `OnStop` has passed its wait.
abbrev pub is_past_wait : Owner → Bool
is_past_wait Owner.waited = true
is_past_wait Owner.closed = true
is_past_wait _ = false

-- The channel is closed only once `MonitorConnection` has returned, and `OnStop` passes its wait only
-- once both goroutines have.
record IsSafe (s : System) : Type 0 where
  closed_late : (not s.retry_closed || monitor_returned s.monitor) ≡ true
  waited_monitor : (not (is_past_wait s.owner) || monitor_returned s.monitor) ≡ true
  waited_retry : (not (is_past_wait s.owner) || retry_returned s.retry) ≡ true
  no_panic : s.panicked ≡ false

MonitorStep-IsSafe : {s t : System} → MonitorStep s t → IsSafe s → IsSafe t
MonitorStep-IsSafe (MonitorStep.leave s at stop) v = ground arith
MonitorStep-IsSafe (MonitorStep.tick s at) v = ground arith
MonitorStep-IsSafe (MonitorStep.healthy s at) v = ground arith
MonitorStep-IsSafe (MonitorStep.unhealthy s at) v = ground arith
MonitorStep-IsSafe (MonitorStep.send s at open_channel free) v = ground arith
MonitorStep-IsSafe (MonitorStep.skip s at open_channel full) v = ground arith
MonitorStep-IsSafe (MonitorStep.send_closed s at shut) v = ground arith
MonitorStep-IsSafe (MonitorStep.close_retry s at) v = ground arith

RetryStep-IsSafe : {s t : System} → RetryStep s t → IsSafe s → IsSafe t
RetryStep-IsSafe (RetryStep.stop_outer s at stop) v = ground arith
RetryStep-IsSafe (RetryStep.receive s at full) v = ground arith
RetryStep-IsSafe (RetryStep.receive_closed s at empty shut) v = ground arith
RetryStep-IsSafe (RetryStep.stop_inner s at stop) v = ground arith
RetryStep-IsSafe (RetryStep.attempt s at go) v = ground arith
RetryStep-IsSafe (RetryStep.failed s at) v = ground arith
RetryStep-IsSafe (RetryStep.awake s at) v = ground arith
RetryStep-IsSafe (RetryStep.connected s at) v = ground arith

OnStopStep-IsSafe : {s t : System} → OnStopStep s t → IsSafe s → IsSafe t
OnStopStep-IsSafe (OnStopStep.signal s at) v = ground arith
OnStopStep-IsSafe (OnStopStep.wait s at monitor retry) v = ground arith
OnStopStep-IsSafe (OnStopStep.close_retry s at) v = ground arith

Reached-IsSafe : {s : System} → Reached on_stop s → IsSafe s
Reached-IsSafe Reached.start = record {
  closed_late = refl;
  waited_monitor = refl;
  waited_retry = refl;
  no_panic = refl;
}
Reached-IsSafe (Reached.next r (Step.by_monitor st)) = MonitorStep-IsSafe st (Reached-IsSafe r)
Reached-IsSafe (Reached.next r (Step.by_retry st)) = RetryStep-IsSafe st (Reached-IsSafe r)
Reached-IsSafe (Reached.next r (Step.by_owner st)) = OnStopStep-IsSafe st (Reached-IsSafe r)
Reached-IsSafe (Reached.next r (Step.cancel s)) = let v = Reached-IsSafe r in ground arith

-- In every order of the goroutines' steps, a client that the hook `OnStop` shuts down never sends on
-- a closed channel, and once `OnStop` has passed its wait, after which it closes the channel and the
-- database, both goroutines have returned.
pub on_stop_never_panics :
    {s : System}
    → Reached on_stop s
    → (s.panicked ≡ false)
      × ((is_past_wait s.owner ≡ false)
          ⊎ ((s.monitor ≡ Monitor.monitor_stopped) × (s.retry ≡ Retry.retry_stopped)))
on_stop_never_panics {s} r = let v = Reached-IsSafe r in (v.no_panic, both_returned v)
  where
    both_returned :
        IsSafe s
        → (is_past_wait s.owner ≡ false)
          ⊎ ((s.monitor ≡ Monitor.monitor_stopped) × (s.retry ≡ Retry.retry_stopped))
    both_returned v = elim (Bool-cases (is_past_wait s.owner)) [
      | inl past ↦ inr (ground arith, ground arith)
      | inr before ↦ inl before
    ]
