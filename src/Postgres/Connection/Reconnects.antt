-- ===== src/Postgres/Connection/Reconnects.antt =====
-- A new connection is stored only after a health check has failed, one for each failure at most.
use stdlib_lab.Prelude.{ℕ, ◌+◌, ◌≤◌, Bool, true, false, not, ◌||◌, ◌≡◌, refl, arith, if◌then◌else◌}
use stdlib_lab.Postgres.Connection.{
  Monitor, Retry, Owner, System, stopping, Way, on_stop, graceful, Step, Reached, MonitorStep,
  RetryStep, OnStopStep, GracefulStep,
}

abbrev is_leaving : Monitor → Bool
is_leaving Monitor.leaving = true
is_leaving Monitor.waiting = false
is_leaving _ = false

abbrev is_shut : Owner → Bool
is_shut Owner.running = false
is_shut Owner.signalled = true
is_shut _ = true

abbrev bit : Bool → ℕ
bit true = 1
bit false = 0

-- A failure that has been found and not yet sent.
abbrev unsent : Monitor → ℕ
unsent Monitor.signalling = 1
unsent Monitor.waiting = 0
unsent _ = 0

-- A failure that is being answered. The inner loop may also be entered because the channel is
-- closed; then it is about to stop.
abbrev answering : Retry → Bool → ℕ
answering Retry.outer stop = 0
answering Retry.inner stop = if stop then 0 else 1
answering Retry.connecting stop = 1
answering Retry.sleeping stop = 1
answering Retry.retry_stopped stop = 0

record IsCounted (s : System) : Type 0 where
  closed_stops : (not s.retry_closed || stopping s) ≡ true
  leaving_stops : (not (is_leaving s.monitor) || stopping s) ≡ true
  owner_stops : (not (is_shut s.owner) || s.shutdown) ≡ true
  counted :
      s.stored + bit s.pending + unsent s.monitor + answering s.retry (stopping s) ≤ s.failures

MonitorStep-IsCounted : {s t : System} → MonitorStep s t → IsCounted s → IsCounted t
MonitorStep-IsCounted (MonitorStep.leave s at stop) v = ground arith
MonitorStep-IsCounted (MonitorStep.tick s at) v = ground arith
MonitorStep-IsCounted (MonitorStep.healthy s at) v = ground arith
MonitorStep-IsCounted (MonitorStep.unhealthy s at) v = ground arith
MonitorStep-IsCounted (MonitorStep.send s at open_channel free) v = ground arith
MonitorStep-IsCounted (MonitorStep.skip s at open_channel full) v = ground arith
MonitorStep-IsCounted (MonitorStep.send_closed s at shut) v = ground arith
MonitorStep-IsCounted (MonitorStep.close_retry s at) v = ground arith

RetryStep-IsCounted : {s t : System} → RetryStep s t → IsCounted s → IsCounted t
RetryStep-IsCounted (RetryStep.stop_outer s at stop) v = ground arith
RetryStep-IsCounted (RetryStep.receive s at full) v = ground arith
RetryStep-IsCounted (RetryStep.receive_closed s at empty shut) v = ground arith
RetryStep-IsCounted (RetryStep.stop_inner s at stop) v = ground arith
RetryStep-IsCounted (RetryStep.attempt s at go) v = ground arith
RetryStep-IsCounted (RetryStep.failed s at) v = ground arith
RetryStep-IsCounted (RetryStep.awake s at) v = ground arith
RetryStep-IsCounted (RetryStep.connected s at) v = ground arith

OnStopStep-IsCounted : {s t : System} → OnStopStep s t → IsCounted s → IsCounted t
OnStopStep-IsCounted (OnStopStep.signal s at) v = ground arith
OnStopStep-IsCounted (OnStopStep.wait s at monitor retry) v = ground arith
OnStopStep-IsCounted (OnStopStep.close_retry s at) v = ground arith

GracefulStep-IsCounted : {s t : System} → GracefulStep s t → IsCounted s → IsCounted t
GracefulStep-IsCounted (GracefulStep.signal s at) v = ground arith
GracefulStep-IsCounted (GracefulStep.close_retry s at) v = ground arith

Step-IsCounted : (way : Way) {s t : System} → Step way s t → IsCounted s → IsCounted t
Step-IsCounted way (Step.by_monitor st) v = MonitorStep-IsCounted st v
Step-IsCounted way (Step.by_retry st) v = RetryStep-IsCounted st v
Step-IsCounted on_stop (Step.by_owner st) v = OnStopStep-IsCounted st v
Step-IsCounted graceful (Step.by_owner st) v = GracefulStep-IsCounted st v
Step-IsCounted way (Step.cancel s) v = ground arith

Reached-IsCounted : (way : Way) {s : System} → Reached way s → IsCounted s
Reached-IsCounted way Reached.start = record {
  closed_stops = refl;
  leaving_stops = refl;
  owner_stops = refl;
  counted = omega arith;
}
Reached-IsCounted way (Reached.next r st) = Step-IsCounted way st (Reached-IsCounted way r)

-- In every order of the goroutines' steps, and whichever way the client is shut down, the connection
-- has been replaced at most as often as a health check has failed.
pub reconnects-le-failures : (way : Way) {s : System} → Reached way s → s.stored ≤ s.failures
reconnects-le-failures way r = let v = Reached-IsCounted way r in omega (arith, v.counted)
