-- ===== src/Postgres/Connection/Stops.antt =====
-- After the shutdown signal `RetryConnection` comes to an end.
use stdlib_lab.Prelude.{ℕ, suc, ◌+◌, ◌≤◌, ◌<◌, true, ◌⊎◌, inl, inr, ◌≡◌, refl, arith}
use stdlib_lab.Postgres.Connection.{
  Retry, System, Way, on_stop, graceful, MonitorStep, RetryStep, OnStopStep, GracefulStep,
}

-- The steps that are left, once the shutdown is signalled.
abbrev left : Retry → ℕ
left Retry.outer = 2
left Retry.inner = 1
left Retry.connecting = 3
left Retry.sleeping = 2
left Retry.retry_stopped = 0

-- A run from a state to another, with the number of the steps that `RetryConnection` made in it.
pub data Run (way : Way) (s : System) : System → ℕ → Type 0 where
  here : Run way s s 0
  retry : {t u : System} {n : ℕ} → Run way s t n → RetryStep t u → Run way s u (suc n)
  monitor : {t u : System} {n : ℕ} → Run way s t n → MonitorStep t u → Run way s u n
  on_stopping :
      {t u : System} {n : ℕ} → way ≡ on_stop → Run way s t n → OnStopStep t u → Run way s u n
  on_graceful :
      {t u : System} {n : ℕ} → way ≡ graceful → Run way s t n → GracefulStep t u → Run way s u n
  cancel : {t : System} {n : ℕ} → Run way s t n → Run way s (record t { cancelled = true }) n

RetryStep-left :
    {s t : System}
    → RetryStep s t
    → s.shutdown ≡ true
    → (t.shutdown ≡ true) × (left t.retry < left s.retry)
RetryStep-left (RetryStep.stop_outer s at stop) h = ground arith
RetryStep-left (RetryStep.receive s at full) h = ground arith
RetryStep-left (RetryStep.receive_closed s at empty shut) h = ground arith
RetryStep-left (RetryStep.stop_inner s at stop) h = ground arith
RetryStep-left (RetryStep.attempt s at go) h = ground arith
RetryStep-left (RetryStep.failed s at) h = ground arith
RetryStep-left (RetryStep.awake s at) h = ground arith
RetryStep-left (RetryStep.connected s at) h = ground arith

MonitorStep-left :
    {s t : System} → MonitorStep s t → s.shutdown ≡ true → (t.shutdown ≡ true) × (t.retry ≡ s.retry)
MonitorStep-left (MonitorStep.leave s at stop) h = (h, refl)
MonitorStep-left (MonitorStep.tick s at) h = (h, refl)
MonitorStep-left (MonitorStep.healthy s at) h = (h, refl)
MonitorStep-left (MonitorStep.unhealthy s at) h = (h, refl)
MonitorStep-left (MonitorStep.send s at open_channel free) h = (h, refl)
MonitorStep-left (MonitorStep.skip s at open_channel full) h = (h, refl)
MonitorStep-left (MonitorStep.send_closed s at shut) h = (h, refl)
MonitorStep-left (MonitorStep.close_retry s at) h = (h, refl)

OnStopStep-left :
    {s t : System} → OnStopStep s t → s.shutdown ≡ true → (t.shutdown ≡ true) × (t.retry ≡ s.retry)
OnStopStep-left (OnStopStep.signal s at) h = (refl, refl)
OnStopStep-left (OnStopStep.wait s at returned too) h = (h, refl)
OnStopStep-left (OnStopStep.close_retry s at) h = (h, refl)

GracefulStep-left :
    {s t : System}
    → GracefulStep s t
    → s.shutdown ≡ true
    → (t.shutdown ≡ true) × (t.retry ≡ s.retry)
GracefulStep-left (GracefulStep.signal s at) h = (refl, refl)
GracefulStep-left (GracefulStep.close_retry s at) h = (h, refl)

Run-left :
    {way : Way} {s t : System} {n : ℕ}
    → Run way s t n
    → s.shutdown ≡ true
    → (t.shutdown ≡ true) × (n + left t.retry ≤ left s.retry)
Run-left Run.here h = (h, omega arith)
Run-left (Run.retry r st) h =
    let (shut, bound) = Run-left r h in
    let (still, less) = RetryStep-left st shut in (still, omega arith)
Run-left (Run.monitor r st) h =
    let (shut, bound) = Run-left r h in
    let (still, same) = MonitorStep-left st shut in (still, rw same bound)
Run-left (Run.on_stopping e r st) h =
    let (shut, bound) = Run-left r h in
    let (still, same) = OnStopStep-left st shut in (still, rw same bound)
Run-left (Run.on_graceful e r st) h =
    let (shut, bound) = Run-left r h in
    let (still, same) = GracefulStep-left st shut in (still, rw same bound)
Run-left (Run.cancel r) h = Run-left r h

left-le : (p : Retry) → left p ≤ 3
left-le Retry.outer = omega arith
left-le Retry.inner = omega arith
left-le Retry.connecting = omega arith
left-le Retry.sleeping = omega arith
left-le Retry.retry_stopped = omega arith

can_step :
    (s : System)
    → s.shutdown ≡ true
    → (s.retry ≡ Retry.retry_stopped) ⊎ ((t : System) × RetryStep s t)
can_step s h = at s.retry refl
  where
    at :
        (p : Retry) → s.retry ≡ p → (s.retry ≡ Retry.retry_stopped) ⊎ ((t : System) × RetryStep s t)
    at Retry.outer e =
        inr (record s { retry = Retry.retry_stopped }, RetryStep.stop_outer s e (rw h refl))
    at Retry.inner e =
        inr (record s { retry = Retry.retry_stopped }, RetryStep.stop_inner s e (rw h refl))
    at Retry.connecting e = inr (record s { retry = Retry.sleeping }, RetryStep.failed s e)
    at Retry.sleeping e = inr (record s { retry = Retry.inner }, RetryStep.awake s e)
    at Retry.retry_stopped e = inl e

-- Once the shutdown is signalled, in every order of the goroutines' steps and however connecting ends,
-- `RetryConnection` makes at most three more steps, and until it has returned it can make one.
pub retry_stops :
    (way : Way) {s t : System} {n : ℕ}
    → s.shutdown ≡ true
    → Run way s t n
    → (n ≤ 3) × ((t.retry ≡ Retry.retry_stopped) ⊎ ((u : System) × RetryStep t u))
retry_stops way {s} {t} h r =
    let (still, bound) = Run-left r h in (omega (arith, left-le s.retry), can_step t still)
