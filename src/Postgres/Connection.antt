-- ===== src/Postgres/Connection.antt =====
-- postgres/setup.go and postgres/fx_module.go: the goroutines `MonitorConnection` and
-- `RetryConnection` of one client, and the two ways to shut it down. Every goroutine is a relation of
-- its steps on what they share; a step is what lies between two points where another may run. Where a
-- `select` has several cases that are ready, Go takes any of them, and a default only if none is.
-- mariadb/setup.go has the same two loops.
pub mod Invariant
pub mod Reconnects
pub mod Stops
pub mod Panics
use stdlib_lab.Prelude.{ℕ, suc, Bool, true, false, ◌||◌, ◌≡◌}

-- In the `select`, in the ticker's case before and after `healthCheck`, on the way out with the
-- deferred close still to do, and returned.
pub data Monitor : Type 0 where
  waiting checking signalling leaving monitor_stopped : Monitor

-- In the `select` of the outer and of the inner loop, in `connectToPostgres`, asleep, and returned.
pub data Retry : Type 0 where
  outer inner connecting sleeping retry_stopped : Retry

-- How far the shutdown has come.
pub data Owner : Type 0 where
  running signalled waited closed : Owner

-- Whether the two channels are closed and the buffer of `retryChanSignal`, which holds one error, is
-- full; whether the context is done; the count of connections that were stored; and whether a send on
-- a closed channel has panicked. `failures` counts the health checks that failed.
pub record System : Type 0 where
  pub monitor : Monitor
  pub retry : Retry
  pub owner : Owner
  pub shutdown : Bool
  pub retry_closed : Bool
  pub pending : Bool
  pub cancelled : Bool
  pub stored : ℕ
  pub failures : ℕ
  pub panicked : Bool

abbrev pub started : System
started = record {
  monitor = waiting;
  retry = outer;
  owner = running;
  shutdown = false;
  retry_closed = false;
  pending = false;
  cancelled = false;
  stored = 0;
  failures = 0;
  panicked = false;
}

-- `<-p.shutdownSignal` or `<-ctx.Done()` is ready.
abbrev pub stopping : System → Bool
stopping s = s.shutdown || s.cancelled

pub data MonitorStep : System → System → Type 0 where
  leave :
      (s : System)
      → s.monitor ≡ waiting
      → stopping s ≡ true
      → MonitorStep s (record s { monitor = leaving })
  tick : (s : System) → s.monitor ≡ waiting → MonitorStep s (record s { monitor = checking })
  healthy : (s : System) → s.monitor ≡ checking → MonitorStep s (record s { monitor = waiting })
  unhealthy :
      (s : System)
      → s.monitor ≡ checking
      → MonitorStep s (record s { monitor = signalling; failures = suc s.failures })
  send :
      (s : System)
      → s.monitor ≡ signalling
      → s.retry_closed ≡ false
      → s.pending ≡ false
      → MonitorStep s (record s { monitor = waiting; pending = true })
  skip :
      (s : System)
      → s.monitor ≡ signalling
      → s.retry_closed ≡ false
      → s.pending ≡ true
      → MonitorStep s (record s { monitor = waiting })
  -- A send on a closed channel panics, in a `select` with a default too.
  send_closed :
      (s : System)
      → s.monitor ≡ signalling
      → s.retry_closed ≡ true
      → MonitorStep s (record s { panicked = true })
  close_retry :
      (s : System)
      → s.monitor ≡ leaving
      → MonitorStep s (record s { monitor = monitor_stopped; retry_closed = true })

pub data RetryStep : System → System → Type 0 where
  stop_outer :
      (s : System)
      → s.retry ≡ outer
      → stopping s ≡ true
      → RetryStep s (record s { retry = retry_stopped })
  receive :
      (s : System)
      → s.retry ≡ outer
      → s.pending ≡ true
      → RetryStep s (record s { retry = inner; pending = false })
  -- A closed channel is always ready to be received from.
  receive_closed :
      (s : System)
      → s.retry ≡ outer
      → s.pending ≡ false
      → s.retry_closed ≡ true
      → RetryStep s (record s { retry = inner })
  stop_inner :
      (s : System)
      → s.retry ≡ inner
      → stopping s ≡ true
      → RetryStep s (record s { retry = retry_stopped })
  attempt :
      (s : System)
      → s.retry ≡ inner
      → stopping s ≡ false
      → RetryStep s (record s { retry = connecting })
  failed : (s : System) → s.retry ≡ connecting → RetryStep s (record s { retry = sleeping })
  awake : (s : System) → s.retry ≡ sleeping → RetryStep s (record s { retry = inner })
  connected :
      (s : System)
      → s.retry ≡ connecting
      → RetryStep s (record s { retry = outer; stored = suc s.stored })

-- The hook `OnStop` of `RegisterPostgresLifecycle`, which waits for both goroutines.
pub data OnStopStep : System → System → Type 0 where
  signal :
      (s : System)
      → s.owner ≡ running
      → OnStopStep s (record s { owner = signalled; shutdown = true })
  wait :
      (s : System)
      → s.owner ≡ signalled
      → s.monitor ≡ monitor_stopped
      → s.retry ≡ retry_stopped
      → OnStopStep s (record s { owner = waited })
  close_retry :
      (s : System)
      → s.owner ≡ waited
      → OnStopStep s (record s { owner = closed; retry_closed = true })

-- `GracefulShutdown`, which waits for nothing.
pub data GracefulStep : System → System → Type 0 where
  signal :
      (s : System)
      → s.owner ≡ running
      → GracefulStep s (record s { owner = signalled; shutdown = true })
  close_retry :
      (s : System)
      → s.owner ≡ signalled
      → GracefulStep s (record s { owner = closed; retry_closed = true })

pub data Way : Type 0 where
  on_stop graceful : Way

abbrev pub OwnerStep : Way → System → System → Type 0
OwnerStep on_stop s t = OnStopStep s t
OwnerStep graceful s t = GracefulStep s t

-- A step of any goroutine, or the end of the context.
pub data Step (way : Way) : System → System → Type 0 where
  by_monitor : {s t : System} → MonitorStep s t → Step way s t
  by_retry : {s t : System} → RetryStep s t → Step way s t
  by_owner : {s t : System} → OwnerStep way s t → Step way s t
  cancel : (s : System) → Step way s (record s { cancelled = true })

-- What a client can become from its start.
pub data Reached (way : Way) : System → Type 0 where
  start : Reached way started
  next : {s t : System} → Reached way s → Step way s t → Reached way t
