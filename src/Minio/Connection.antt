-- ===== src/Minio/Connection.antt =====
-- minio/setup.go and minio/fx_module.go: the goroutines `monitorConnection` and `retryConnection` of
-- one client, the hook `OnStop` and the end of the context, as relations of steps on what they share.
-- A step is what lies between two points where another goroutine may run. minio-go's clients are the
-- number of the attempt that made them, 0 for those of `NewClient`. The logger, the pool of buffers and
-- the time limits are left out.
pub mod Clients
use stdlib_lab.Prelude.{ℕ, suc, Bool, true, false, ◌||◌, ◌≡◌}

-- In the `select`, in `validateConnection`, at the send that does not block, and returned.
pub data Monitor : Type 0 where
  ticking checking signalling monitor_returned : Monitor

-- In the `select` of the outer and of the inner loop, in `connectToMinio`, in `connectToMinioCore`, in
-- `ListBuckets`, before the two stores, between them, asleep, and returned.
pub data Retry : Type 0 where
  outer inner dialing dialing_core listing validated half_stored sleeping retry_returned : Retry

pub data Owner : Type 0 where
  running signalled stopped : Owner

-- `attempts` counts the attempts to reconnect and `listed` is the last one whose client has listed the
-- buckets; `client` and `core` are the two pointers.
pub record System : Type 0 where
  pub monitor : Monitor
  pub retry : Retry
  pub owner : Owner
  pub shutdown : Bool
  pub cancelled : Bool
  pub pending : Bool
  pub attempts : ℕ
  pub listed : ℕ
  pub client : ℕ
  pub core : ℕ

-- After `NewClient`, whose connection is validated.
abbrev pub started : System
started = record {
  monitor = Monitor.ticking;
  retry = Retry.outer;
  owner = Owner.running;
  shutdown = false;
  cancelled = false;
  pending = false;
  attempts = 0;
  listed = 0;
  client = 0;
  core = 0;
}

-- `<-m.shutdownSignal` or `<-ctx.Done()` is ready.
abbrev pub stopping : System → Bool
stopping s = s.shutdown || s.cancelled

pub data MonitorStep : System → System → Type 0 where
  tick :
      (s : System)
      → s.monitor ≡ Monitor.ticking
      → MonitorStep s (record s { monitor = Monitor.checking })
  healthy :
      (s : System)
      → s.monitor ≡ Monitor.checking
      → MonitorStep s (record s { monitor = Monitor.ticking })
  unhealthy :
      (s : System)
      → s.monitor ≡ Monitor.checking
      → MonitorStep s (record s { monitor = Monitor.signalling })
  send :
      (s : System)
      → s.monitor ≡ Monitor.signalling
      → s.pending ≡ false
      → MonitorStep s (record s { monitor = Monitor.ticking; pending = true })
  skip :
      (s : System)
      → s.monitor ≡ Monitor.signalling
      → s.pending ≡ true
      → MonitorStep s (record s { monitor = Monitor.ticking })
  leave :
      (s : System)
      → s.monitor ≡ Monitor.ticking
      → stopping s ≡ true
      → MonitorStep s (record s { monitor = Monitor.monitor_returned })

pub data RetryStep : System → System → Type 0 where
  stop_outer :
      (s : System)
      → s.retry ≡ Retry.outer
      → stopping s ≡ true
      → RetryStep s (record s { retry = Retry.retry_returned })
  receive :
      (s : System)
      → s.retry ≡ Retry.outer
      → s.pending ≡ true
      → RetryStep s (record s { retry = Retry.inner; pending = false })
  stop_inner :
      (s : System)
      → s.retry ≡ Retry.inner
      → stopping s ≡ true
      → RetryStep s (record s { retry = Retry.retry_returned })
  attempt :
      (s : System)
      → s.retry ≡ Retry.inner
      → stopping s ≡ false
      → RetryStep s (record s { retry = Retry.dialing; attempts = suc s.attempts })
  client_failed :
      (s : System) → s.retry ≡ Retry.dialing → RetryStep s (record s { retry = Retry.sleeping })
  client_made :
      (s : System) → s.retry ≡ Retry.dialing → RetryStep s (record s { retry = Retry.dialing_core })
  core_failed :
      (s : System)
      → s.retry ≡ Retry.dialing_core
      → RetryStep s (record s { retry = Retry.sleeping })
  core_made :
      (s : System) → s.retry ≡ Retry.dialing_core → RetryStep s (record s { retry = Retry.listing })
  list_failed :
      (s : System) → s.retry ≡ Retry.listing → RetryStep s (record s { retry = Retry.sleeping })
  list_made :
      (s : System)
      → s.retry ≡ Retry.listing
      → RetryStep s (record s { retry = Retry.validated; listed = s.attempts })
  store_client :
      (s : System)
      → s.retry ≡ Retry.validated
      → RetryStep s (record s { retry = Retry.half_stored; client = s.attempts })
  store_core :
      (s : System)
      → s.retry ≡ Retry.half_stored
      → RetryStep s (record s { retry = Retry.outer; core = s.attempts })
  awake : (s : System) → s.retry ≡ Retry.sleeping → RetryStep s (record s { retry = Retry.inner })

-- The hook `OnStop` of `RegisterLifecycle`, and `GracefulShutdown`, which it calls.
pub data OwnerStep : System → System → Type 0 where
  signal :
      (s : System)
      → s.owner ≡ Owner.running
      → OwnerStep s (record s { owner = Owner.signalled; shutdown = true })
  wait :
      (s : System)
      → s.owner ≡ Owner.signalled
      → s.monitor ≡ Monitor.monitor_returned
      → s.retry ≡ Retry.retry_returned
      → OwnerStep s (record s { owner = Owner.stopped })

pub data Step : System → System → Type 0 where
  by_monitor : {s t : System} → MonitorStep s t → Step s t
  by_retry : {s t : System} → RetryStep s t → Step s t
  by_owner : {s t : System} → OwnerStep s t → Step s t
  cancel : (s : System) → Step s (record s { cancelled = true })

pub data Reached : System → Type 0 where
  start : Reached started
  next : {s t : System} → Reached s → Step s t → Reached t
