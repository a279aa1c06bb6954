-- ===== src/Minio/Examples/Pool.antt =====
-- A pool of one buffer, which is taken and put back.
use stdlib_lab.Prelude.{false, All, arith, ◌<◌, ◌+◌, List, [], ◌∷◌, none, some, pos, ◌≡◌, refl}
use stdlib_lab.Minio.BufferPool.{
  BufferPoolConfig, Buffer, BufferPool, new_buffer_pool_with_config, get, put, Operation, getting,
  putting, perform, run,
}
use stdlib_lab.Minio.BufferPool.Limits.{IsIdle}
use stdlib_lab.Minio.BufferPool.Concurrent.{Shared, in_flight, PoolStep, Reached, count_is_bounded}
use stdlib_lab.Minio.BufferPool.Exhausted.{exhausted_for_good}

abbrev small : BufferPoolConfig
small = record { max_buffer_size = pos 64; max_pool_size = pos 1; initial_buffer_size = 16 }

abbrev written : Buffer
written = record { cap = 32; content = 1 ∷ 2 ∷ [] }

abbrev used : List Operation
used = getting none ∷ putting (some written) ∷ getting (some 0) ∷ []

-- The pool after these.
abbrev drained : BufferPool
drained = record {
  config = small;
  pool = [];
  pool_size = 1;
  total_buffers_created = 1;
  total_buffers_reused = 2;
  total_buffers_discarded = 0;
}

drained-run : run used (new_buffer_pool_with_config small) ≡ drained
unfolding run perform get put new_buffer_pool_with_config
drained-run = refl

exhausted_for_good_example :
    ((run (putting (some written) ∷ getting (some 0) ∷ []) drained).pool ≡ [])
    × ((run (putting (some written) ∷ getting (some 0) ∷ []) drained).total_buffers_created ≡ 1 + 1)
    × ((run (putting (some written) ∷ getting (some 0) ∷ []) drained).total_buffers_reused ≡ 2 + 1)
exhausted_for_good_example =
    exhausted_for_good drained (putting (some written) ∷ getting (some 0) ∷ []) refl refl refl

-- Two calls that both find room for one buffer.
abbrev room : Shared
room = record {
  pool = new_buffer_pool_with_config small;
  admitted = [];
  uncounted = 0;
  cleaning = false;
}

abbrev first_in : Shared
first_in = record room { admitted = written ∷ [] }

abbrev both_in : Shared
both_in = record room { admitted = written ∷ written ∷ [] }

Reached-both_in : Reached small 2 both_in
unfolding new_buffer_pool_with_config
Reached-both_in =
    Reached.next
      (Reached.next Reached.start (PoolStep.admit room written refl refl refl (omega arith)))
      (PoolStep.admit first_in written refl refl refl (omega arith))

count_is_bounded_example :
    All (IsIdle small) both_in.pool.pool × (both_in.pool.pool_size + in_flight both_in < 1 + 2)
count_is_bounded_example = count_is_bounded refl (omega arith) Reached-both_in
