-- ===== src/Minio/BufferPool.antt =====
-- minio/setup.go: `BufferPool`. The functions here are the operations that nothing interrupts; Concurrent
-- has the steps that `Put` and `Cleanup` consist of. `sync.Pool` may hand out any buffer that was put into
-- it or none, and may drop what it holds: what it does is an argument of each operation. A buffer is its
-- capacity and the bytes in it; the counters stay below 2 ^ 63.
pub mod Limits
pub mod Exhausted
pub mod Concurrent
use stdlib_lab.Prelude.{
  ℕ, zero, suc, ◌+◌, ◌*◌, Bool, true, false, not, List, [], ◌∷◌, Option, none, some, ℤ, pos,
  int_ltb, if◌then◌else◌,
}

pub record BufferPoolConfig : Type 0 where
  pub max_buffer_size : ℤ
  pub max_pool_size : ℤ
  pub initial_buffer_size : ℕ

unfoldable pub default_buffer_pool_config : BufferPoolConfig
default_buffer_pool_config = record {
  max_buffer_size = pos (32 * 1024 * 1024);
  max_pool_size = pos 100;
  initial_buffer_size = 64 * 1024;
}

pub record Buffer : Type 0 where
  pub cap : ℕ
  pub content : List ℕ

abbrev pub reset : Buffer → Buffer
reset b = record b { content = [] }

pub record BufferPool : Type 0 where
  pub config : BufferPoolConfig
  pub pool : List Buffer
  pub pool_size : ℕ
  pub total_buffers_created : ℕ
  pub total_buffers_reused : ℕ
  pub total_buffers_discarded : ℕ

unfoldable pub new_buffer_pool_with_config : BufferPoolConfig → BufferPool
new_buffer_pool_with_config config = record {
  config = config;
  pool = [];
  pool_size = 0;
  total_buffers_created = 0;
  total_buffers_reused = 0;
  total_buffers_discarded = 0;
}

-- The buffer at a place and the others.
abbrev pub past : Buffer → Option (Buffer × List Buffer) → Option (Buffer × List Buffer)
past b none = none
past b (some (found, others)) = some (found, b ∷ others)

abbrev pub pick : List Buffer → ℕ → Option (Buffer × List Buffer)
pick [] i = none
pick (b ∷ bs) zero = some (b, bs)
pick (b ∷ bs) (suc i) = past b (pick bs i)

-- The function `New` of the pool.
abbrev pub fresh : BufferPool → Buffer × BufferPool
fresh p = (
  record { cap = p.config.initial_buffer_size; content = [] },
  record p { total_buffers_created = suc p.total_buffers_created },
)

abbrev pub taken : BufferPool → Option (Buffer × List Buffer) → Buffer × BufferPool
taken p none = fresh p
taken p (some (b, rest)) = (b, record p { pool = rest })

-- `pool.Get()`, with the place that it takes a buffer from, if it takes one.
abbrev pub pool_get : Option ℕ → BufferPool → Buffer × BufferPool
pool_get none p = fresh p
pool_get (some i) p = taken p (pick p.pool i)

unfoldable pub get : Option ℕ → BufferPool → Buffer × BufferPool
get place p =
    let (b, q) = pool_get place p in
    (reset b, record q { total_buffers_reused = suc q.total_buffers_reused })

abbrev pub discard : BufferPool → BufferPool
discard p = record p { total_buffers_discarded = suc p.total_buffers_discarded }

-- The end of `Put`: the buffer goes to `sync.Pool`, and is counted then.
abbrev pub returned : Buffer → BufferPool → BufferPool
returned b p = record p { pool = reset b ∷ p.pool }

abbrev pub counted_up : BufferPool → BufferPool
counted_up p = record p { pool_size = suc p.pool_size }

unfoldable pub put : Option Buffer → BufferPool → BufferPool
put none p = p
put (some b) p =
    if int_ltb p.config.max_buffer_size (pos b.cap)
    then discard p
    else if not (int_ltb (pos p.pool_size) p.config.max_pool_size)
    then discard p
    else counted_up (returned b p)

-- The two stores of `Cleanup`.
abbrev pub replaced : BufferPool → BufferPool
replaced p = record p { pool = [] }

abbrev pub zeroed : BufferPool → BufferPool
zeroed p = record p { pool_size = 0 }

unfoldable pub cleanup : BufferPool → BufferPool
cleanup p = zeroed (replaced p)

-- The ratio is a quotient, with 0 for its value if no buffer was created.
pub record BufferPoolStats : Type 0 where
  pub current_pool_size : ℕ
  pub total_buffers_created : ℕ
  pub total_buffers_reused : ℕ
  pub total_buffers_discarded : ℕ
  pub max_buffer_size : ℤ
  pub max_pool_size : ℤ
  pub reuse_ratio : Option (ℕ × ℕ)

unfoldable pub get_stats : BufferPool → BufferPoolStats
get_stats p = record {
  current_pool_size = p.pool_size;
  total_buffers_created = p.total_buffers_created;
  total_buffers_reused = p.total_buffers_reused;
  total_buffers_discarded = p.total_buffers_discarded;
  max_buffer_size = p.config.max_buffer_size;
  max_pool_size = p.config.max_pool_size;
  reuse_ratio = elim p.total_buffers_created [
    | zero ↦ none
    | suc n ↦ some (p.total_buffers_reused, suc n)
  ];
}

-- What happens to a pool. `dropping` is a buffer that `sync.Pool` drops by itself.
pub data Operation : Type 0 where
  getting : Option ℕ → Operation
  putting : Option Buffer → Operation
  dropping : ℕ → Operation
  cleaning : Operation

abbrev pub after_drop : BufferPool → Option (Buffer × List Buffer) → BufferPool
after_drop p none = p
after_drop p (some (b, rest)) = record p { pool = rest }

unfoldable pub perform : Operation → BufferPool → BufferPool
perform (getting place) p = (get place p).1
perform (putting b) p = put b p
perform (dropping i) p = after_drop p (pick p.pool i)
perform cleaning p = cleanup p

unfoldable pub run : List Operation → BufferPool → BufferPool
run [] p = p
run (op ∷ ops) p = run ops (perform op p)
