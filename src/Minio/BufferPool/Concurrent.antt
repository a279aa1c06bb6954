-- ===== src/Minio/BufferPool/Concurrent.antt =====
-- Calls of the pool's methods at the same time: the steps between which another goroutine may run. `Put`
-- reads the count, gives the buffer to `sync.Pool` and counts it, in three steps; only the first waits
-- for the lock that `Cleanup` holds.
use stdlib_lab.Prelude.{
  ℕ, suc, ◌+◌, ◌<◌, Bool, true, false, List, [], ◌∷◌, ◌++◌, length, Option, none, some, pos,
  int_ltb, All, ◌≡◌, refl, ap, ◌∙◌, arith, ltb→lt,
}
use stdlib_lab.Minio.BufferPool.{
  BufferPoolConfig, Buffer, BufferPool, new_buffer_pool_with_config, pick, taken, after_drop, get,
  discard, returned, counted_up, replaced, zeroed,
}
use stdlib_lab.Minio.BufferPool.Limits.{IsIdle, others, pick-IsIdle}

-- `admitted` are the buffers of the calls of `Put` that have passed both tests, `uncounted` is the number
-- of those calls that have given the buffer to the pool, and `cleaning` says whether `Cleanup` holds the
-- lock.
pub record Shared : Type 0 where
  pub pool : BufferPool
  pub admitted : List Buffer
  pub uncounted : ℕ
  pub cleaning : Bool

-- The calls of `Put` that are past their tests.
abbrev pub in_flight : Shared → ℕ
in_flight s = length s.admitted + s.uncounted

-- The steps with at most `calls` calls of `Put` at a time.
pub data PoolStep (calls : ℕ) : Shared → Shared → Type 0 where
  admit :
      (s : Shared) (b : Buffer)
      → s.cleaning ≡ false
      → int_ltb s.pool.config.max_buffer_size (pos b.cap) ≡ false
      → int_ltb (pos s.pool.pool_size) s.pool.config.max_pool_size ≡ true
      → in_flight s < calls
      → PoolStep calls s (record s { admitted = b ∷ s.admitted })
  refuse_large :
      (s : Shared) (b : Buffer)
      → int_ltb s.pool.config.max_buffer_size (pos b.cap) ≡ true
      → PoolStep calls s (record s { pool = discard s.pool })
  refuse_full :
      (s : Shared)
      → s.cleaning ≡ false
      → int_ltb (pos s.pool.pool_size) s.pool.config.max_pool_size ≡ false
      → PoolStep calls s (record s { pool = discard s.pool })
  give_back :
      (s : Shared) (b : Buffer) (front back : List Buffer)
      → s.admitted ≡ front ++ (b ∷ back)
      → PoolStep calls s (record s {
        pool = returned b s.pool;
        admitted = front ++ back;
        uncounted = suc s.uncounted;
      })
  count_up :
      (s : Shared) (left : ℕ)
      → s.uncounted ≡ suc left
      → PoolStep calls s (record s { pool = counted_up s.pool; uncounted = left })
  take :
      (s : Shared) (place : Option ℕ) → PoolStep calls s (record s { pool = (get place s.pool).1 })
  drop :
      (s : Shared) (i : ℕ)
      → PoolStep calls s (record s { pool = after_drop s.pool (pick s.pool.pool i) })
  replace :
      (s : Shared)
      → s.cleaning ≡ false
      → PoolStep calls s (record s { pool = replaced s.pool; cleaning = true })
  zero_count :
      (s : Shared)
      → s.cleaning ≡ true
      → PoolStep calls s (record s { pool = zeroed s.pool; cleaning = false })

pub data Reached (config : BufferPoolConfig) (calls : ℕ) : Shared → Type 0 where
  start : Reached config calls (record {
    pool = new_buffer_pool_with_config config;
    admitted = [];
    uncounted = 0;
    cleaning = false;
  })
  next : {s t : Shared} → Reached config calls s → PoolStep calls s t → Reached config calls t

-- A buffer that may be given back.
abbrev IsSmall : BufferPoolConfig → Buffer → Type 0
IsSmall config b = int_ltb config.max_buffer_size (pos b.cap) ≡ false

record IsBounded (config : BufferPoolConfig) (calls m : ℕ) (s : Shared) : Type 0 where
  kept : s.pool.config ≡ config
  idle : All (IsIdle config) s.pool.pool
  small : All (IsSmall config) s.admitted
  bound : s.pool.pool_size + in_flight s < m + calls

All-without :
    (P : Buffer → Type 0) (front : List Buffer) (b : Buffer) (back : List Buffer)
    → All P (front ++ (b ∷ back))
    → P b × All P (front ++ back)
All-without P [] b back all = all
All-without P (x ∷ front) b back (first, all) =
    let (here, rest) = All-without P front b back all in (here, (first, rest))

length-without :
    (front : List Buffer) (b : Buffer) (back : List Buffer)
    → length (front ++ (b ∷ back)) ≡ suc (length (front ++ back))
length-without [] b back = refl
length-without (x ∷ front) b back = omega (arith, length-without front b back)

after_drop-pool :
    (P : Buffer → Type 0) (p : BufferPool) (found : Option (Buffer × List Buffer))
    → All P (others p.pool found)
    → All P (after_drop p found).pool × All P (taken p found).1.pool
after_drop-pool P p none all = (all, all)
after_drop-pool P p (some (b, rest)) all = (all, all)

after_drop-rest :
    (p : BufferPool) (found : Option (Buffer × List Buffer))
    → ((after_drop p found).config ≡ p.config)
      × ((after_drop p found).pool_size ≡ p.pool_size)
      × ((taken p found).1.config ≡ p.config)
      × ((taken p found).1.pool_size ≡ p.pool_size)
after_drop-rest p none = (refl, refl, refl, refl)
after_drop-rest p (some (b, rest)) = (refl, refl, refl, refl)

PoolStep-IsBounded :
    {config : BufferPoolConfig} {calls m : ℕ} {s t : Shared}
    → config.max_pool_size ≡ pos m
    → PoolStep calls s t
    → IsBounded config calls m s
    → IsBounded config calls m t
unfolding get
PoolStep-IsBounded {m = m} limit (PoolStep.admit s b free fits room few) v =
    let below = rw (v.kept, limit) at room in
    record {
      kept = v.kept;
      idle = v.idle;
      small = (rw v.kept at fits, v.small);
      bound = omega (arith, ltb→lt s.pool.pool_size m below, few);
    }
PoolStep-IsBounded limit (PoolStep.refuse_large s b large) v = record {
  kept = v.kept;
  idle = v.idle;
  small = v.small;
  bound = v.bound;
}
PoolStep-IsBounded limit (PoolStep.refuse_full s free full) v = record {
  kept = v.kept;
  idle = v.idle;
  small = v.small;
  bound = v.bound;
}
PoolStep-IsBounded {config} limit (PoolStep.give_back s b front back split) v =
    let (here, rest) = All-without (IsSmall config) front b back (rw split at v.small) in
    record {
      kept = v.kept;
      idle = ((refl, here), v.idle);
      small = rest;
      bound = omega (arith, v.bound, ap length split, length-without front b back);
    }
PoolStep-IsBounded limit (PoolStep.count_up s left one) v = record {
  kept = v.kept;
  idle = v.idle;
  small = v.small;
  bound = omega (arith, v.bound, one);
}
PoolStep-IsBounded limit (PoolStep.take s none) v = record {
  kept = v.kept;
  idle = v.idle;
  small = v.small;
  bound = v.bound;
}
PoolStep-IsBounded {config} limit (PoolStep.take s (some i)) v =
    let found = pick s.pool.pool i in
    let (idle, _) = pick-IsIdle config s.pool.pool i v.idle in
    let (_, _, config_kept, size_kept) = after_drop-rest s.pool found in
    record {
      kept = config_kept ∙ v.kept;
      idle = (after_drop-pool (IsIdle config) s.pool found idle).1;
      small = v.small;
      bound = omega (arith, v.bound, size_kept);
    }
PoolStep-IsBounded {config} limit (PoolStep.drop s i) v =
    let found = pick s.pool.pool i in
    let (idle, _) = pick-IsIdle config s.pool.pool i v.idle in
    let (config_kept, size_kept, _, _) = after_drop-rest s.pool found in
    record {
      kept = config_kept ∙ v.kept;
      idle = (after_drop-pool (IsIdle config) s.pool found idle).0;
      small = v.small;
      bound = omega (arith, v.bound, size_kept);
    }
PoolStep-IsBounded limit (PoolStep.replace s free) v = record {
  kept = v.kept;
  idle = tt;
  small = v.small;
  bound = v.bound;
}
PoolStep-IsBounded limit (PoolStep.zero_count s held) v = record {
  kept = v.kept;
  idle = v.idle;
  small = v.small;
  bound = omega (arith, v.bound);
}

Reached-IsBounded :
    {config : BufferPoolConfig} {calls m : ℕ} {s : Shared}
    → config.max_pool_size ≡ pos m
    → 0 < calls
    → Reached config calls s
    → IsBounded config calls m s
unfolding new_buffer_pool_with_config
Reached-IsBounded limit some_calls Reached.start = record {
  kept = refl;
  idle = tt;
  small = tt;
  bound = omega arith;
}
Reached-IsBounded limit some_calls (Reached.next r st) =
    PoolStep-IsBounded limit st (Reached-IsBounded limit some_calls r)

-- In every order of the steps of any number of goroutines, with at most the given number of calls of
-- `Put` at a time: every buffer that waits in the pool is empty and no larger than the largest allowed,
-- and the count, with the calls that are past their tests, is below the largest number allowed plus the
-- number of calls. So one call at a time keeps to that number, and each further call can put one more.
pub count_is_bounded :
    {config : BufferPoolConfig} {calls m : ℕ} {s : Shared}
    → config.max_pool_size ≡ pos m
    → 0 < calls
    → Reached config calls s
    → All (IsIdle config) s.pool.pool × (s.pool.pool_size + in_flight s < m + calls)
count_is_bounded limit some_calls r =
    let v = Reached-IsBounded limit some_calls r in (v.idle, v.bound)
