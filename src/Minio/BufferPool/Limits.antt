-- ===== src/Minio/BufferPool/Limits.antt =====
-- The bounds that the pool keeps.
use stdlib_lab.Prelude.{
  ℕ, zero, suc, ◌≤◌, true, false, List, [], ◌∷◌, length, Option, none, some, ℤ, pos, negsuc,
  int_ltb, All, ◌≡◌, ◌⊎◌, inl, inr, refl, arith, ◌∙◌, Bool-cases,
}
use stdlib_lab.Minio.BufferPool.{
  BufferPoolConfig, Buffer, BufferPool, new_buffer_pool_with_config, pick, past, taken, after_drop,
  get, put, cleanup, Operation, getting, putting, dropping, cleaning, perform, run,
}

-- A buffer that may wait in a pool.
abbrev pub IsIdle : BufferPoolConfig → Buffer → Type 0
IsIdle config b = (b.content ≡ []) × (int_ltb config.max_buffer_size (pos b.cap) ≡ false)

pub record IsWithin (p : BufferPool) : Type 0 where
  pub idle : All (IsIdle p.config) p.pool
  pub counted : length p.pool ≤ p.pool_size
  pub limited : (p.pool_size ≡ 0) ⊎ (int_ltb p.config.max_pool_size (pos p.pool_size) ≡ false)

abbrev pub others : List Buffer → Option (Buffer × List Buffer) → List Buffer
others bs none = bs
others bs (some (b, rest)) = rest

past-IsIdle :
    (config : BufferPoolConfig) (c : Buffer) (bs : List Buffer)
    (found : Option (Buffer × List Buffer))
    → IsIdle config c
    → All (IsIdle config) (others bs found) × (length (others bs found) ≤ length bs)
    → All (IsIdle config) (others (c ∷ bs) (past c found))
      × (length (others (c ∷ bs) (past c found)) ≤ suc (length bs))
past-IsIdle config c bs none idle (all, few) = ((idle, all), omega arith)
past-IsIdle config c bs (some (b, rest)) idle (all, few) = ((idle, all), omega arith)

pub pick-IsIdle :
    (config : BufferPoolConfig) (bs : List Buffer) (i : ℕ)
    → All (IsIdle config) bs
    → All (IsIdle config) (others bs (pick bs i)) × (length (others bs (pick bs i)) ≤ length bs)
pick-IsIdle config [] i h = (tt, omega arith)
pick-IsIdle config (c ∷ bs) zero h = (h.1, omega arith)
pick-IsIdle config (c ∷ bs) (suc i) h =
    past-IsIdle config c bs (pick bs i) h.0 (pick-IsIdle config bs i h.1)

drop-IsWithin :
    (p : BufferPool) (found : Option (Buffer × List Buffer))
    → IsWithin p
    → All (IsIdle p.config) (others p.pool found) × (length (others p.pool found) ≤ length p.pool)
    → IsWithin (after_drop p found) × IsWithin (taken p found).1
drop-IsWithin p none v h = (v, record { idle = v.idle; counted = v.counted; limited = v.limited })
drop-IsWithin p (some (b, rest)) v (all, few) =
    let counted : length rest ≤ p.pool_size = omega (arith, v.counted) in
    (
      record { idle = all; counted = counted; limited = v.limited },
      record { idle = all; counted = counted; limited = v.limited },
    )

int_lt_suc : (n : ℕ) (m : ℤ) → int_ltb (pos n) m ≡ true → int_ltb m (pos (suc n)) ≡ false
int_lt_suc n (pos m) h = ground arith
int_lt_suc n (negsuc m) h = cc

put-IsWithin : (b : Buffer) (p : BufferPool) → IsWithin p → IsWithin (put (some b) p)
unfolding put
put-IsWithin b p v = elim (Bool-cases (int_ltb p.config.max_buffer_size (pos b.cap))) [
  | inl large ↦ rw large (record { idle = v.idle; counted = v.counted; limited = v.limited })
  | inr small ↦ elim (Bool-cases (int_ltb (pos p.pool_size) p.config.max_pool_size)) [
    | inl room ↦
        rw (small, room)
          (record {
            idle = ((refl, small), v.idle);
            counted = omega (arith, v.counted);
            limited = inr (int_lt_suc p.pool_size p.config.max_pool_size room);
          })
    | inr full ↦
        rw (small, full) (record { idle = v.idle; counted = v.counted; limited = v.limited })
  ]
]

perform-IsWithin : (op : Operation) (p : BufferPool) → IsWithin p → IsWithin (perform op p)
unfolding perform get put cleanup
perform-IsWithin (putting none) p v = v
perform-IsWithin (putting (some b)) p v = put-IsWithin b p v
perform-IsWithin cleaning p v = record { idle = tt; counted = omega arith; limited = inl refl }
perform-IsWithin (dropping i) p v =
    (drop-IsWithin p (pick p.pool i) v (pick-IsIdle p.config p.pool i v.idle)).0
perform-IsWithin (getting none) p v = record {
  idle = v.idle;
  counted = v.counted;
  limited = v.limited;
}
perform-IsWithin (getting (some i)) p v =
    let w = (drop-IsWithin p (pick p.pool i) v (pick-IsIdle p.config p.pool i v.idle)).1 in
    record { idle = w.idle; counted = w.counted; limited = w.limited }

run-IsWithin : (ops : List Operation) (p : BufferPool) → IsWithin p → IsWithin (run ops p)
unfolding run
run-IsWithin [] p v = v
run-IsWithin (op ∷ ops) p v = run-IsWithin ops (perform op p) (perform-IsWithin op p v)

taken-config :
    (p : BufferPool) (found : Option (Buffer × List Buffer))
    → ((after_drop p found).config ≡ p.config) × ((taken p found).1.config ≡ p.config)
taken-config p none = (refl, refl)
taken-config p (some (b, rest)) = (refl, refl)

perform-config : (op : Operation) (p : BufferPool) → (perform op p).config ≡ p.config
unfolding perform get put cleanup
perform-config (putting none) p = refl
perform-config (putting (some b)) p = ground arith
perform-config cleaning p = refl
perform-config (dropping i) p = (taken-config p (pick p.pool i)).0
perform-config (getting none) p = refl
perform-config (getting (some i)) p = (taken-config p (pick p.pool i)).1

run-config : (ops : List Operation) (p : BufferPool) → (run ops p).config ≡ p.config
unfolding run
run-config [] p = refl
run-config (op ∷ ops) p = run-config ops (perform op p) ∙ perform-config op p

-- Whatever is done with a new pool by one operation after the other, its configuration stays, every buffer that waits in it is empty and
-- no larger than the largest allowed, there are at most as many as the pool counts, and the count is 0
-- or not above the largest number allowed.
pub pool_is_limited :
    (config : BufferPoolConfig) (ops : List Operation)
    → ((run ops (new_buffer_pool_with_config config)).config ≡ config)
      × IsWithin (run ops (new_buffer_pool_with_config config))
unfolding new_buffer_pool_with_config
pool_is_limited config ops =
    let p = new_buffer_pool_with_config config in
    (
      run-config ops p,
      run-IsWithin ops p (record { idle = tt; counted = omega arith; limited = inl refl }),
    )
