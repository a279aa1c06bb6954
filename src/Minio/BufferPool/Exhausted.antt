-- ===== src/Minio/BufferPool/Exhausted.antt =====
-- The count of a pool never goes down but by `Cleanup`.
use stdlib_lab.Prelude.{
  ℕ, suc, ◌+◌, Bool, true, false, List, [], ◌∷◌, none, some, pos, int_ltb, ◌≡◌, refl, arith,
  Bool-cases, inl, inr,
}
use stdlib_lab.Minio.BufferPool.{
  BufferPool, get, discard, put, Operation, getting, putting, dropping, cleaning, perform, run,
}

abbrev pub gets : List Operation → ℕ
gets [] = 0
gets (getting place ∷ ops) = suc (gets ops)
gets (_ ∷ ops) = gets ops

abbrev pub cleans : List Operation → Bool
cleans [] = false
cleans (cleaning ∷ ops) = true
cleans (_ ∷ ops) = cleans ops

-- The count has reached its limit, and no buffer is left.
record IsExhausted (p : BufferPool) : Type 0 where
  full : int_ltb (pos p.pool_size) p.config.max_pool_size ≡ false
  empty : p.pool ≡ []

-- What a run leaves of an exhausted pool.
record IsStill (p q : BufferPool) (n : ℕ) : Type 0 where
  exhausted : IsExhausted q
  created : q.total_buffers_created ≡ p.total_buffers_created + n
  reused : q.total_buffers_reused ≡ p.total_buffers_reused + n

perform-IsStill :
    (op : Operation) (p : BufferPool)
    → cleans (op ∷ []) ≡ false
    → IsExhausted p
    → IsStill p (perform op p) (gets (op ∷ []))
unfolding perform get put
perform-IsStill (putting none) p h v = record {
  exhausted = v;
  created = omega arith;
  reused = omega arith;
}
perform-IsStill (putting (some b)) p h v =
    elim (Bool-cases (int_ltb p.config.max_buffer_size (pos b.cap))) [
      | inl large ↦ rw large (discarded v)
      | inr small ↦ rw (small, v.full) (discarded v)
    ]
  where
    discarded : IsExhausted p → IsStill p (discard p) 0
    discarded v = record {
      exhausted = record { full = v.full; empty = v.empty };
      created = omega arith;
      reused = omega arith;
    }
perform-IsStill cleaning p h v = cc
perform-IsStill (dropping i) p h v = rw v.empty (record {
  exhausted = record { full = v.full; empty = refl };
  created = omega arith;
  reused = omega arith;
})
perform-IsStill (getting none) p h v = record {
  exhausted = record { full = v.full; empty = v.empty };
  created = omega arith;
  reused = omega arith;
}
perform-IsStill (getting (some i)) p h v = rw v.empty (record {
  exhausted = record { full = v.full; empty = refl };
  created = omega arith;
  reused = omega arith;
})

gets-cons : (op : Operation) (ops : List Operation) → gets (op ∷ ops) ≡ gets (op ∷ []) + gets ops
gets-cons (getting place) ops = omega arith
gets-cons (putting b) ops = omega arith
gets-cons (dropping i) ops = omega arith
gets-cons cleaning ops = omega arith

cleans-cons :
    (op : Operation) (ops : List Operation)
    → cleans (op ∷ ops) ≡ false
    → (cleans (op ∷ []) ≡ false) × (cleans ops ≡ false)
cleans-cons (getting place) ops h = (refl, h)
cleans-cons (putting b) ops h = (refl, h)
cleans-cons (dropping i) ops h = (refl, h)
cleans-cons cleaning ops h = cc

run-IsStill :
    (ops : List Operation) (p : BufferPool)
    → cleans ops ≡ false
    → IsExhausted p
    → IsStill p (run ops p) (gets ops)
unfolding run
run-IsStill [] p h v = record { exhausted = v; created = omega arith; reused = omega arith }
run-IsStill (op ∷ ops) p h v =
    let (now, later) = cleans-cons op ops h in
    let first = perform-IsStill op p now v in
    let rest = run-IsStill ops (perform op p) later first.exhausted in
    record {
      exhausted = rest.exhausted;
      created = omega (arith, first.created, rest.created, gets-cons op ops);
      reused = omega (arith, first.reused, rest.reused, gets-cons op ops);
    }

-- Once the count has reached its limit and no buffer is left, whatever is done but `Cleanup`: the pool
-- stays empty, however many buffers are put back, and every `Get` creates a buffer and is counted as a
-- reuse.
pub exhausted_for_good :
    (p : BufferPool) (ops : List Operation)
    → int_ltb (pos p.pool_size) p.config.max_pool_size ≡ false
    → p.pool ≡ []
    → cleans ops ≡ false
    → ((run ops p).pool ≡ [])
      × ((run ops p).total_buffers_created ≡ p.total_buffers_created + gets ops)
      × ((run ops p).total_buffers_reused ≡ p.total_buffers_reused + gets ops)
exhausted_for_good p ops full empty h =
    let v = run-IsStill ops p h (record { full = full; empty = empty }) in
    (v.exhausted.empty, v.created, v.reused)
