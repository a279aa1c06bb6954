-- ===== src/Minio/Multipart/PartSize.antt =====
-- The sizes that `calculateOptimalPartSize` chooses.
use stdlib_lab.Prelude.{
  ℕ, ◌+◌, ◌-◌, ◌*◌, ◌/◌, ◌≤◌, ◌<◌, ◌^◌, ◌≡◌, inl, inr, pos, ltb, ltb→lt, Bool-cases, arith,
}
use stdlib_lab.Minio.PartSizes.{
  UploadConfig, ceil_div, mib, minio_limit_part_count, effective_min, large_part_size,
  calculate_optimal_part_size,
}

pub ceil_div-covers : (a b : ℕ) → 0 < b → a ≤ b * ceil_div a b
ceil_div-covers a b h = grind arith

pub ceil_div-le : (a b k : ℕ) → 0 < b → a ≤ b * k → ceil_div a b ≤ k
ceil_div-le a b k h c = grind arith

pub ceil_div-tight : (a b : ℕ) → 0 < b → b * ceil_div a b < a + b
ceil_div-tight a b h = grind arith

pub effective_min_pos : (cfg : UploadConfig) → 0 < effective_min cfg
unfolding effective_min
effective_min_pos cfg = ground arith

round_up-le : (x : ℕ) → x ≤ (x + mib - 1) / mib * mib
round_up-le x = omega arith

large_part_size-ge :
    (m n : ℕ)
    → (m ≤ large_part_size m n) × (ceil_div n minio_limit_part_count ≤ large_part_size m n)
unfolding large_part_size
large_part_size-ge m n = ground (arith, round_up-le (ceil_div n minio_limit_part_count))

large_part_count : (m n : ℕ) → 0 < m → ceil_div n (large_part_size m n) ≤ minio_limit_part_count
large_part_count m n h =
    let (ge_min, ge_part) = large_part_size-ge m n in
    ceil_div-le n (large_part_size m n) minio_limit_part_count (omega arith) (omega arith)

-- What the exact quotients give.
pub exact_plan :
    (cfg : UploadConfig) (n part_size part_count : ℕ)
    → calculate_optimal_part_size cfg (pos n) ≡ (part_size, pos part_count)
    → (n ≤ part_size * part_count)
      × (part_size * part_count < n + part_size)
      × (part_count ≤ minio_limit_part_count)
      × (effective_min cfg ≤ part_size)
unfolding calculate_optimal_part_size
exact_plan cfg n part_size part_count e =
    let some_min = effective_min_pos cfg in
    let m = effective_min cfg in
    let large = large_part_size m n in
    let (ge_min, ge_part) = large_part_size-ge m n in
    elim (Bool-cases (ltb n (10 * m))) [
      | inl small ↦
          let same : part_size ≡ m = ground arith in
          let count : part_count ≡ ceil_div n m = ground arith in
          rw (same, count)
            (
              ceil_div-covers n m some_min,
              ceil_div-tight n m some_min,
              omega (arith, ceil_div-le n m 10 some_min (omega (arith, ltb→lt n (10 * m) small))),
              omega arith,
            )
      | inr big ↦
          let same : part_size ≡ large = ground arith in
          let count : part_count ≡ ceil_div n large = ground arith in
          rw (same, count)
            (
              ceil_div-covers n large (omega arith),
              ceil_div-tight n large (omega arith),
              large_part_count m n some_min,
              ge_min,
            )
    ]

-- For a file that is not negative and below 2 ^ 53 bytes and a configured minimum below 2 ^ 53 bytes,
-- where the floats of the code give the quotients of the model: the parts together hold the file,
-- none of them is left empty, there are at most 10,000 of them, and no part is smaller than the
-- configured minimum.
pub part_plan :
    (cfg : UploadConfig) (n part_size part_count : ℕ)
    → n < 2 ^ 53
    → cfg.min_part_size < 2 ^ 53
    → calculate_optimal_part_size cfg (pos n) ≡ (part_size, pos part_count)
    → (n ≤ part_size * part_count)
      × (part_size * part_count < n + part_size)
      × (part_count ≤ minio_limit_part_count)
      × (effective_min cfg ≤ part_size)
part_plan cfg n part_size part_count exact_size exact_min e =
    exact_plan cfg n part_size part_count e
