-- ===== src/Minio/PartSizes.antt =====
-- minio/presigned_put_utils.go, `updateUploadConfig` and `calculateOptimalPartSize`, with the
-- constants and the `UploadConfig` of minio/configs.go.
use stdlib_lab.Prelude.{
  ℕ, suc, ◌+◌, ◌-◌, ◌*◌, ◌/◌, ℤ, pos, negsuc, int_eqb, ltb, nat_eqb, Text, if◌then◌else◌,
}

abbrev pub min_part_size_for_upload : ℕ
min_part_size_for_upload = 5 * 1024 * 1024

abbrev pub minio_limit_part_count : ℕ
minio_limit_part_count = 10000

abbrev pub max_object_size : ℕ
max_object_size = 5 * 1024 * 1024 * 1024 * 1024

abbrev pub multipart_threshold : ℕ
multipart_threshold = 50 * 1024 * 1024

abbrev pub mib : ℕ
mib = 1024 * 1024

-- `MinPartSize` is a `uint64` that the code converts to `int64` and multiplies by ten: it stands
-- for a value below 2 ^ 59, where neither wraps.
pub record UploadConfig : Type 0 where
  pub max_object_size : ℤ
  pub min_part_size : ℕ
  pub multipart_threshold : ℤ
  pub default_content_type : Text

unfoldable pub update_upload_config : UploadConfig → UploadConfig
update_upload_config cfg = record {
  max_object_size =
      if int_eqb cfg.max_object_size (pos 0) then pos max_object_size else cfg.max_object_size;
  min_part_size =
      if nat_eqb cfg.min_part_size 0 then min_part_size_for_upload else cfg.min_part_size;
  multipart_threshold =
      if int_eqb cfg.multipart_threshold (pos 0)
      then pos multipart_threshold
      else cfg.multipart_threshold;
  default_content_type = cfg.default_content_type;
}

-- `math.Ceil(float64(a) / float64(b))`. The floats give the exact quotient rounded up for a and b
-- below 2 ^ 53: both are exact there, and the rounding error of the quotient is less than 1 / b.
abbrev pub ceil_div : ℕ → ℕ → ℕ
ceil_div a b = (a + b - 1) / b

-- The same for a numerator that may be negative: then rounding up cuts off.
abbrev pub int_ceil_div : ℤ → ℕ → ℤ
int_ceil_div (pos a) b = pos (ceil_div a b)
int_ceil_div (negsuc a) b = if nat_eqb (suc a / b) 0 then pos 0 else negsuc (suc a / b - 1)

unfoldable pub effective_min : UploadConfig → ℕ
effective_min cfg = if ltb 0 cfg.min_part_size then cfg.min_part_size else min_part_size_for_upload

-- The part size of a file that is not small.
unfoldable pub large_part_size : ℕ → ℕ → ℕ
large_part_size min_part_size file_size =
    let rounded = (ceil_div file_size minio_limit_part_count + mib - 1) / mib * mib in
    if ltb rounded min_part_size then min_part_size else rounded

-- The part size and the part count. A negative file size is small.
unfoldable pub calculate_optimal_part_size : UploadConfig → ℤ → ℕ × ℤ
calculate_optimal_part_size cfg (negsuc n) =
    (effective_min cfg, int_ceil_div (negsuc n) (effective_min cfg))
calculate_optimal_part_size cfg (pos n) =
    if ltb n (10 * effective_min cfg)
    then (effective_min cfg, pos (ceil_div n (effective_min cfg)))
    else (
      large_part_size (effective_min cfg) n,
      pos (ceil_div n (large_part_size (effective_min cfg) n)),
    )
