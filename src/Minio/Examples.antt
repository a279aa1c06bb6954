-- ===== src/Minio/Examples.antt =====
-- The MinIO error functions and the multipart uploads on concrete values: an upload of twelve MiB to
-- a store that counts the calls made of it.
mod Pool
mod Downloads
mod Reconnecting
mod Cleanup
mod Objects
use stdlib_lab.Prelude.{
  ℕ, suc, ◌+◌, ◌*◌, ◌≤◌, ◌<◌, ◌≡◌, refl, true, List, [], ◌∷◌, none, some, ok, err, ℤ, pos, negsuc,
  Text, codes, arith,
}
use stdlib_lab.GoError.{GoError, leaf, wrap}
use stdlib_lab.Minio.Errors.{Leaf, response, translate_error}
use stdlib_lab.Minio.Errors.Laws.{translate_error-translate_error}
use stdlib_lab.Minio.Multipart.{
  ObjectStore, MultipartUpload, part_failed, presign_failed, negative_parts,
  generate_multipart_upload_urls, with_upload, presign_parts, generate_part_presigned_url,
  abort_multipart_upload, initiate_multipart_upload, completed, complete_multipart_upload, pair,
  content_type_or_default,
}
use stdlib_lab.Minio.PartSizes.{
  UploadConfig, minio_limit_part_count, effective_min, update_upload_config,
  calculate_optimal_part_size,
}
use stdlib_lab.Minio.Multipart.PartSize.{part_plan}
use stdlib_lab.Minio.Multipart.Urls.{count_from, generate-ok, negative_size_panics}
use stdlib_lab.Minio.Multipart.Complete.{IsSorted, complete_sends_in_order}
use mathlib.Core.List.{Perm}

abbrev x : Text
x = codes "x"

abbrev config : UploadConfig
config = record {
  max_object_size = pos 0;
  min_part_size = 0;
  multipart_threshold = pos 0;
  default_content_type = [];
}

abbrev store : ObjectStore ℕ
store = record {
  core = λ w. true;
  client = λ w. true;
  new_multipart_upload = λ bucket key kind w. (ok x, suc w);
  presign_part = λ bucket key upload_id part_number expiry w. ok x;
  rebase = λ url. ok url;
  abort_upload = λ bucket key upload_id w. (none, suc w);
  complete_upload = λ bucket key upload_id parts w. (none, suc w);
  expiry_time = λ expiry w. expiry;
}

abbrev slow_down : GoError Leaf
slow_down = wrap x (leaf (response "SlowDown" 503 x))

part_plan_example :
    (12582912 ≤ 5242880 * 3)
    × (5242880 * 3 < 12582912 + 5242880)
    × (3 ≤ minio_limit_part_count)
    × (effective_min config ≤ 5242880)
unfolding calculate_optimal_part_size effective_min
part_plan_example = part_plan config 12582912 5242880 3 (omega arith) (omega arith) refl

abbrev three_parts : MultipartUpload
three_parts = record {
  upload_id = x;
  object_key = x;
  presigned_urls = x ∷ x ∷ x ∷ [];
  part_numbers = 1 ∷ 2 ∷ 3 ∷ [];
  expires_at = pos 60;
  recommended_part_size = 5242880;
  max_parts = 10000;
  content_type = x;
  total_size = pos 12582912;
}

generate-ok_example :
    (three_parts.part_numbers ≡ count_from 3 1)
    × (12582912 ≤ 5242880 * 3)
    × (5242880 * 3 < 12582912 + 5242880)
    × (3 ≤ minio_limit_part_count)
    × (pos 12582912 ≡ pos 12582912)
unfolding generate_multipart_upload_urls update_upload_config calculate_optimal_part_size
    effective_min initiate_multipart_upload with_upload presign_parts generate_part_presigned_url
generate-ok_example = generate-ok store config x x 12582912 x (pos 60) 0 {upload = three_parts} refl

complete_sends_in_order_example :
    (parts : List (ℤ × Text)) × IsSorted parts
    × Perm parts (pair (pos 2 ∷ pos 1 ∷ []) (x ∷ [] ∷ []))
    × (complete_multipart_upload store x x x (pos 2 ∷ pos 1 ∷ []) (x ∷ [] ∷ []) 0
        ≡ completed store (store.complete_upload x x x parts 0))
complete_sends_in_order_example =
    complete_sends_in_order store x x x (pos 2 ∷ pos 1 ∷ []) (x ∷ [] ∷ []) 0 refl (λ e. cc) refl
