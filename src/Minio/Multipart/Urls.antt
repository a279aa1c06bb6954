-- ===== src/Minio/Multipart/Urls.antt =====
-- What `GenerateMultipartUploadURLs` returns, and what it leaves behind when it fails.
use stdlib_lab.Prelude.{
  ℕ, zero, suc, ◌+◌, ◌*◌, ◌/◌, ◌≤◌, ◌<◌, ◌≡◌, ◌≢◌, nat_eqb_iff, refl, inl, inr, false, List, [],
  ◌∷◌, Result, ok, err, Result-cases, ℤ, pos, negsuc, int_ltb, ltb, nat_eqb, Text, length, arith,
  Bool-cases, ap,
}
use stdlib_lab.Minio.Multipart.{
  ObjectStore, UploadError, negative_parts, MultipartUpload, generate_part_presigned_url,
  presign_parts, initiate_multipart_upload, with_upload, sized_upload,
  generate_multipart_upload_urls, content_type_or_default,
}
use stdlib_lab.Minio.PartSizes.{
  UploadConfig, ceil_div, minio_limit_part_count, effective_min, large_part_size,
  update_upload_config, calculate_optimal_part_size,
}
use stdlib_lab.Minio.Multipart.PartSize.{exact_plan, effective_min_pos}

-- k, k + 1, … : `left` numbers.
abbrev pub count_from : ℕ → ℕ → List ℕ
count_from zero k = []
count_from (suc left) k = k ∷ count_from left (suc k)

length-count_from : (left k : ℕ) → length (count_from left k) ≡ left
length-count_from zero k = refl
length-count_from (suc left) k = ap suc (length-count_from left (suc k))

pub plan_shape :
    (cfg : UploadConfig) (n : ℕ)
    → (part_size : ℕ) × (part_count : ℕ) × (calculate_optimal_part_size cfg (pos n)
        ≡ (part_size, pos part_count))
unfolding calculate_optimal_part_size
plan_shape cfg n = elim (Bool-cases (ltb n (10 * effective_min cfg))) [
  | inl small ↦ (effective_min cfg, ceil_div n (effective_min cfg), rw small)
  | inr big ↦ (
    large_part_size (effective_min cfg) n,
    ceil_div n (large_part_size (effective_min cfg) n),
    rw big,
  )
]

quotient_pos : (a b : ℕ) → 0 < b → b ≤ a → a / b ≢ 0
quotient_pos a b h k = λ e. grind arith

module _ {W : Type 0} (api : ObjectStore W) where
  presign_parts-ok :
      (bucket key upload_id : Text) (expiry : ℤ) (w : W) (left next : ℕ) {urls : List Text}
      {numbers : List ℕ}
      → presign_parts api bucket key upload_id expiry w left next ≡ ok (urls, numbers)
      → (numbers ≡ count_from left next) × (length urls ≡ left)
  unfolding presign_parts
  presign_parts-ok bucket key upload_id expiry w zero next h = ground arith
  presign_parts-ok bucket key upload_id expiry w (suc left) next {urls} {numbers} h =
      elim (Result-cases (generate_part_presigned_url api bucket key upload_id next expiry w)) [
        | inl (e, failed) ↦ absurd (ground arith)
        | inr (url, made) ↦
            elim (Result-cases (presign_parts api bucket key upload_id expiry w left (suc next))) [
              | inl (e, failed) ↦ absurd (ground arith)
              | inr ((us, ns), rest) ↦
                  ground
                    (arith, presign_parts-ok bucket key upload_id expiry w left (suc next) rest)
            ]
      ]

  with_upload-ok :
      (bucket key : Text) (file_size : ℤ) (part_size : ℕ) (expiry : ℤ) (part_count : ℕ)
      (content_type : Text) (started : Result UploadError Text × W) {upload : MultipartUpload}
      → (with_upload api bucket key file_size part_size expiry part_count content_type started).0
        ≡ ok upload
      → (upload.part_numbers ≡ count_from part_count 1)
        × (length upload.presigned_urls ≡ part_count)
        × (upload.recommended_part_size ≡ part_size)
        × (upload.total_size ≡ file_size)
  unfolding with_upload
  with_upload-ok bucket key file_size part_size expiry part_count content_type (err e, w) h = cc
  with_upload-ok bucket key file_size part_size expiry part_count content_type (ok upload_id, w) h =
      elim (Result-cases (presign_parts api bucket key upload_id expiry w part_count 1)) [
        | inl (e, failed) ↦ absurd (ground arith)
        | inr ((urls, numbers), made) ↦
            ground (arith, presign_parts-ok bucket key upload_id expiry w part_count 1 made)
      ]

  sized-ok :
      (cfg : UploadConfig) (bucket key : Text) (file_size : ℤ) (content_type : Text) (expiry : ℤ)
      (part_size part_count : ℕ) (plan : ℕ × ℤ) (w : W) {upload : MultipartUpload}
      → plan ≡ (part_size, pos part_count)
      → (sized_upload api cfg bucket key file_size content_type expiry plan w).0 ≡ ok upload
      → (upload.part_numbers ≡ count_from part_count 1)
        × (length upload.presigned_urls ≡ part_count)
        × (upload.recommended_part_size ≡ part_size)
        × (upload.total_size ≡ file_size)
  unfolding sized_upload
  sized-ok cfg bucket key file_size content_type expiry part_size part_count (s, pos c) w e h =
      let kind = content_type_or_default api cfg content_type in
      ground (
        arith,
        with_upload-ok bucket key file_size s expiry c kind
            (initiate_multipart_upload api bucket key kind w) h,
      )
  sized-ok cfg bucket key file_size content_type expiry part_size part_count (s, negsuc c) w e h =
      absurd (ground arith)

-- On success the parts are numbered 1, 2, …, with one URL for each; together they hold the file,
-- none is left empty, there are at most 10,000, and the size returned is the one asked for.
pub generate-ok :
    {W : Type 0} (api : ObjectStore W) (cfg : UploadConfig) (bucket key : Text) (n : ℕ)
    (content_type : Text) (expiry : ℤ) (w : W) {upload : MultipartUpload}
    → (generate_multipart_upload_urls api cfg bucket key (pos n) content_type expiry w).0
      ≡ ok upload
    → (upload.part_numbers ≡ count_from (length upload.presigned_urls) 1)
      × (n ≤ upload.recommended_part_size * length upload.presigned_urls)
      × (upload.recommended_part_size * length upload.presigned_urls
          < n + upload.recommended_part_size)
      × (length upload.presigned_urls ≤ minio_limit_part_count)
      × (upload.total_size ≡ pos n)
unfolding generate_multipart_upload_urls
generate-ok api cfg bucket key n content_type expiry w {upload} h =
    let (part_size, part_count, plan) = plan_shape (update_upload_config cfg) n in
    let (covers, tight, few, _) =
      exact_plan (update_upload_config cfg) n part_size part_count plan in
    let plan' = calculate_optimal_part_size (update_upload_config cfg) (pos n) in
    elim (Bool-cases (int_ltb (update_upload_config cfg).max_object_size (pos n))) [
      | inl large ↦ absurd (ground arith)
      | inr fits ↦ ground (
        arith,
        sized-ok api (update_upload_config cfg) bucket key (pos n) content_type expiry part_size
            part_count plan' w {upload = upload} plan (ground arith),
      )
    ]

-- A negative file size of at least one minimal part in magnitude is not refused: once the upload is
-- begun, the call panics, and the begun upload stays.
pub negative_size_panics :
    {W : Type 0} (api : ObjectStore W) (cfg : UploadConfig) (bucket key : Text) (n : ℕ)
    (content_type : Text) (expiry : ℤ) (w : W) {upload_id : Text}
    → int_ltb (update_upload_config cfg).max_object_size (negsuc n) ≡ false
    → effective_min (update_upload_config cfg) ≤ suc n
    → (initiate_multipart_upload api bucket key
        (content_type_or_default api (update_upload_config cfg) content_type)
        w).0
      ≡ ok upload_id
    → let (result, _, after) =
        generate_multipart_upload_urls api cfg bucket key (negsuc n) content_type expiry w in
      (result ≡ err negative_parts)
      × (after
          ≡ (initiate_multipart_upload api bucket key
              (content_type_or_default api (update_upload_config cfg) content_type)
              w).1)
unfolding generate_multipart_upload_urls calculate_optimal_part_size
negative_size_panics api cfg bucket key n content_type expiry w fits big begun =
    elim (Bool-cases (nat_eqb (suc n / effective_min (update_upload_config cfg)) 0)) [
      | inl zero_parts ↦ absurd (
          quotient_pos (suc n) (effective_min (update_upload_config cfg))
            (effective_min_pos (update_upload_config cfg)) big ((nat_eqb_iff _ _).0 zero_parts))
      | inr some_parts ↦ ground arith
    ]
