-- ===== src/Minio/Multipart.antt =====
-- minio/presigned_put_utils.go: multipart uploads through
-- presigned URLs. A method takes the client's upload configuration, which it may fill in, and the
-- state `W` of the store and of the connection; minio-go, net/url and the clock are parameters.
pub mod PartSize
pub mod Urls
pub mod Leftovers
pub mod Complete
pub mod Incomplete
use stdlib_lab.Prelude.{
  ℕ, zero, suc, ◌+◌, ◌-◌, ◌*◌, ◌/◌, Bool, true, false, List, [], ◌∷◌, Option, none, some, Result,
  ok, err, ℤ, pos, negsuc, int_ltb, int_eqb, ltb, leb, nat_eqb, Text, codes, text_eqb, length, not,
  ◌||◌, if◌then◌else◌,
}
use stdlib_lab.Minio.PartSizes.{
  minio_limit_part_count, max_object_size, UploadConfig, update_upload_config,
  calculate_optimal_part_size,
}

-- What the code takes from outside. `core` and `client` say whether the two pointers are set;
-- `rebase` is `urlGenerator`, over net/url, with the configured base URL, or the URL as it is.
pub record ObjectStore (W : Type 0) : Type 0 where
  pub core : W → Bool
  pub client : W → Bool
  pub new_multipart_upload : Text → Text → Text → W → Result Text Text × W
  pub presign_part : Text → Text → Text → ℕ → ℤ → W → Result Text Text
  pub rebase : Text → Result Text Text
  pub abort_upload : Text → Text → Text → W → Option Text × W
  pub complete_upload : Text → Text → Text → List (ℤ × Text) → W → Option Text × W
  pub expiry_time : ℤ → W → ℤ

-- The errors of these methods; `negative_parts` is the panic of `make` at a negative length.
pub data UploadError : Type 0 where
  connection_failed no_parts negative_parts : UploadError
  too_large : ℤ → ℤ → UploadError
  initiate_failed presign_failed rebase_failed abort_failed complete_failed : Text → UploadError
  part_failed : ℕ → UploadError → UploadError
  initiate_refused : UploadError → UploadError
  mismatched : ℕ → ℕ → UploadError

pub record MultipartUpload : Type 0 where
  pub upload_id : Text
  pub object_key : Text
  pub presigned_urls : List Text
  pub part_numbers : List ℕ
  pub expires_at : ℤ
  pub recommended_part_size : ℕ
  pub max_parts : ℕ
  pub content_type : Text
  pub total_size : ℤ

-- The parts as pairs of a number and its ETag.
unfoldable pub pair : List ℤ → List Text → List (ℤ × Text)
pair (n ∷ ns) (e ∷ es) = (n, e) ∷ pair ns es
pair _ _ = []

unfoldable pub insert_part : ℤ × Text → List (ℤ × Text) → List (ℤ × Text)
insert_part p [] = p ∷ []
insert_part p (q ∷ rest) = if int_ltb q.0 p.0 then q ∷ insert_part p rest else p ∷ q ∷ rest

-- `sort.Slice` by part number, as an insertion sort. The parts of one number, which `sort.Slice`
-- may leave in any order, keep theirs.
unfoldable pub sort_parts : List (ℤ × Text) → List (ℤ × Text)
unfolding insert_part
sort_parts [] = []
sort_parts (p ∷ rest) = insert_part p (sort_parts rest)

module _ {W : Type 0} (api : ObjectStore W) where
  initiated : Result Text Text × W → Result UploadError Text × W
  initiated (err e, w) = (err (initiate_failed e), w)
  initiated (ok upload_id, w) = (ok upload_id, w)

  unfoldable pub initiate_multipart_upload : Text → Text → Text → W → Result UploadError Text × W
  unfolding initiated
  initiate_multipart_upload bucket key content_type w =
      if api.core w
      then initiated (
          api.new_multipart_upload bucket key
            (if text_eqb content_type [] then codes "application/octet-stream" else content_type) w)
      else (err connection_failed, w)

  unfoldable pub generate_part_presigned_url :
      Text → Text → Text → ℕ → ℤ → W → Result UploadError Text
  generate_part_presigned_url bucket key upload_id part_number expiry w =
      if api.client w
      then elim (api.presign_part bucket key upload_id part_number expiry w) [
        | err e ↦ err (presign_failed e)
        | ok url ↦ elim (api.rebase url) [ err e ↦ err (rebase_failed e) | ok final ↦ ok final ]
      ]
      else err connection_failed

  aborted : Option Text × W → Option UploadError × W
  aborted (some e, w) = (some (abort_failed e), w)
  aborted (none, w) = (none, w)

  unfoldable pub abort_multipart_upload : Text → Text → Text → W → Option UploadError × W
  unfolding aborted
  abort_multipart_upload bucket key upload_id w =
      if api.core w
      then aborted (api.abort_upload bucket key upload_id w)
      else (some connection_failed, w)

  -- The loop over the parts: `left` more, the next of number `part_number`.
  unfoldable pub presign_parts :
      Text → Text → Text → ℤ → W → ℕ → ℕ → Result UploadError (List Text × List ℕ)
  presign_parts bucket key upload_id expiry w zero part_number = ok ([], [])
  presign_parts bucket key upload_id expiry w (suc left) part_number =
      let rest = presign_parts bucket key upload_id expiry w left (suc part_number) in
      elim (generate_part_presigned_url bucket key upload_id part_number expiry w) [
        | err e ↦ err (part_failed part_number e)
        | ok url ↦ elim rest [
          | err e ↦ err e
          | ok (urls, numbers) ↦ ok (url ∷ urls, part_number ∷ numbers)
        ]
      ]

  -- From the new upload on; a part whose URL cannot be made aborts the upload.
  unfoldable pub with_upload :
      Text
      → Text
      → ℤ
      → ℕ
      → ℤ
      → ℕ
      → Text
      → Result UploadError Text × W
      → Result UploadError MultipartUpload × W
  unfolding abort_multipart_upload
  with_upload bucket key file_size part_size expiry part_count content_type (err e, w) =
      (err (initiate_refused e), w)
  with_upload bucket key file_size part_size expiry part_count content_type (ok upload_id, w) =
      elim (presign_parts bucket key upload_id expiry w part_count 1) [
        | err e ↦ (err e, (abort_multipart_upload bucket key upload_id w).1)
        | ok (urls, numbers) ↦ (
          ok (record {
            upload_id = upload_id;
            object_key = key;
            presigned_urls = urls;
            part_numbers = numbers;
            expires_at = api.expiry_time expiry w;
            recommended_part_size = part_size;
            max_parts = minio_limit_part_count;
            content_type = content_type;
            total_size = file_size;
          }),
          w,
        )
      ]

  abbrev pub content_type_or_default : UploadConfig → Text → Text
  content_type_or_default cfg content_type =
      if text_eqb content_type []
      then if text_eqb cfg.default_content_type []
        then codes "application/octet-stream"
        else cfg.default_content_type
      else content_type

  sized_upload :
      UploadConfig → Text → Text → ℤ → Text → ℤ → ℕ × ℤ → W → Result UploadError MultipartUpload × W
  unfolding initiate_multipart_upload with_upload
  sized_upload cfg bucket key file_size content_type expiry (part_size, pos part_count) w =
      let kind = content_type_or_default cfg content_type in
      with_upload bucket key file_size part_size expiry part_count kind
        (initiate_multipart_upload bucket key kind w)
  sized_upload cfg bucket key file_size content_type expiry (part_size, negsuc n) w =
      elim (initiate_multipart_upload bucket key (content_type_or_default cfg content_type) w).0 [
        | err e ↦ (
          err (initiate_refused e),
          (initiate_multipart_upload bucket key (content_type_or_default cfg content_type) w).1,
        )
        | ok upload_id ↦ (
          err negative_parts,
          (initiate_multipart_upload bucket key (content_type_or_default cfg content_type) w).1,
        )
      ]

  -- `expiry` is the duration after its default is put in. The configuration is filled in first.
  unfoldable pub generate_multipart_upload_urls :
      UploadConfig
      → Text
      → Text
      → ℤ
      → Text
      → ℤ
      → W
      → Result UploadError MultipartUpload × UploadConfig × W
  unfolding sized_upload
  generate_multipart_upload_urls cfg bucket key file_size content_type expiry w =
      let filled = update_upload_config cfg in
      if int_ltb filled.max_object_size file_size
      then (err (too_large file_size filled.max_object_size), filled, w)
      else let result =
          sized_upload filled bucket key file_size content_type expiry
            (calculate_optimal_part_size filled file_size) w in
        (result.0, filled, result.1)

  abbrev pub completed : Option Text × W → Option UploadError × W
  completed (some e, w) = (some (complete_failed e), w)
  completed (none, w) = (none, w)

  -- The parts are sent sorted by their numbers.
  unfoldable pub complete_multipart_upload :
      Text → Text → Text → List ℤ → List Text → W → Option UploadError × W
  complete_multipart_upload bucket key upload_id part_numbers etags w =
      if nat_eqb (length part_numbers) 0 || nat_eqb (length etags) 0
      then (some no_parts, w)
      else if not (nat_eqb (length part_numbers) (length etags))
      then (some (mismatched (length part_numbers) (length etags)), w)
      else if api.core w
      then completed
          (api.complete_upload bucket key upload_id (sort_parts (pair part_numbers etags)) w)
      else (some connection_failed, w)
