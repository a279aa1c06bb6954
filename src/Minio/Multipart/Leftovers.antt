-- ===== src/Minio/Multipart/Leftovers.antt =====
-- What a failed `GenerateMultipartUploadURLs` leaves in the store.
use stdlib_lab.Prelude.{
  ℕ, true, List, [], ◌∷◌, none, ok, err, Result-cases, Bool-cases, inl, inr, ℤ, pos, int_ltb, Text,
  codes, text_eqb, if◌then◌else◌, ◌≡◌, arith,
}
use stdlib_lab.Minio.PartSizes.{UploadConfig, update_upload_config}
use stdlib_lab.Minio.Multipart.{
  ObjectStore, UploadError, presign_parts, initiate_multipart_upload, abort_multipart_upload,
  with_upload, sized_upload, generate_multipart_upload_urls, content_type_or_default,
}
use stdlib_lab.Minio.Multipart.Urls.{plan_shape}

-- The ids of the uploads that are begun and neither completed nor aborted, the latest first: a new upload
-- is one more if it gives no error, and an abort without an error takes its upload away.
pub record Uploads {W : Type 0} (api : ObjectStore W) (bucket key : Text) : Type 0 where
  pub pending : W → List Text
  pub begun :
      (kind : Text) (w : W) {upload_id : Text}
      → (api.new_multipart_upload bucket key kind w).0 ≡ ok upload_id
      → pending (api.new_multipart_upload bucket key kind w).1 ≡ upload_id ∷ pending w
  pub refused :
      (kind : Text) (w : W) {e : Text}
      → (api.new_multipart_upload bucket key kind w).0 ≡ err e
      → pending (api.new_multipart_upload bucket key kind w).1 ≡ pending w
  pub aborted :
      (upload_id : Text) (w : W) (others : List Text)
      → pending w ≡ upload_id ∷ others
      → (api.abort_upload bucket key upload_id w).0 ≡ none
      → pending (api.abort_upload bucket key upload_id w).1 ≡ others

module _ {W : Type 0} {api : ObjectStore W} {bucket key : Text} (uploads : Uploads api bucket key)
    (lasts : (w : W) → api.core w ≡ true)
    (aborts : (upload_id : Text) (w : W) → (api.abort_upload bucket key upload_id w).0 ≡ none) where
  initiate-begun :
      (kind : Text) (w : W) {upload_id : Text}
      → (initiate_multipart_upload api bucket key kind w).0 ≡ ok upload_id
      → uploads.pending (initiate_multipart_upload api bucket key kind w).1
        ≡ upload_id ∷ uploads.pending w
  unfolding initiate_multipart_upload
  initiate-begun kind w h =
      let asked = if text_eqb kind [] then codes "application/octet-stream" else kind in
      elim (Result-cases (api.new_multipart_upload bucket key asked w).0) [
        | inl (e, failed) ↦ absurd (ground (arith, lasts w))
        | inr (made, begun) ↦ ground (arith, lasts w, uploads.begun asked w begun)
      ]

  initiate-refused :
      (kind : Text) (w : W) {e : UploadError}
      → (initiate_multipart_upload api bucket key kind w).0 ≡ err e
      → uploads.pending (initiate_multipart_upload api bucket key kind w).1 ≡ uploads.pending w
  unfolding initiate_multipart_upload
  initiate-refused kind w h =
      let asked = if text_eqb kind [] then codes "application/octet-stream" else kind in
      elim (Result-cases (api.new_multipart_upload bucket key asked w).0) [
        | inl (e, failed) ↦ ground (arith, lasts w, uploads.refused asked w failed)
        | inr (made, begun) ↦ absurd (ground (arith, lasts w))
      ]

  abort-pending :
      (upload_id : Text) (w : W) (others : List Text)
      → uploads.pending w ≡ upload_id ∷ others
      → uploads.pending (abort_multipart_upload api bucket key upload_id w).1 ≡ others
  unfolding abort_multipart_upload
  abort-pending upload_id w others h =
      ground (arith, lasts w, aborts upload_id w, uploads.aborted upload_id w others h)

  -- Where the connection lasts and the store aborts what it is asked to, a call that fails for a file
  -- that is not negative, at whatever point, leaves no upload behind: the uploads that are pending are
  -- those from before the call.
  pub nothing_left_behind :
      (cfg : UploadConfig) (n : ℕ) (content_type : Text) (expiry : ℤ) (w : W) {e : UploadError}
      → (generate_multipart_upload_urls api cfg bucket key (pos n) content_type expiry w).0 ≡ err e
      → uploads.pending
          (generate_multipart_upload_urls api cfg bucket key (pos n) content_type expiry w).2
        ≡ uploads.pending w
  unfolding generate_multipart_upload_urls sized_upload with_upload
  nothing_left_behind cfg n content_type expiry w h =
      let filled = update_upload_config cfg in
      let kind = content_type_or_default api filled content_type in
      let (part_size, part_count, plan) = plan_shape filled n in
      elim (Bool-cases (int_ltb filled.max_object_size (pos n))) [
        | inl large ↦ ground arith
        | inr fits ↦ elim (Result-cases (initiate_multipart_upload api bucket key kind w).0) [
          | inl (e, failed) ↦ ground (arith, plan, initiate-refused kind w failed)
          | inr (upload_id, begun) ↦
              let before = initiate-begun kind w begun in
              let after = (initiate_multipart_upload api bucket key kind w).1 in
              elim (Result-cases
                (presign_parts api bucket key upload_id expiry after part_count 1)) [
                  | inl (e, failed) ↦
                      ground (arith, plan, abort-pending upload_id after (uploads.pending w) before)
                  | inr (made, signed) ↦ absurd (ground (arith, plan))
                ]
        ]
      ]
