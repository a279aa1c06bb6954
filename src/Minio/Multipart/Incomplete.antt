-- ===== src/Minio/Multipart/Incomplete.antt =====
-- minio/presigned_put_utils.go: `ListIncompleteUploads` and `CleanupIncompleteUploads`. The channel of
-- the listing is the list of what it carries, and a time is the number of its nanoseconds.
use stdlib_lab.Prelude.{
  List, [], ◌∷◌, Option, none, some, Option-cases, Result, ok, err, Result-cases, ℤ, int_ltb, Text,
  ◌≡◌, sym, ap, arith, Bool-cases, inl, inr, if◌then◌else◌,
}
use stdlib_lab.Minio.Multipart.{ObjectStore, UploadError, abort_multipart_upload}

pub record ObjectMultipartInfo : Type 0 where
  pub key : Text
  pub upload_id : Text
  pub initiated : ℤ
  pub failure : Option Text

pub data CleanupError : Type 0 where
  no_connection : CleanupError
  list_failed : Text → CleanupError
  abort_refused : UploadError → CleanupError

-- What the code takes from outside besides the store: the listing and the time before the present one
-- by a duration.
pub record Listing (W : Type 0) : Type 0 where
  pub list_incomplete : Text → Text → W → List ObjectMultipartInfo
  pub time_before : ℤ → W → ℤ

-- The loop over the channel.
unfoldable pub collect : List ObjectMultipartInfo → Result CleanupError (List ObjectMultipartInfo)
collect [] = ok []
collect (upload ∷ uploads) =
    let rest = collect uploads in
    elim upload.failure [
      | some e ↦ err (list_failed e)
      | none ↦ elim rest [ err e ↦ err e | ok found ↦ ok (upload ∷ found) ]
    ]

module _ {W : Type 0} (api : ObjectStore W) (listing : Listing W) (bucket : Text) where
  unfoldable pub list_incomplete_uploads : Text → W → Result CleanupError (List ObjectMultipartInfo)
  list_incomplete_uploads prefix w =
      if api.core w then collect (listing.list_incomplete bucket prefix w) else err no_connection

  -- The loop over the uploads.
  unfoldable pub abort_older : ℤ → List ObjectMultipartInfo → W → Option CleanupError × W
  abort_older cutoff [] w = (none, w)
  abort_older cutoff (upload ∷ uploads) w =
      let (failed, w') = abort_multipart_upload api bucket upload.key upload.upload_id w in
      let after = abort_older cutoff uploads w' in
      let skipped = abort_older cutoff uploads w in
      if int_ltb upload.initiated cutoff
      then elim failed [ some e ↦ (some (abort_refused e), w') | none ↦ after ]
      else skipped

  unfoldable pub cleanup_incomplete_uploads : Text → ℤ → W → Option CleanupError × W
  cleanup_incomplete_uploads prefix older_than w = elim (list_incomplete_uploads prefix w) [
    | err e ↦ (some e, w)
    | ok uploads ↦ abort_older (listing.time_before older_than w) uploads w
  ]

  abbrev pub begun_before : ℤ → List ObjectMultipartInfo → List ObjectMultipartInfo
  begun_before cutoff [] = []
  begun_before cutoff (upload ∷ uploads) =
      if int_ltb upload.initiated cutoff
      then upload ∷ begun_before cutoff uploads
      else begun_before cutoff uploads

  -- The uploads are aborted one after the other, each with success, and nothing else is done.
  pub data Aborted : List ObjectMultipartInfo → W → W → Type 0 where
    all_aborted : {w : W} → Aborted [] w w
    one_aborted :
        {upload : ObjectMultipartInfo} {uploads : List ObjectMultipartInfo} {w w' w'' : W}
        → abort_multipart_upload api bucket upload.key upload.upload_id w ≡ (none, w')
        → Aborted uploads w' w''
        → Aborted (upload ∷ uploads) w w''

  abort_older-Aborted :
      (cutoff : ℤ) (uploads : List ObjectMultipartInfo) (w : W) {w' : W}
      → abort_older cutoff uploads w ≡ (none, w')
      → Aborted (begun_before cutoff uploads) w w'
  unfolding abort_older
  abort_older-Aborted cutoff [] w {w'} h =
      let same : w ≡ w' = ap (λ p. p.1) h in rw (sym same) all_aborted
  abort_older-Aborted cutoff (upload ∷ uploads) w h =
      let step = abort_multipart_upload api bucket upload.key upload.upload_id w in
      elim (Bool-cases (int_ltb upload.initiated cutoff)) [
        | inr younger ↦
            rw younger (abort_older-Aborted cutoff uploads w (rw (abort_older, younger) at h))
        | inl older ↦ elim (Option-cases step.0) [
          | inl succeeded ↦ rw older (
              one_aborted (ap (λ o. (o, step.1)) succeeded) (
                abort_older-Aborted cutoff uploads step.1
                  (rw (abort_older, older, succeeded) at h)))
          | inr (e, failed) ↦ absurd (ground (arith, ap (λ p. p.0) h))
        ]
      ]

  -- A cleanup without an error has listed the uploads and aborted, each with success, those that were
  -- begun before the given duration, in the order of the listing, and has done nothing else.
  pub cleanup_aborts_older :
      (prefix : Text) (older_than : ℤ) (w : W) {w' : W}
      → cleanup_incomplete_uploads prefix older_than w ≡ (none, w')
      → (uploads : List ObjectMultipartInfo) × (list_incomplete_uploads prefix w ≡ ok uploads)
        × Aborted (begun_before (listing.time_before older_than w) uploads) w w'
  unfolding cleanup_incomplete_uploads
  cleanup_aborts_older prefix older_than w h =
      elim (Result-cases (list_incomplete_uploads prefix w)) [
        | inl (e, failed) ↦ absurd (ground (arith, ap (λ p. p.0) h))
        | inr (uploads, listed) ↦ (
          uploads,
          listed,
          abort_older-Aborted (listing.time_before older_than w) uploads w
              (rw (cleanup_incomplete_uploads, listed) at h),
        )
      ]
