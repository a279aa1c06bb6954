-- ===== src/Minio/Examples/Cleanup.antt =====
-- A cleanup of three uploads in a store that counts the
-- aborted ones.
use stdlib_lab.Prelude.{
  Text, err, if◌then◌else◌, nat_eqb, ap, arith, Result, ℕ, suc, true, List, [], ◌∷◌, none, ok, ℤ,
  pos, codes, ◌≡◌, refl,
}
use stdlib_lab.Minio.PartSizes.{
  UploadConfig, update_upload_config, calculate_optimal_part_size, effective_min,
}
use stdlib_lab.Minio.Multipart.Leftovers.{Uploads, nothing_left_behind}
use stdlib_lab.Minio.Multipart.{
  generate_multipart_upload_urls, initiate_multipart_upload, with_upload, presign_parts,
  generate_part_presigned_url, part_failed, presign_failed, ObjectStore, abort_multipart_upload,
}
use stdlib_lab.Minio.Multipart.Incomplete.{
  ObjectMultipartInfo, Listing, collect, list_incomplete_uploads, abort_older,
  cleanup_incomplete_uploads, begun_before, Aborted, cleanup_aborts_older,
}

abbrev store : ObjectStore ℕ
store = record {
  core = λ w. true;
  client = λ w. true;
  new_multipart_upload = λ bucket key kind w. (ok [], w);
  presign_part = λ bucket key upload_id part_number expiry w. ok [];
  rebase = λ url. ok url;
  abort_upload = λ bucket key upload_id w. (none, suc w);
  complete_upload = λ bucket key upload_id parts w. (none, w);
  expiry_time = λ expiry w. expiry;
}

abbrev begun_at : ℤ → ObjectMultipartInfo
begun_at time = record { key = codes "k"; upload_id = codes "u"; initiated = time; failure = none }

abbrev three : List ObjectMultipartInfo
three = begun_at (pos 5) ∷ begun_at (pos 30) ∷ begun_at (pos 7) ∷ []

abbrev listing : Listing ℕ
listing = record { list_incomplete = λ bucket prefix w. three; time_before = λ duration w. pos 10 }

two_aborted : cleanup_incomplete_uploads store listing (codes "b") [] (pos 60) 0 ≡ (none, 2)
unfolding cleanup_incomplete_uploads list_incomplete_uploads collect abort_older
    abort_multipart_upload
two_aborted = refl

cleanup_aborts_older_example :
    (uploads : List ObjectMultipartInfo) × (list_incomplete_uploads store listing (codes "b") [] 0
      ≡ ok uploads)
    × Aborted store listing
        (codes "b")
        (begun_before store listing (codes "b") (pos 10) uploads)
        0
        2
cleanup_aborts_older_example =
    cleanup_aborts_older store listing (codes "b") [] (pos 60) 0 two_aborted

abbrev tail : List Text → List Text
tail [] = []
tail (x ∷ xs) = xs

abbrev named : Text → Result Text Text
named id = ok id

new_id : {id : Text} → named (codes "new") ≡ named id → codes "new" ≡ id
new_id h = ground arith

-- A store whose state is the ids of the uploads that are pending, and which presigns the first part only.
abbrev strict : ObjectStore (List Text)
strict = record {
  core = λ w. true;
  client = λ w. true;
  new_multipart_upload = λ bucket key kind w. (ok (codes "new"), codes "new" ∷ w);
  presign_part = λ bucket key upload_id part_number expiry w.
      if nat_eqb part_number 1 then ok [] else err (codes "denied");
  rebase = λ url. ok url;
  abort_upload = λ bucket key upload_id w. (none, tail w);
  complete_upload = λ bucket key upload_id parts w. (none, w);
  expiry_time = λ expiry w. expiry;
}

abbrev strict_uploads : Uploads strict (codes "b") (codes "k")
strict_uploads = record {
  pending = λ w. w;
  begun = λ kind w h. ap (λ id. id ∷ w) (new_id h);
  refused = λ kind w h. cc;
  aborted = λ upload_id w others h aborted. ap tail h;
}

abbrev defaults : UploadConfig
defaults = record {
  max_object_size = pos 0;
  min_part_size = 0;
  multipart_threshold = pos 0;
  default_content_type = [];
}

denied :
    (generate_multipart_upload_urls strict defaults
      (codes "b")
      (codes "k")
      (pos 12582912)
      []
      (pos 60)
      (codes "old" ∷ [])).0
    ≡ err (part_failed 2 (presign_failed (codes "denied")))
unfolding generate_multipart_upload_urls update_upload_config calculate_optimal_part_size
    effective_min initiate_multipart_upload with_upload presign_parts generate_part_presigned_url
denied = refl

nothing_left_behind_example :
    (generate_multipart_upload_urls strict defaults
      (codes "b")
      (codes "k")
      (pos 12582912)
      []
      (pos 60)
      (codes "old" ∷ [])).2
    ≡ codes "old" ∷ []
nothing_left_behind_example =
    nothing_left_behind strict_uploads (λ w. refl) (λ upload_id w. refl) defaults 12582912 []
      (pos 60) (codes "old" ∷ []) denied
