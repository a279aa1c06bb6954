-- ===== src/Minio/Buckets/Again.antt =====
-- A bucket is created once.
use stdlib_lab.Prelude.{true, false, List, ok, Text, ◌≡◌, arith}
use stdlib_lab.Minio.Buckets.{
  BucketOptions, BucketOption, Store, Connection, bucket_exists, create_bucket, all_applied,
}

-- A bucket that was made without an error is there.
pub record IsDurable {W : Type 0} (store : Store W) : Type 0 where
  pub made_exists :
      (bucket : Text) (options : BucketOptions) (w : W)
      → (store.make_bucket bucket options w).0 ≡ ok tt
      → store.bucket_exists bucket (store.make_bucket bucket options w).1 ≡ ok true

-- After `CreateBucket` has succeeded, `BucketExists` says so, and a second `CreateBucket` of the same
-- name, whatever its options, succeeds and leaves the store as it is.
pub create_bucket-create_bucket :
    {W : Type 0} (store : Store W) (c : Connection) (bucket : Text) (opts again : List BucketOption)
    (w : W)
    → IsDurable store
    → (create_bucket store c bucket opts w).0 ≡ ok tt
    → (bucket_exists store c bucket (create_bucket store c bucket opts w).1 ≡ ok true)
      × (create_bucket store c bucket again (create_bucket store c bucket opts w).1
          ≡ (ok tt, (create_bucket store c bucket opts w).1))
unfolding create_bucket bucket_exists
create_bucket-create_bucket store c bucket opts again w durable created =
    let there =
      durable.made_exists bucket
        (all_applied opts (record { region = c.region; object_locking = false })) w in
    ground (arith, there)
