-- ===== src/Minio/Buckets.antt =====
-- minio/setup.go: the operations on buckets. What minio-go does with the world `W` is the record Store;
-- a method takes the world and returns it after the call. The logger is left out.
pub mod Again
use stdlib_lab.Prelude.{
  Bool, true, false, List, [], ◌∷◌, map, Option, none, some, Result, ok, err, map_err, ℤ, Text,
  text_eqb, if◌then◌else◌,
}

-- A time is the number of its nanoseconds.
pub record BucketInfo : Type 0 where
  pub name : Text
  pub creation_date : ℤ

pub record BucketOptions : Type 0 where
  pub region : Text
  pub object_locking : Bool

-- `WithRegion` and `WithObjectLocking`.
pub data BucketOption : Type 0 where
  with_region : Text → BucketOption
  with_object_locking : Bool → BucketOption

unfoldable pub applied : BucketOption → BucketOptions → BucketOptions
applied (with_region region) options = record options { region = region }
applied (with_object_locking enabled) options = record options { object_locking = enabled }

abbrev pub all_applied : List BucketOption → BucketOptions → BucketOptions
all_applied [] options = options
all_applied (opt ∷ opts) options = all_applied opts (applied opt options)

pub record Store (W : Type 0) : Type 0 where
  pub bucket_exists : Text → W → Result Text Bool
  pub make_bucket : Text → BucketOptions → W → Result Text (Unit {0}) × W
  pub remove_bucket : Text → W → Result Text (Unit {0}) × W
  pub list_buckets : W → Result Text (List BucketInfo)

pub data BucketError : Type 0 where
  empty_name connection_failed : BucketError
  check_failed create_failed delete_failed list_failed : Text → BucketError

-- Whether the client holds a connection, and the region of its configuration.
pub record Connection : Type 0 where
  pub connected : Bool
  pub region : Text

module _ {W : Type 0} (store : Store W) (c : Connection) where
  unfoldable pub bucket_exists : Text → W → Result BucketError Bool
  bucket_exists bucket w =
      if text_eqb bucket []
      then err empty_name
      else if c.connected
      then map_err check_failed (store.bucket_exists bucket w)
      else err connection_failed

  unfoldable pub create_bucket : Text → List BucketOption → W → Result BucketError (Unit {0}) × W
  create_bucket bucket opts w =
      if text_eqb bucket []
      then (err empty_name, w)
      else if c.connected
      then elim (store.bucket_exists bucket w) [
        | err e ↦ (err (check_failed e), w)
        | ok true ↦ (ok tt, w)
        | ok false ↦
            let (made, w') =
              store.make_bucket bucket
                (all_applied opts (record { region = c.region; object_locking = false })) w in
            (map_err create_failed made, w')
      ]
      else (err connection_failed, w)

  unfoldable pub delete_bucket : Text → W → Result BucketError (Unit {0}) × W
  delete_bucket bucket w =
      if text_eqb bucket []
      then (err empty_name, w)
      else if c.connected
      then (let (removed, w') = store.remove_bucket bucket w in (map_err delete_failed removed, w'))
      else (err connection_failed, w)

  -- The copy of minio-go's list has the same two fields.
  unfoldable pub list_buckets : W → Result BucketError (List BucketInfo)
  list_buckets w =
      if c.connected then map_err list_failed (store.list_buckets w) else err connection_failed
