-- ===== src/Minio/Errors/Codes.antt =====
-- minio/errors.go, `translateMinIOError`: the switch on the server's code, and for the codes that it
-- does not know the one on the HTTP status.
use Prim.Native.String.{String}
use text.Mathlib.Text.{◌==◌ as str_eq}
use text.Mathlib.TextEquality.{eq_iff}
use stdlib_lab.Prelude.{ℕ, List, [], ◌∷◌, Key, nat_key}
use stdlib_lab.GoError.Switch.{switch_on}
use stdlib_lab.Minio.Errors.Sentinels.{
  MinioError, access_denied, bucket_already_exists, bucket_not_empty, bucket_not_found,
  configuration_error, cors_error, credentials_expired, invalid_argument, invalid_bucket_name,
  invalid_checksum, invalid_content_type, invalid_credentials, invalid_encryption, invalid_metadata,
  invalid_object_name, invalid_part, invalid_range, invalid_storage_class, invalid_upload_id,
  invalid_version, lifecycle_error, lock_configuration_error, logging_error, malformed_xml,
  network_error, not_implemented, notification_error, object_locked, object_not_found,
  object_too_large, part_too_small, policy_error, precondition_failed, quota_exceeded,
  replication_error, retention_policy_error, server_error, service_unavailable, tagging_error,
  timeout, too_many_requests, unknown_error, website_error,
}

instance abbrev string_key : Key String
string_key = record { matches = str_eq; matches_iff = eq_iff }

unfoldable pub error_codes : List (String × MinioError)
error_codes =
    ("NoSuchBucket", bucket_not_found)
    ∷ ("NoSuchKey", object_not_found)
    ∷ ("BucketAlreadyExists", bucket_already_exists)
    ∷ ("BucketAlreadyOwnedByYou", bucket_already_exists)
    ∷ ("InvalidBucketName", invalid_bucket_name)
    ∷ ("InvalidObjectName", invalid_object_name)
    ∷ ("AccessDenied", access_denied)
    ∷ ("InvalidAccessKeyId", invalid_credentials)
    ∷ ("SignatureDoesNotMatch", invalid_credentials)
    ∷ ("TokenRefreshRequired", credentials_expired)
    ∷ ("ExpiredToken", credentials_expired)
    ∷ ("InvalidRange", invalid_range)
    ∷ ("EntityTooLarge", object_too_large)
    ∷ ("InvalidDigest", invalid_checksum)
    ∷ ("BadDigest", invalid_checksum)
    ∷ ("InvalidArgument", invalid_argument)
    ∷ ("MalformedXML", malformed_xml)
    ∷ ("InvalidStorageClass", invalid_storage_class)
    ∷ ("InvalidPart", invalid_part)
    ∷ ("InvalidPartOrder", invalid_part)
    ∷ ("NoSuchUpload", invalid_upload_id)
    ∷ ("PreconditionFailed", precondition_failed)
    ∷ ("BucketNotEmpty", bucket_not_empty)
    ∷ ("TooManyBuckets", quota_exceeded)
    ∷ ("InvalidRequest", invalid_argument)
    ∷ ("MetadataTooLarge", invalid_metadata)
    ∷ ("InvalidEncryptionAlgorithm", invalid_encryption)
    ∷ ("InvalidObjectState", object_locked)
    ∷ ("ObjectLockConfigurationNotFoundError", lock_configuration_error)
    ∷ ("InvalidRetentionDate", retention_policy_error)
    ∷ ("InvalidVersionId", invalid_version)
    ∷ ("NoSuchVersion", invalid_version)
    ∷ ("InvalidLocationConstraint", configuration_error)
    ∷ ("CrossLocationLoggingProhibited", logging_error)
    ∷ ("InvalidTargetBucketForLogging", logging_error)
    ∷ ("InvalidPolicyDocument", policy_error)
    ∷ ("MalformedPolicy", policy_error)
    ∷ ("InvalidWebsiteConfiguration", website_error)
    ∷ ("InvalidCORSConfiguration", cors_error)
    ∷ ("InvalidNotificationConfiguration", notification_error)
    ∷ ("InvalidLifecycleConfiguration", lifecycle_error)
    ∷ ("InvalidReplicationConfiguration", replication_error)
    ∷ ("ReplicationConfigurationNotFoundError", replication_error)
    ∷ ("InvalidTagError", tagging_error)
    ∷ ("BadRequest", invalid_argument)
    ∷ ("RequestTimeout", timeout)
    ∷ ("EntityTooSmall", part_too_small)
    ∷ ("IncompleteBody", invalid_argument)
    ∷ ("InvalidContentType", invalid_content_type)
    ∷ ("KeyTooLong", invalid_object_name)
    ∷ ("MissingContentLength", invalid_argument)
    ∷ ("MissingRequestBodyError", invalid_argument)
    ∷ ("RequestTimeTooSkewed", invalid_argument)
    ∷ ("SlowDown", too_many_requests)
    ∷ ("TemporaryRedirect", network_error)
    ∷ ("RequestHeaderSectionTooLarge", invalid_argument)
    ∷ ("TooManyRequests", too_many_requests)
    ∷ ("InternalError", server_error)
    ∷ ("ServiceUnavailable", service_unavailable)
    ∷ ("NotImplemented", not_implemented)
    ∷ ("BandwidthLimitExceeded", too_many_requests)
    ∷ ("ReducedRedundancyLostFraction", server_error)
    ∷ ("InsufficientStorage", quota_exceeded)
    ∷ ("XNotImplemented", not_implemented)
    ∷ []

unfoldable pub status_codes : List (ℕ × MinioError)
status_codes =
    (400, invalid_argument)
    ∷ (401, invalid_credentials)
    ∷ (403, access_denied)
    ∷ (404, object_not_found)
    ∷ (409, bucket_already_exists)
    ∷ (412, precondition_failed)
    ∷ (413, object_too_large)
    ∷ (416, invalid_range)
    ∷ (429, too_many_requests)
    ∷ (500, server_error)
    ∷ (501, not_implemented)
    ∷ (503, service_unavailable)
    ∷ []

unfoldable pub translate_status : ℕ → MinioError
unfolding status_codes
translate_status status = switch_on status status_codes unknown_error

unfoldable pub translate_minio_error : String → ℕ → MinioError
unfolding error_codes
translate_minio_error code status = switch_on code error_codes (translate_status status)
