-- ===== src/Minio/Errors/Messages.antt =====
-- minio/errors.go, `translateByErrorMessage`: the cases in order. A case with several texts wants
-- all of them in the message.
use stdlib_lab.Prelude.{List, [], ◌∷◌, Option, Text, codes}
use stdlib_lab.GoError.Switch.{switch_contains}
use stdlib_lab.Minio.Errors.Sentinels.{
  MinioError, access_denied, bucket_already_exists, bucket_not_empty, bucket_not_found, cancelled,
  connection_failed, connection_lost, credentials_expired, invalid_argument, invalid_bucket_name,
  invalid_checksum, invalid_credentials, invalid_object_name, invalid_part, invalid_range,
  invalid_upload_id, invalid_version, lock_configuration_error, malformed_xml, network_error,
  object_locked, object_not_found, object_too_large, part_too_small, quota_exceeded,
  retention_policy_error, server_error, service_unavailable, timeout, too_many_requests,
  versioning_not_enabled,
}

unfoldable pub message_cases : List (List Text × MinioError)
message_cases =
    (codes "connection refused" ∷ [], connection_failed)
    ∷ (codes "connection reset" ∷ [], connection_lost)
    ∷ (codes "connection timeout" ∷ [], timeout)
    ∷ (codes "connection failed" ∷ [], connection_failed)
    ∷ (codes "network is unreachable" ∷ [], network_error)
    ∷ (codes "no route to host" ∷ [], network_error)
    ∷ (codes "host is down" ∷ [], network_error)
    ∷ (codes "timeout" ∷ [], timeout)
    ∷ (codes "deadline exceeded" ∷ [], timeout)
    ∷ (codes "request timeout" ∷ [], timeout)
    ∷ (codes "client timeout" ∷ [], timeout)
    ∷ (codes "bucket does not exist" ∷ [], bucket_not_found)
    ∷ (codes "bucket not found" ∷ [], bucket_not_found)
    ∷ (codes "key does not exist" ∷ [], object_not_found)
    ∷ (codes "object not found" ∷ [], object_not_found)
    ∷ (codes "no such bucket" ∷ [], bucket_not_found)
    ∷ (codes "no such key" ∷ [], object_not_found)
    ∷ (codes "bucket already exists" ∷ [], bucket_already_exists)
    ∷ (codes "bucket not empty" ∷ [], bucket_not_empty)
    ∷ (codes "access denied" ∷ [], access_denied)
    ∷ (codes "forbidden" ∷ [], access_denied)
    ∷ (codes "unauthorized" ∷ [], invalid_credentials)
    ∷ (codes "invalid credentials" ∷ [], invalid_credentials)
    ∷ (codes "signature mismatch" ∷ [], invalid_credentials)
    ∷ (codes "invalid access key" ∷ [], invalid_credentials)
    ∷ (codes "expired token" ∷ [], credentials_expired)
    ∷ (codes "token expired" ∷ [], credentials_expired)
    ∷ (codes "invalid checksum" ∷ [], invalid_checksum)
    ∷ (codes "bad digest" ∷ [], invalid_checksum)
    ∷ (codes "entity too large" ∷ [], object_too_large)
    ∷ (codes "file too large" ∷ [], object_too_large)
    ∷ (codes "invalid range" ∷ [], invalid_range)
    ∷ (codes "invalid part" ∷ [], invalid_part)
    ∷ (codes "part too small" ∷ [], part_too_small)
    ∷ (codes "invalid upload id" ∷ [], invalid_upload_id)
    ∷ (codes "malformed xml" ∷ [], malformed_xml)
    ∷ (codes "invalid xml" ∷ [], malformed_xml)
    ∷ (codes "internal server error" ∷ [], server_error)
    ∷ (codes "service unavailable" ∷ [], service_unavailable)
    ∷ (codes "server error" ∷ [], server_error)
    ∷ (codes "bad gateway" ∷ [], server_error)
    ∷ (codes "gateway timeout" ∷ [], timeout)
    ∷ (codes "too many requests" ∷ [], too_many_requests)
    ∷ (codes "rate limit" ∷ [], too_many_requests)
    ∷ (codes "slow down" ∷ [], too_many_requests)
    ∷ (codes "invalid bucket name" ∷ [], invalid_bucket_name)
    ∷ (codes "invalid object name" ∷ [], invalid_object_name)
    ∷ (codes "invalid key name" ∷ [], invalid_object_name)
    ∷ (codes "invalid argument" ∷ [], invalid_argument)
    ∷ (codes "invalid request" ∷ [], invalid_argument)
    ∷ (codes "bad request" ∷ [], invalid_argument)
    ∷ (codes "quota exceeded" ∷ [], quota_exceeded)
    ∷ (codes "insufficient storage" ∷ [], quota_exceeded)
    ∷ (codes "storage quota" ∷ [], quota_exceeded)
    ∷ (codes "canceled" ∷ [], cancelled)
    ∷ (codes "cancelled" ∷ [], cancelled)
    ∷ (codes "context canceled" ∷ [], cancelled)
    ∷ (codes "context cancelled" ∷ [], cancelled)
    ∷ (codes "invalid version" ∷ [], invalid_version)
    ∷ (codes "no such version" ∷ [], invalid_version)
    ∷ (codes "versioning not enabled" ∷ [], versioning_not_enabled)
    ∷ (codes "object locked" ∷ [], object_locked)
    ∷ (codes "retention policy" ∷ [], retention_policy_error)
    ∷ (codes "lock configuration" ∷ [], lock_configuration_error)
    ∷ []

-- `none` where the default returns the original error.
unfoldable pub translate_by_error_message : Text → Option MinioError
unfolding message_cases
translate_by_error_message msg = switch_contains msg message_cases
