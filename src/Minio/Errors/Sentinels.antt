-- ===== src/Minio/Errors/Sentinels.antt =====
-- minio/errors.go, the sentinel errors.
use stdlib_lab.Prelude.{ℕ, Bool, Text, codes, nat_eqb}

pub data MinioError : Type 0 where
  object_not_found bucket_not_found bucket_already_exists invalid_bucket_name : MinioError
  invalid_object_name access_denied insufficient_permissions invalid_credentials : MinioError
  credentials_expired connection_failed connection_lost timeout invalid_range : MinioError
  object_too_large invalid_checksum invalid_metadata invalid_content_type : MinioError
  invalid_encryption server_error service_unavailable too_many_requests : MinioError
  invalid_response network_error invalid_url quota_exceeded bucket_not_empty : MinioError
  precondition_failed invalid_part invalid_upload_id part_too_small not_implemented : MinioError
  invalid_argument cancelled configuration_error versioning_not_enabled invalid_version : MinioError
  lock_configuration_error object_locked retention_policy_error malformed_xml : MinioError
  invalid_storage_class replication_error lifecycle_error notification_error : MinioError
  tagging_error policy_error website_error cors_error logging_error encryption_error : MinioError
  unknown_error : MinioError

-- The place in the declaration.
unfoldable pub rank : MinioError → ℕ
rank object_not_found = 0
rank bucket_not_found = 1
rank bucket_already_exists = 2
rank invalid_bucket_name = 3
rank invalid_object_name = 4
rank access_denied = 5
rank insufficient_permissions = 6
rank invalid_credentials = 7
rank credentials_expired = 8
rank connection_failed = 9
rank connection_lost = 10
rank timeout = 11
rank invalid_range = 12
rank object_too_large = 13
rank invalid_checksum = 14
rank invalid_metadata = 15
rank invalid_content_type = 16
rank invalid_encryption = 17
rank server_error = 18
rank service_unavailable = 19
rank too_many_requests = 20
rank invalid_response = 21
rank network_error = 22
rank invalid_url = 23
rank quota_exceeded = 24
rank bucket_not_empty = 25
rank precondition_failed = 26
rank invalid_part = 27
rank invalid_upload_id = 28
rank part_too_small = 29
rank not_implemented = 30
rank invalid_argument = 31
rank cancelled = 32
rank configuration_error = 33
rank versioning_not_enabled = 34
rank invalid_version = 35
rank lock_configuration_error = 36
rank object_locked = 37
rank retention_policy_error = 38
rank malformed_xml = 39
rank invalid_storage_class = 40
rank replication_error = 41
rank lifecycle_error = 42
rank notification_error = 43
rank tagging_error = 44
rank policy_error = 45
rank website_error = 46
rank cors_error = 47
rank logging_error = 48
rank encryption_error = 49
rank unknown_error = 50

-- The text of `errors.New`.
unfoldable pub sentinel_text : MinioError → Text
sentinel_text object_not_found = codes "object not found"
sentinel_text bucket_not_found = codes "bucket not found"
sentinel_text bucket_already_exists = codes "bucket already exists"
sentinel_text invalid_bucket_name = codes "invalid bucket name"
sentinel_text invalid_object_name = codes "invalid object name"
sentinel_text access_denied = codes "access denied"
sentinel_text insufficient_permissions = codes "insufficient permissions"
sentinel_text invalid_credentials = codes "invalid credentials"
sentinel_text credentials_expired = codes "credentials expired"
sentinel_text connection_failed = codes "connection failed"
sentinel_text connection_lost = codes "connection lost"
sentinel_text timeout = codes "operation timeout"
sentinel_text invalid_range = codes "invalid range"
sentinel_text object_too_large = codes "object too large"
sentinel_text invalid_checksum = codes "invalid checksum"
sentinel_text invalid_metadata = codes "invalid metadata"
sentinel_text invalid_content_type = codes "invalid content type"
sentinel_text invalid_encryption = codes "invalid encryption"
sentinel_text server_error = codes "server error"
sentinel_text service_unavailable = codes "service unavailable"
sentinel_text too_many_requests = codes "too many requests"
sentinel_text invalid_response = codes "invalid response"
sentinel_text network_error = codes "network error"
sentinel_text invalid_url = codes "invalid URL"
sentinel_text quota_exceeded = codes "quota exceeded"
sentinel_text bucket_not_empty = codes "bucket not empty"
sentinel_text precondition_failed = codes "precondition failed"
sentinel_text invalid_part = codes "invalid part"
sentinel_text invalid_upload_id = codes "invalid upload ID"
sentinel_text part_too_small = codes "part too small"
sentinel_text not_implemented = codes "operation not implemented"
sentinel_text invalid_argument = codes "invalid argument"
sentinel_text cancelled = codes "operation cancelled"
sentinel_text configuration_error = codes "configuration error"
sentinel_text versioning_not_enabled = codes "versioning not enabled"
sentinel_text invalid_version = codes "invalid version"
sentinel_text lock_configuration_error = codes "lock configuration error"
sentinel_text object_locked = codes "object locked"
sentinel_text retention_policy_error = codes "retention policy error"
sentinel_text malformed_xml = codes "malformed XML"
sentinel_text invalid_storage_class = codes "invalid storage class"
sentinel_text replication_error = codes "replication error"
sentinel_text lifecycle_error = codes "lifecycle error"
sentinel_text notification_error = codes "notification error"
sentinel_text tagging_error = codes "tagging error"
sentinel_text policy_error = codes "policy error"
sentinel_text website_error = codes "website configuration error"
sentinel_text cors_error = codes "CORS configuration error"
sentinel_text logging_error = codes "logging configuration error"
sentinel_text encryption_error = codes "encryption configuration error"
sentinel_text unknown_error = codes "unknown error"

-- Two sentinels are one value: the pointers that `errors.Is` compares.
unfoldable pub same : MinioError → MinioError → Bool
unfolding rank
same a b = nat_eqb (rank a) (rank b)
