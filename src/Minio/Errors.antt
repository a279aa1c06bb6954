-- ===== src/Minio/Errors.antt =====
-- minio/errors.go: `TranslateError`, `GetErrorCategory` and the three predicates. A leaf of an error
-- is a sentinel of this package, a server's reply with its code and status, a `url.Error` with the
-- operation that failed, or any other error with its text.
pub mod Sentinels
pub mod Messages
pub mod Codes
pub mod Laws
use Prim.Native.String.{String}
use stdlib_lab.Prelude.{
  ℕ, Bool, true, false, ◌||◌, List, [], ◌∷◌, Option, none, some, Text, codes, any, to_lower,
  contains, text_eqb, if◌then◌else◌,
}
use stdlib_lab.GoError.{GoError, leaf, is_error, as_error, error_text}
use stdlib_lab.GoError.Switch.{switch_any}
use stdlib_lab.Minio.Errors.Codes.{translate_minio_error}
use stdlib_lab.Minio.Errors.Messages.{translate_by_error_message}
use stdlib_lab.Minio.Errors.Sentinels.{
  MinioError, same, sentinel_text, access_denied, bucket_already_exists, bucket_not_empty,
  bucket_not_found, cancelled, configuration_error, connection_failed, connection_lost,
  credentials_expired, insufficient_permissions, invalid_argument, invalid_bucket_name,
  invalid_checksum, invalid_content_type, invalid_credentials, invalid_metadata,
  invalid_object_name, invalid_range, invalid_response, invalid_storage_class, invalid_url,
  invalid_version, lock_configuration_error, malformed_xml, network_error, not_implemented,
  object_locked, object_not_found, object_too_large, quota_exceeded, retention_policy_error,
  server_error, service_unavailable, timeout, too_many_requests, versioning_not_enabled,
}

pub data Leaf : Type 0 where
  sentinel : MinioError → Leaf
  response : String → ℕ → Text → Leaf
  url_error : Text → Text → Leaf
  other : Text → Leaf

abbrev pub leaf_text : Leaf → Text
leaf_text (sentinel s) = sentinel_text s
leaf_text (response code status text) = text
leaf_text (url_error op text) = text
leaf_text (other text) = text

-- `errors.Is(err, s)` for a sentinel `s` of the package.
leaf_is : MinioError → Leaf → Bool
unfolding same
leaf_is s (sentinel t) = same s t
leaf_is s _ = false

unfoldable pub is_sentinel : GoError Leaf → MinioError → Bool
unfolding leaf_is
is_sentinel err s = is_error (leaf_is s) err

abbrev pub leaf_response : Leaf → Option (String × ℕ)
leaf_response (response code status text) = some (code, status)
leaf_response _ = none

abbrev pub leaf_url : Leaf → Option (Text × Text)
leaf_url (url_error op text) = some (op, text)
leaf_url _ = none

unfoldable pub translate_url_error : Text → Text → MinioError
translate_url_error op text =
    if text_eqb op (codes "dial")
    then connection_failed
    else if text_eqb op (codes "read")
    then connection_lost
    else if text_eqb op (codes "write")
    then connection_lost
    else if contains text (codes "timeout")
    then timeout
    else if contains text (codes "connection refused")
    then connection_failed
    else if contains text (codes "connection reset")
    then connection_lost
    else network_error

-- The error that the fallback on the lower case of the text gives.
by_message : GoError Leaf → GoError Leaf
by_message err = elim (translate_by_error_message (to_lower (error_text leaf_text err))) [
  | some s ↦ leaf (sentinel s)
  | none ↦ err
]

by_url_or_message : GoError Leaf → GoError Leaf
unfolding by_message
by_url_or_message err = elim (as_error leaf_url err) [
  | some (op, text) ↦ leaf (sentinel (translate_url_error op text))
  | none ↦ by_message err
]

translate_present : GoError Leaf → GoError Leaf
unfolding by_url_or_message
translate_present err = elim (as_error leaf_response err) [
  | some (code, status) ↦ leaf (sentinel (translate_minio_error code status))
  | none ↦ by_url_or_message err
]

unfoldable pub translate_error : Option (GoError Leaf) → Option (GoError Leaf)
unfolding translate_present
translate_error none = none
translate_error (some err) = some (translate_present err)

pub data Category : Type 0 where
  category_unknown category_connection category_authentication category_permission : Category
  category_not_found category_conflict category_validation category_server : Category
  category_network category_timeout category_quota category_configuration : Category
  category_versioning category_locking category_operation : Category

unfoldable pub category_cases : List (List MinioError × Category)
category_cases =
    (connection_failed ∷ connection_lost ∷ [], category_connection)
    ∷ (invalid_credentials ∷ credentials_expired ∷ [], category_authentication)
    ∷ (access_denied ∷ insufficient_permissions ∷ [], category_permission)
    ∷ (object_not_found ∷ bucket_not_found ∷ [], category_not_found)
    ∷ (bucket_already_exists ∷ bucket_not_empty ∷ [], category_conflict)
    ∷ (
      invalid_bucket_name ∷ invalid_object_name ∷ invalid_argument ∷ invalid_range
          ∷ invalid_checksum ∷ invalid_metadata ∷ invalid_content_type ∷ malformed_xml ∷ [],
      category_validation,
    )
    ∷ (server_error ∷ service_unavailable ∷ invalid_response ∷ [], category_server)
    ∷ (network_error ∷ invalid_url ∷ [], category_network)
    ∷ (timeout ∷ [], category_timeout)
    ∷ (quota_exceeded ∷ object_too_large ∷ [], category_quota)
    ∷ (configuration_error ∷ invalid_storage_class ∷ [], category_configuration)
    ∷ (versioning_not_enabled ∷ invalid_version ∷ [], category_versioning)
    ∷ (object_locked ∷ lock_configuration_error ∷ retention_policy_error ∷ [], category_locking)
    ∷ (not_implemented ∷ cancelled ∷ [], category_operation)
    ∷ []

unfoldable pub get_error_category : GoError Leaf → Category
unfolding category_cases
get_error_category err = switch_any (is_sentinel err) category_cases category_unknown

unfoldable pub retryable_errors : List MinioError
retryable_errors =
    connection_failed ∷ connection_lost ∷ timeout ∷ network_error ∷ server_error
    ∷ service_unavailable ∷ too_many_requests ∷ invalid_response ∷ []

unfoldable pub is_retryable_error : GoError Leaf → Bool
unfolding retryable_errors
is_retryable_error err = any (is_sentinel err) retryable_errors

unfoldable pub is_temporary_error : GoError Leaf → Bool
is_temporary_error err = is_retryable_error err || is_sentinel err credentials_expired

unfoldable pub permanent_errors : List MinioError
permanent_errors =
    object_not_found ∷ bucket_not_found ∷ invalid_credentials ∷ access_denied ∷ invalid_bucket_name
    ∷ invalid_object_name ∷ invalid_argument ∷ invalid_range ∷ invalid_checksum ∷ invalid_metadata
    ∷ invalid_content_type ∷ malformed_xml ∷ not_implemented ∷ cancelled ∷ []

unfoldable pub is_permanent_error : GoError Leaf → Bool
unfolding permanent_errors
is_permanent_error err = any (is_sentinel err) permanent_errors
