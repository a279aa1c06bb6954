-- ===== src/MariaDb/Errors.antt =====
-- mariadb/errors.go: `TranslateError`, `GetErrorCategory` and the three predicates. A leaf of an
-- error is a sentinel of this package, an error of GORM, a server's error with its number, or any
-- other error with its text.
pub mod Sentinels
pub mod Codes
pub mod Messages
pub mod Laws
pub mod Counterparts
use stdlib_lab.Prelude.{
  ℕ, Bool, true, false, List, [], ◌∷◌, Option, none, some, Text, nat_eqb, any, to_lower,
  if◌then◌else◌,
}
use stdlib_lab.GoError.{GoError, leaf, is_error, as_error, error_text}
use stdlib_lab.GoError.Switch.{switch_any}
use stdlib_lab.MariaDb.Errors.Codes.{translate_my_sql_error}
use stdlib_lab.MariaDb.Errors.Messages.{translate_by_error_message}
use stdlib_lab.MariaDb.Errors.Sentinels.{
  DbError, same, sentinel_text, account_locked, backup_failed, check_constraint_violation,
  column_not_found, configuration_error, connection_failed, connection_lost, constraint_violation,
  cursor_not_found, data_too_long, database_not_found, deadlock, disk_full, division_by_zero,
  duplicate_key, foreign_key, function_not_found, idle_in_transaction, index_corruption,
  index_not_found, insufficient_privileges, internal_error, invalid_cursor, invalid_data_type,
  invalid_json, invalid_password, invalid_query, lock_timeout, migration_failed, not_null_violation,
  numeric_overflow, permission_denied, protocol_violation, query_timeout, restore_failed,
  schema_not_found, schema_validation, sequence_not_found, serialization_failure, statement_timeout,
  system_error, table_not_found, too_many_connections, transaction_failed, trigger_not_found,
  unsupported_operation, view_not_found,
}
use stdlib_lab.MariaDb.Errors.Sentinels

-- The errors of package gorm that are tested for.
pub data GormError : Type 0 where
  record_not_found duplicated_key foreign_key_violated invalid_data invalid_transaction : GormError
  not_implemented missing_where_clause unsupported_relation primary_key_required : GormError
  model_value_required invalid_field empty_slice dry_run_mode_unsupported invalid_db : GormError
  invalid_value invalid_value_of_length : GormError

gorm_rank : GormError → ℕ
gorm_rank record_not_found = 0
gorm_rank duplicated_key = 1
gorm_rank foreign_key_violated = 2
gorm_rank invalid_data = 3
gorm_rank invalid_transaction = 4
gorm_rank not_implemented = 5
gorm_rank missing_where_clause = 6
gorm_rank unsupported_relation = 7
gorm_rank primary_key_required = 8
gorm_rank model_value_required = 9
gorm_rank invalid_field = 10
gorm_rank empty_slice = 11
gorm_rank dry_run_mode_unsupported = 12
gorm_rank invalid_db = 13
gorm_rank invalid_value = 14
gorm_rank invalid_value_of_length = 15

-- An error of GORM or of the server comes with its text, which those packages choose.
pub data Leaf : Type 0 where
  sentinel : DbError → Leaf
  gorm : GormError → Text → Leaf
  my_sql_error : ℕ → Text → Leaf
  other : Text → Leaf

abbrev pub leaf_text : Leaf → Text
leaf_text (sentinel s) = sentinel_text s
leaf_text (gorm g text) = text
leaf_text (my_sql_error code text) = text
leaf_text (other text) = text

-- `errors.Is(err, s)` for a sentinel `s` of the package.
leaf_is : DbError → Leaf → Bool
unfolding same
leaf_is s (sentinel t) = same s t
leaf_is s _ = false

unfoldable pub is_sentinel : GoError Leaf → DbError → Bool
unfolding leaf_is
is_sentinel err s = is_error (leaf_is s) err

leaf_is_gorm : GormError → Leaf → Bool
unfolding gorm_rank
leaf_is_gorm g (gorm h text) = nat_eqb (gorm_rank g) (gorm_rank h)
leaf_is_gorm g _ = false

unfoldable pub is_gorm : GoError Leaf → GormError → Bool
unfolding leaf_is_gorm
is_gorm err g = is_error (leaf_is_gorm g) err

abbrev pub leaf_code : Leaf → Option ℕ
leaf_code (my_sql_error code text) = some code
leaf_code _ = none

-- The switch on GORM's errors.
unfoldable pub gorm_cases : List (List GormError × Option DbError)
gorm_cases =
    (GormError.record_not_found ∷ [], some Sentinels.record_not_found)
    ∷ (duplicated_key ∷ [], some duplicate_key)
    ∷ (foreign_key_violated ∷ [], some foreign_key)
    ∷ (GormError.invalid_data ∷ [], some Sentinels.invalid_data)
    ∷ (invalid_transaction ∷ [], some transaction_failed)
    ∷ (not_implemented ∷ [], some unsupported_operation)
    ∷ (missing_where_clause ∷ [], some invalid_query)
    ∷ (unsupported_relation ∷ [], some unsupported_operation)
    ∷ (primary_key_required ∷ [], some constraint_violation)
    ∷ (model_value_required ∷ [], some Sentinels.invalid_data)
    ∷ (invalid_field ∷ [], some column_not_found)
    ∷ (empty_slice ∷ [], some Sentinels.invalid_data)
    ∷ (dry_run_mode_unsupported ∷ [], some unsupported_operation)
    ∷ (invalid_db ∷ [], some configuration_error)
    ∷ (invalid_value ∷ [], some Sentinels.invalid_data)
    ∷ (invalid_value_of_length ∷ [], some data_too_long)
    ∷ []

-- The error that the fallback on the lower case of the text gives.
by_message : GoError Leaf → GoError Leaf
by_message err = elim (translate_by_error_message (to_lower (error_text leaf_text err))) [
  | some s ↦ leaf (sentinel s)
  | none ↦ err
]

by_code_or_message : GoError Leaf → GoError Leaf
unfolding by_message
by_code_or_message err = elim (as_error leaf_code err) [
  | some code ↦ leaf (sentinel (translate_my_sql_error code))
  | none ↦ by_message err
]

unfoldable pub translate_present : GoError Leaf → GoError Leaf
unfolding by_code_or_message
translate_present err = elim (switch_any (is_gorm err) gorm_cases none) [
  | some s ↦ leaf (sentinel s)
  | none ↦ by_code_or_message err
]

unfoldable pub translate_error : Option (GoError Leaf) → Option (GoError Leaf)
unfolding translate_present
translate_error none = none
translate_error (some err) = some (translate_present err)

pub data Category : Type 0 where
  category_unknown category_connection category_query category_data category_constraint : Category
  category_permission category_transaction category_resource category_system : Category
  category_schema category_operation : Category

unfoldable pub category_cases : List (List DbError × Category)
category_cases =
    (connection_failed ∷ connection_lost ∷ too_many_connections ∷ [], category_connection)
    ∷ (
      invalid_query ∷ query_timeout ∷ statement_timeout ∷ invalid_cursor ∷ cursor_not_found ∷ [],
      category_query,
    )
    ∷ (
      Sentinels.invalid_data ∷ data_too_long ∷ invalid_data_type ∷ invalid_json ∷ division_by_zero
          ∷ numeric_overflow ∷ [],
      category_data,
    )
    ∷ (
      duplicate_key ∷ foreign_key ∷ constraint_violation ∷ check_constraint_violation
          ∷ not_null_violation ∷ [],
      category_constraint,
    )
    ∷ (
      permission_denied ∷ insufficient_privileges ∷ invalid_password ∷ account_locked ∷ [],
      category_permission,
    )
    ∷ (
      transaction_failed ∷ deadlock ∷ serialization_failure ∷ idle_in_transaction ∷ [],
      category_transaction,
    )
    ∷ (disk_full ∷ lock_timeout ∷ [], category_resource)
    ∷ (
      internal_error ∷ system_error ∷ index_corruption ∷ protocol_violation ∷ configuration_error
          ∷ [],
      category_system,
    )
    ∷ (
      table_not_found ∷ column_not_found ∷ database_not_found ∷ schema_not_found
          ∷ function_not_found ∷ trigger_not_found ∷ index_not_found ∷ view_not_found
          ∷ sequence_not_found ∷ [],
      category_schema,
    )
    ∷ (
      unsupported_operation ∷ migration_failed ∷ backup_failed ∷ restore_failed ∷ schema_validation
          ∷ Sentinels.record_not_found ∷ [],
      category_operation,
    )
    ∷ []

unfoldable pub get_error_category : GoError Leaf → Category
unfolding category_cases
get_error_category err = switch_any (is_sentinel err) category_cases category_unknown

unfoldable pub retryable_errors : List DbError
retryable_errors =
    connection_failed ∷ connection_lost ∷ query_timeout ∷ statement_timeout ∷ deadlock
    ∷ lock_timeout ∷ serialization_failure ∷ too_many_connections ∷ idle_in_transaction
    ∷ protocol_violation ∷ internal_error ∷ []

unfoldable pub is_retryable : GoError Leaf → Bool
unfolding retryable_errors
is_retryable err = any (is_sentinel err) retryable_errors

unfoldable pub temporary_errors : List DbError
temporary_errors =
    connection_lost ∷ query_timeout ∷ statement_timeout ∷ lock_timeout ∷ too_many_connections
    ∷ disk_full ∷ idle_in_transaction ∷ serialization_failure ∷ []

unfoldable pub is_temporary : GoError Leaf → Bool
unfolding temporary_errors
is_temporary err = any (is_sentinel err) temporary_errors

unfoldable pub critical_errors : List DbError
critical_errors =
    index_corruption ∷ system_error ∷ configuration_error ∷ protocol_violation ∷ disk_full
    ∷ internal_error ∷ []

unfoldable pub is_critical : GoError Leaf → Bool
unfolding critical_errors
is_critical err = any (is_sentinel err) critical_errors
