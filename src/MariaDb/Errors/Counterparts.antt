-- ===== src/MariaDb/Errors/Counterparts.antt =====
-- errors.go of mariadb/ and of postgres/ side by side. The two packages declare sentinels, GORM errors
-- and categories of the same names; they differ in the codes and messages that they read.
use stdlib_lab.Prelude.{◌≡◌, refl, ap, Option, some, Text}
use stdlib_lab.GoError.{GoError, leaf}
use stdlib_lab.GoError.Switch.{switch_any}
use stdlib_lab.MariaDb.Errors.Sentinels.{DbError}
use stdlib_lab.MariaDb.Errors.{
  Leaf, sentinel, gorm, GormError, Category, translate_error, translate_present, is_gorm,
  gorm_cases, is_sentinel, get_error_category, is_retryable, is_temporary, is_critical,
}
use stdlib_lab.Postgres.Errors.Sentinels as PgSentinels
use stdlib_lab.Postgres.Errors as Pg

-- The sentinel of the other package with the same name.
unfoldable pub counterpart : DbError → PgSentinels.DbError
counterpart DbError.record_not_found = PgSentinels.DbError.record_not_found
counterpart DbError.duplicate_key = PgSentinels.DbError.duplicate_key
counterpart DbError.foreign_key = PgSentinels.DbError.foreign_key
counterpart DbError.invalid_data = PgSentinels.DbError.invalid_data
counterpart DbError.connection_failed = PgSentinels.DbError.connection_failed
counterpart DbError.transaction_failed = PgSentinels.DbError.transaction_failed
counterpart DbError.query_timeout = PgSentinels.DbError.query_timeout
counterpart DbError.invalid_query = PgSentinels.DbError.invalid_query
counterpart DbError.permission_denied = PgSentinels.DbError.permission_denied
counterpart DbError.table_not_found = PgSentinels.DbError.table_not_found
counterpart DbError.column_not_found = PgSentinels.DbError.column_not_found
counterpart DbError.constraint_violation = PgSentinels.DbError.constraint_violation
counterpart DbError.check_constraint_violation = PgSentinels.DbError.check_constraint_violation
counterpart DbError.not_null_violation = PgSentinels.DbError.not_null_violation
counterpart DbError.data_too_long = PgSentinels.DbError.data_too_long
counterpart DbError.deadlock = PgSentinels.DbError.deadlock
counterpart DbError.lock_timeout = PgSentinels.DbError.lock_timeout
counterpart DbError.invalid_data_type = PgSentinels.DbError.invalid_data_type
counterpart DbError.division_by_zero = PgSentinels.DbError.division_by_zero
counterpart DbError.numeric_overflow = PgSentinels.DbError.numeric_overflow
counterpart DbError.disk_full = PgSentinels.DbError.disk_full
counterpart DbError.too_many_connections = PgSentinels.DbError.too_many_connections
counterpart DbError.invalid_json = PgSentinels.DbError.invalid_json
counterpart DbError.index_corruption = PgSentinels.DbError.index_corruption
counterpart DbError.configuration_error = PgSentinels.DbError.configuration_error
counterpart DbError.unsupported_operation = PgSentinels.DbError.unsupported_operation
counterpart DbError.migration_failed = PgSentinels.DbError.migration_failed
counterpart DbError.backup_failed = PgSentinels.DbError.backup_failed
counterpart DbError.restore_failed = PgSentinels.DbError.restore_failed
counterpart DbError.schema_validation = PgSentinels.DbError.schema_validation
counterpart DbError.serialization_failure = PgSentinels.DbError.serialization_failure
counterpart DbError.insufficient_privileges = PgSentinels.DbError.insufficient_privileges
counterpart DbError.invalid_password = PgSentinels.DbError.invalid_password
counterpart DbError.account_locked = PgSentinels.DbError.account_locked
counterpart DbError.database_not_found = PgSentinels.DbError.database_not_found
counterpart DbError.schema_not_found = PgSentinels.DbError.schema_not_found
counterpart DbError.function_not_found = PgSentinels.DbError.function_not_found
counterpart DbError.trigger_not_found = PgSentinels.DbError.trigger_not_found
counterpart DbError.index_not_found = PgSentinels.DbError.index_not_found
counterpart DbError.view_not_found = PgSentinels.DbError.view_not_found
counterpart DbError.sequence_not_found = PgSentinels.DbError.sequence_not_found
counterpart DbError.invalid_cursor = PgSentinels.DbError.invalid_cursor
counterpart DbError.cursor_not_found = PgSentinels.DbError.cursor_not_found
counterpart DbError.statement_timeout = PgSentinels.DbError.statement_timeout
counterpart DbError.idle_in_transaction = PgSentinels.DbError.idle_in_transaction
counterpart DbError.connection_lost = PgSentinels.DbError.connection_lost
counterpart DbError.protocol_violation = PgSentinels.DbError.protocol_violation
counterpart DbError.internal_error = PgSentinels.DbError.internal_error
counterpart DbError.system_error = PgSentinels.DbError.system_error

unfoldable pub gorm_counterpart : GormError → Pg.GormError
gorm_counterpart GormError.record_not_found = Pg.GormError.record_not_found
gorm_counterpart GormError.duplicated_key = Pg.GormError.duplicated_key
gorm_counterpart GormError.foreign_key_violated = Pg.GormError.foreign_key_violated
gorm_counterpart GormError.invalid_data = Pg.GormError.invalid_data
gorm_counterpart GormError.invalid_transaction = Pg.GormError.invalid_transaction
gorm_counterpart GormError.not_implemented = Pg.GormError.not_implemented
gorm_counterpart GormError.missing_where_clause = Pg.GormError.missing_where_clause
gorm_counterpart GormError.unsupported_relation = Pg.GormError.unsupported_relation
gorm_counterpart GormError.primary_key_required = Pg.GormError.primary_key_required
gorm_counterpart GormError.model_value_required = Pg.GormError.model_value_required
gorm_counterpart GormError.invalid_field = Pg.GormError.invalid_field
gorm_counterpart GormError.empty_slice = Pg.GormError.empty_slice
gorm_counterpart GormError.dry_run_mode_unsupported = Pg.GormError.dry_run_mode_unsupported
gorm_counterpart GormError.invalid_db = Pg.GormError.invalid_db
gorm_counterpart GormError.invalid_value = Pg.GormError.invalid_value
gorm_counterpart GormError.invalid_value_of_length = Pg.GormError.invalid_value_of_length

unfoldable pub category_counterpart : Category → Pg.Category
category_counterpart Category.category_unknown = Pg.Category.category_unknown
category_counterpart Category.category_connection = Pg.Category.category_connection
category_counterpart Category.category_query = Pg.Category.category_query
category_counterpart Category.category_data = Pg.Category.category_data
category_counterpart Category.category_constraint = Pg.Category.category_constraint
category_counterpart Category.category_permission = Pg.Category.category_permission
category_counterpart Category.category_transaction = Pg.Category.category_transaction
category_counterpart Category.category_resource = Pg.Category.category_resource
category_counterpart Category.category_system = Pg.Category.category_system
category_counterpart Category.category_schema = Pg.Category.category_schema
category_counterpart Category.category_operation = Pg.Category.category_operation

sentinel-injective :
    {s t : DbError}
    → ◌≡◌ {A = Option (GoError Leaf)} (some (leaf (sentinel s))) (some (leaf (sentinel t)))
    → s ≡ t
sentinel-injective h = cc

-- For every sentinel the two packages agree: its category in the one is its category in the other, and
-- it is retryable, temporary and critical in both or in neither.
pub classification_agrees :
    (s : DbError)
    → (category_counterpart (get_error_category (leaf (sentinel s)))
        ≡ Pg.get_error_category (leaf (Pg.sentinel (counterpart s))))
      × (is_retryable (leaf (sentinel s)) ≡ Pg.is_retryable (leaf (Pg.sentinel (counterpart s))))
      × (is_temporary (leaf (sentinel s)) ≡ Pg.is_temporary (leaf (Pg.sentinel (counterpart s))))
      × (is_critical (leaf (sentinel s)) ≡ Pg.is_critical (leaf (Pg.sentinel (counterpart s))))
unfolding get_error_category is_retryable is_temporary is_critical is_sentinel switch_any
    counterpart category_counterpart Pg.get_error_category Pg.is_retryable Pg.is_temporary
    Pg.is_critical Pg.is_sentinel
classification_agrees DbError.record_not_found = (refl, refl, refl, refl)
classification_agrees _ = (refl, refl, refl, refl)

-- An error of GORM is translated to sentinels of the same name, however its text reads.
pub gorm_translation_agrees :
    (g : GormError) (text : Text) (s : DbError)
    → translate_error (some (leaf (gorm g text))) ≡ some (leaf (sentinel s))
    → Pg.translate_error (some (leaf (Pg.gorm (gorm_counterpart g) text)))
      ≡ some (leaf (Pg.sentinel (counterpart s)))
unfolding translate_error translate_present is_gorm gorm_cases switch_any counterpart
    gorm_counterpart Pg.translate_error Pg.translate_present Pg.is_gorm Pg.gorm_cases
gorm_translation_agrees GormError.record_not_found text s h =
    ap (λ e. some (leaf (Pg.sentinel (counterpart e)))) (sentinel-injective h)
gorm_translation_agrees _ text s h =
    ap (λ e. some (leaf (Pg.sentinel (counterpart e)))) (sentinel-injective h)
