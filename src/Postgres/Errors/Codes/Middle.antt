-- ===== src/Postgres/Errors/Codes/Middle.antt =====
-- postgres/errors.go, `translatePostgreSQLError`: the cases from "2203F" to "40000".
use Prim.Native.String.{String}
use stdlib_lab.Prelude.{List, [], ◌∷◌}
use stdlib_lab.Postgres.Errors.Sentinels.{
  DbError, check_constraint_violation, constraint_violation, cursor_not_found, database_not_found,
  duplicate_key, foreign_key, function_not_found, idle_in_transaction, invalid_cursor, invalid_data,
  invalid_data_type, invalid_json, invalid_password, invalid_query, not_null_violation,
  numeric_overflow, permission_denied, schema_not_found, transaction_failed, trigger_not_found,
}

unfoldable pub middle_codes : List (String × DbError)
middle_codes =
    ("2203F", invalid_json)
    ∷ ("22P01", numeric_overflow)
    ∷ ("22P02", invalid_data_type)
    ∷ ("22P03", invalid_data_type)
    ∷ ("22P04", invalid_data)
    ∷ ("22P05", invalid_data_type)
    ∷ ("22P06", invalid_data)
    ∷ ("23000", constraint_violation)
    ∷ ("23001", foreign_key)
    ∷ ("23502", not_null_violation)
    ∷ ("23503", foreign_key)
    ∷ ("23505", duplicate_key)
    ∷ ("23514", check_constraint_violation)
    ∷ ("23P01", constraint_violation)
    ∷ ("24000", invalid_cursor)
    ∷ ("25000", transaction_failed)
    ∷ ("25001", transaction_failed)
    ∷ ("25002", transaction_failed)
    ∷ ("25003", transaction_failed)
    ∷ ("25004", transaction_failed)
    ∷ ("25005", transaction_failed)
    ∷ ("25006", transaction_failed)
    ∷ ("25007", transaction_failed)
    ∷ ("25008", transaction_failed)
    ∷ ("25P01", transaction_failed)
    ∷ ("25P02", transaction_failed)
    ∷ ("25P03", idle_in_transaction)
    ∷ ("26000", invalid_query)
    ∷ ("27000", trigger_not_found)
    ∷ ("28000", invalid_password)
    ∷ ("28P01", invalid_password)
    ∷ ("2B000", constraint_violation)
    ∷ ("2BP01", constraint_violation)
    ∷ ("2D000", transaction_failed)
    ∷ ("2F000", function_not_found)
    ∷ ("2F002", permission_denied)
    ∷ ("2F003", permission_denied)
    ∷ ("2F004", permission_denied)
    ∷ ("2F005", function_not_found)
    ∷ ("34000", cursor_not_found)
    ∷ ("38000", function_not_found)
    ∷ ("38001", permission_denied)
    ∷ ("38002", permission_denied)
    ∷ ("38003", permission_denied)
    ∷ ("38004", permission_denied)
    ∷ ("39000", function_not_found)
    ∷ ("39001", function_not_found)
    ∷ ("39004", not_null_violation)
    ∷ ("39P01", trigger_not_found)
    ∷ ("39P02", function_not_found)
    ∷ ("39P03", trigger_not_found)
    ∷ ("3B000", transaction_failed)
    ∷ ("3B001", transaction_failed)
    ∷ ("3D000", database_not_found)
    ∷ ("3F000", schema_not_found)
    ∷ ("40000", transaction_failed)
    ∷ []
