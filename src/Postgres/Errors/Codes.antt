-- ===== src/Postgres/Errors/Codes.antt =====
-- postgres/errors.go, `translatePostgreSQLError`: the switch on the five characters of SQLSTATE.
mod Early
mod Middle
mod Late
mod Final
use Prim.Native.String.{String}
use text.Mathlib.Text.{◌==◌ as str_eq}
use text.Mathlib.TextEquality.{eq_iff}
use stdlib_lab.Prelude.{List, ◌++◌, Key}
use stdlib_lab.GoError.Switch.{switch_on}
use stdlib_lab.Postgres.Errors.Sentinels.{DbError, system_error}
use Early.{early_codes}
use Middle.{middle_codes}
use Late.{late_codes}
use Final.{final_codes}

instance abbrev string_key : Key String
string_key = record { matches = str_eq; matches_iff = eq_iff }

unfoldable pub code_cases : List (String × DbError)
unfolding early_codes middle_codes late_codes final_codes
code_cases = (early_codes ++ (middle_codes ++ (late_codes ++ (final_codes))))

-- The default is the system error, for a code that is none of these.
unfoldable pub translate_postgresql_error : String → DbError
unfolding code_cases switch_on
translate_postgresql_error code = switch_on code code_cases system_error
