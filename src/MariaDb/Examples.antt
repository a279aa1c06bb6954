-- ===== src/MariaDb/Examples.antt =====
-- The MariaDB errors on concrete values.
mod Queries
use stdlib_lab.Prelude.{◌≡◌, ◌≢◌, ◌⊎◌, codes, some}
use stdlib_lab.GoError.{GoError, leaf, wrap}
use stdlib_lab.MariaDb.Errors.Sentinels.{DbError}
use stdlib_lab.MariaDb.Errors.{
  Leaf, sentinel, my_sql_error, category_unknown, get_error_category, is_retryable, is_temporary,
  is_critical, translate_error,
}
use stdlib_lab.MariaDb.Errors.Laws.{translate_error_stable}
use stdlib_lab.MariaDb.Errors.Counterparts.{
  counterpart, category_counterpart, classification_agrees,
}
use stdlib_lab.Postgres.Errors as Pg

-- The number of a deadlock, wrapped.
abbrev deadlocked : GoError Leaf
deadlocked = wrap (codes "update") (leaf (my_sql_error 1213 (codes "Deadlock found")))

translate_error_stable_example :
    (translate_error (translate_error (some deadlocked)) ≡ translate_error (some deadlocked))
    × (((s : DbError) × (translate_error (some deadlocked) ≡ some (leaf (sentinel s)))
          × (get_error_category (leaf (sentinel s)) ≢ category_unknown))
        ⊎ (translate_error (some deadlocked) ≡ some deadlocked))
translate_error_stable_example = translate_error_stable deadlocked

classification_agrees_example :
    (category_counterpart (get_error_category (leaf (sentinel DbError.deadlock)))
      ≡ Pg.get_error_category (leaf (Pg.sentinel (counterpart DbError.deadlock))))
    × (is_retryable (leaf (sentinel DbError.deadlock))
        ≡ Pg.is_retryable (leaf (Pg.sentinel (counterpart DbError.deadlock))))
    × (is_temporary (leaf (sentinel DbError.deadlock))
        ≡ Pg.is_temporary (leaf (Pg.sentinel (counterpart DbError.deadlock))))
    × (is_critical (leaf (sentinel DbError.deadlock))
        ≡ Pg.is_critical (leaf (Pg.sentinel (counterpart DbError.deadlock))))
classification_agrees_example = classification_agrees DbError.deadlock
