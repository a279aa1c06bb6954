-- ===== src/Postgres/Errors/Laws.antt =====
-- What `TranslateError` and the classification of postgres/errors.go guarantee.
use Prim.Native.String.{String}
use stdlib_lab.Prelude.{true, ◌≡◌, ◌≢◌, ◌⊎◌, arith}
use stdlib_lab.GoError.{GoError, leaf}
use stdlib_lab.GoError.Switch.{switch_any}
use stdlib_lab.Postgres.Errors.Sentinels.{DbError, disk_full}
use stdlib_lab.Postgres.Errors.{
  Leaf, sentinel, is_sentinel, category_unknown, get_error_category, is_retryable, is_temporary,
}

-- Every sentinel of the package has a category.
pub sentinel-category : (s : DbError) → get_error_category (leaf (sentinel s)) ≢ category_unknown
unfolding get_error_category is_sentinel switch_any
sentinel-category disk_full = λ h. cc
sentinel-category _ = λ h. cc

-- Every temporary error is retryable, but for one that holds a full disk.
pub temporary-retryable :
    (err : GoError Leaf)
    → is_temporary err ≡ true
    → (is_retryable err ≡ true) ⊎ (is_sentinel err disk_full ≡ true)
unfolding is_temporary is_retryable
temporary-retryable err h = ground arith
