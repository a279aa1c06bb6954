-- ===== src/GoError.antt =====
-- Go's `error` values as the packages use them: leaves of a package's own kind `L`, wrapped by
-- `fmt.Errorf("…%w…")` or joined by `errors.Join`, with `errors.Is`, `errors.As` and `Error()`.
pub mod Switch
use stdlib_lab.Prelude.{Bool, true, ◌||◌, Option, none, some, Text, ◌++◌, ◌∷◌, List, []}

pub data GoError (L : Type 0) : Type 0 where
  leaf : L → GoError L
  -- The whole text of the error, and the error that it wraps.
  wrap : Text → GoError L → GoError L
  join : GoError L → GoError L → GoError L

module _ {L : Type 0} where
  -- `errors.Is(err, target)`, the target given by the leaves that are it.
  abbrev pub is_error : (L → Bool) → GoError L → Bool
  is_error p (leaf l) = p l
  is_error p (wrap t e) = is_error p e
  is_error p (join e f) = is_error p e || is_error p f

  -- `errors.As(err, &target)`: the first leaf of the type, in the order of a walk.
  abbrev pub as_error : {A : Type 0} → (L → Option A) → GoError L → Option A
  as_error p (leaf l) = p l
  as_error p (wrap t e) = as_error p e
  as_error p (join e f) =
      let rest = as_error p f in elim (as_error p e) [ some a ↦ some a | none ↦ rest ]

  -- `err.Error()`.
  abbrev pub error_text : (L → Text) → GoError L → Text
  error_text text (leaf l) = text l
  error_text text (wrap t e) = t
  error_text text (join e f) = error_text text e ++ (0x0A ∷ error_text text f)
