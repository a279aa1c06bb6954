-- ===== src/GoError/Switch.antt =====
-- The three forms of `switch` that translate errors: on a value against constants, on a chain of
-- `errors.Is` tests, and on `strings.Contains` tests of a message. In each the first case that
-- fits decides, so a switch is the list of its cases in source order.
pub mod Laws
use stdlib_lab.Prelude.{
  Bool, true, false, List, [], ◌∷◌, Option, none, some, Text, contains, all, any, if◌then◌else◌,
  Key, ◌||◌,
}

-- `switch key { case k: return v … default: return d }`.
module _ {ℓ κ} {K : Type ℓ} {R : Type κ} ⦃wanted : Key K⦄ where
  unfoldable pub switch_on : K → List (K × R) → R → R
  switch_on key [] default = default
  switch_on key ((k, r) ∷ cases) default =
      if wanted.matches key k then r else switch_on key cases default

-- `case test a₁, test a₂, …: return v`, where `test` is one `errors.Is` of the error at hand.
module _ {ℓ κ} {A : Type ℓ} {R : Type κ} where
  unfoldable pub switch_any : (A → Bool) → List (List A × R) → R → R
  switch_any test [] default = default
  switch_any test ((options, r) ∷ cases) default =
      if any test options then r else switch_any test cases default

-- `case strings.Contains(msg, p₁) && strings.Contains(msg, p₂) …: return v`.
module _ {κ} {R : Type κ} where
  unfoldable pub switch_contains : Text → List (List Text × R) → Option R
  switch_contains msg [] = none
  switch_contains msg ((patterns, r) ∷ cases) =
      if all (contains msg) patterns then some r else switch_contains msg cases
