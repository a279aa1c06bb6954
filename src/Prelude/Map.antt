-- ===== src/Prelude/Map.antt =====
-- A Go map as an association list, over keys with a Boolean equality.
use mathlib.Core.Path.{◌≡◌, refl}
use mathlib.Core.Logic.{◌↔◌}
use mathlib.Core.Bool.{Bool, true}
use mathlib.Core.Option.{Option, none, some}
use mathlib.Core.List.{List, [], ◌∷◌}
use Prim.Native.Nat.{ℕ}
use native.Mathlib.Omega.{arith}
use stdlib_lab.Prelude.Tests.{if◌then◌else◌, nat_eqb, nat_eqb_iff}
use stdlib_lab.Prelude.Int.{ℤ, int_eqb, int_eqb_iff}
use stdlib_lab.Prelude.Strings.{Text, text_eqb, text_eqb_iff}

-- What a map or a switch may have for its keys.
pub record Key {ℓ} (K : Type ℓ) : Type ℓ where
  pub matches : K → K → Bool
  pub matches_iff : (a b : K) → (matches a b ≡ true) ↔ (a ≡ b)

instance abbrev pub int_key : Key ℤ
int_key = record { matches = int_eqb; matches_iff = int_eqb_iff }

instance abbrev pub text_key : Key Text
text_key = record { matches = text_eqb; matches_iff = text_eqb_iff }

instance abbrev pub nat_key : Key ℕ
nat_key = record { matches = nat_eqb; matches_iff = nat_eqb_iff }

module _ {ℓ κ} {K : Type ℓ} {V : Type κ} ⦃key : Key K⦄ where
  -- `m[k]`, with `none` where Go says that the key is missing.
  unfoldable pub lookup : K → List (K × V) → Option V
  lookup wanted [] = none
  lookup wanted ((found, value) ∷ others) =
      let later = lookup wanted others in if key.matches wanted found then some value else later

  -- `m[k] = v`.
  unfoldable pub insert : K → V → List (K × V) → List (K × V)
  insert new value [] = (new, value) ∷ []
  insert new value ((old, kept) ∷ others) =
      let later = insert new value others in
      if key.matches new old then (old, value) ∷ others else (old, kept) ∷ later

  pub lookup-insert :
      (new wanted : K) (value : V) (entries : List (K × V))
      → lookup wanted (insert new value entries)
        ≡ (if key.matches wanted new then some value else lookup wanted entries)
  unfolding lookup insert
  lookup-insert new wanted value [] = refl
  lookup-insert new wanted value ((old, kept) ∷ others) = ground (
    arith,
    key.matches_iff wanted new,
    key.matches_iff new old,
    key.matches_iff wanted old,
    lookup-insert new wanted value others,
  )

  pub lookup-insert_self :
      (new : K) (value : V) (entries : List (K × V))
      → lookup new (insert new value entries) ≡ some value
  lookup-insert_self new value entries =
      ground (arith, lookup-insert new new value entries, key.matches_iff new new)
