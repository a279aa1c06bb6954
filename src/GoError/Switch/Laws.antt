-- ===== src/GoError/Switch/Laws.antt =====
-- Cases of a switch on a message that an earlier case makes unreachable.
use stdlib_lab.Prelude.{
  Bool, true, false, List, [], ◌∷◌, some, Text, contains, has_prefix, all, any, ◌||◌, ◌&&◌, ◌≡◌,
  refl, arith, Bool-cases, inl, inr, All, not,
}
use stdlib_lab.GoError.Switch.{switch_contains}

-- `strings.Contains` is transitive.
has_prefix_trans :
    (s t u : Text) → has_prefix s t ≡ true → has_prefix t u ≡ true → has_prefix s u ≡ true
has_prefix_trans s t [] h k = ground arith
has_prefix_trans [] [] (c ∷ u) h k = k
has_prefix_trans [] (b ∷ t) (c ∷ u) h k = cc
has_prefix_trans (a ∷ s) [] (c ∷ u) h k = cc
has_prefix_trans (a ∷ s) (b ∷ t) (c ∷ u) h k = ground (arith, has_prefix_trans s t u)

has_prefix-contains :
    (s t u : Text) → has_prefix s t ≡ true → contains t u ≡ true → contains s u ≡ true
has_prefix-contains [] [] u h k = k
has_prefix-contains [] (b ∷ t) u h k = cc
has_prefix-contains (a ∷ s) [] [] h k = ground arith
has_prefix-contains (a ∷ s) [] (c ∷ u) h k = cc
has_prefix-contains (a ∷ s) (b ∷ t) u h k =
    ground (arith, has_prefix_trans (a ∷ s) (b ∷ t) u, has_prefix-contains s t u)

pub contains_trans :
    (s t u : Text) → contains s t ≡ true → contains t u ≡ true → contains s u ≡ true
contains_trans [] t u h k = has_prefix-contains [] t u h k
contains_trans (a ∷ s) t u h k =
    ground (arith, has_prefix-contains (a ∷ s) t u, contains_trans s t u)

-- A case is shadowed by an earlier one each of whose patterns lies inside one of its own.
abbrev pub shadows : List Text → List Text → Bool
shadows earlier patterns = all (λ q. any (λ p. contains p q) patterns) earlier

-- No case that `bad` picks can be reached: each is shadowed by a case before it.
module _ {R : Type 0} (bad : R → Bool) where
  unfoldable pub unreachable : List (List Text) → List (List Text × R) → Bool
  unreachable earlier [] = true
  unreachable earlier ((patterns, r) ∷ cases) =
      (not (bad r) || any (λ q. shadows q patterns) earlier)
      && unreachable (patterns ∷ earlier) cases

any-contains :
    (msg q : Text) (patterns : List Text)
    → all (contains msg) patterns ≡ true
    → any (λ p. contains p q) patterns ≡ true
    → contains msg q ≡ true
any-contains msg q [] h k = cc
any-contains msg q (p ∷ ps) h k = ground (arith, contains_trans msg p q, any-contains msg q ps)

shadows-matches :
    (msg : Text) (earlier patterns : List Text)
    → all (contains msg) patterns ≡ true
    → shadows earlier patterns ≡ true
    → all (contains msg) earlier ≡ true
shadows-matches msg [] patterns h k = refl
shadows-matches msg (q ∷ earlier) patterns h k =
    ground (arith, any-contains msg q patterns, shadows-matches msg earlier patterns)

no_shadow :
    (msg : Text) (earlier : List (List Text)) (patterns : List Text)
    → All (λ q. all (contains msg) q ≡ false) earlier
    → all (contains msg) patterns ≡ true
    → any (λ q. shadows q patterns) earlier ≡ false
no_shadow msg [] patterns h k = refl
no_shadow msg (q ∷ earlier) patterns h k =
    ground (arith, shadows-matches msg q patterns, no_shadow msg earlier patterns)

module _ {R : Type 0} (bad : R → Bool) where
  unreachable_from :
      (msg : Text) (earlier : List (List Text)) (cases : List (List Text × R)) {r : R}
      → unreachable bad earlier cases ≡ true
      → All (λ q. all (contains msg) q ≡ false) earlier
      → switch_contains msg cases ≡ some r
      → bad r ≡ false
  unfolding switch_contains unreachable
  unreachable_from msg earlier [] u h e = cc
  unreachable_from msg earlier ((patterns, r') ∷ cases) {r} u h e =
      elim (Bool-cases (all (contains msg) patterns)) [
        | inl hit ↦ ground (arith, no_shadow msg earlier patterns h hit)
        | inr miss ↦
            unreachable_from msg (patterns ∷ earlier) cases (ground arith) (miss, h) (ground arith)
      ]

  -- A switch on a message whose `bad` cases are all shadowed never takes one of them.
  pub switch_contains-unreachable :
      (msg : Text) (cases : List (List Text × R)) {r : R}
      → unreachable bad [] cases ≡ true
      → switch_contains msg cases ≡ some r
      → bad r ≡ false
  switch_contains-unreachable msg cases u e = unreachable_from msg [] cases u tt e
