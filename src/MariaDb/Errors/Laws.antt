-- ===== src/MariaDb/Errors/Laws.antt =====
-- What the translation and the classification of mariadb/errors.go guarantee.
use stdlib_lab.Prelude.{
  ◌≡◌, ◌≢◌, ◌⊎◌, inl, inr, refl, ap, arith, none, some, Option-cases, to_lower,
}
use stdlib_lab.GoError.{GoError, leaf, as_error, error_text}
use stdlib_lab.GoError.Switch.{switch_any, switch_contains}
use stdlib_lab.MariaDb.Errors.Sentinels.{DbError, record_not_found, sentinel_text}
use stdlib_lab.MariaDb.Errors.Codes.{translate_my_sql_error}
use stdlib_lab.MariaDb.Errors.Messages.{translate_by_error_message}
use stdlib_lab.MariaDb.Errors.{
  Leaf, sentinel, leaf_text, leaf_code, is_gorm, gorm_cases, translate_error, translate_present,
  get_error_category, category_unknown, is_sentinel,
}

sentinel_fixed : (s : DbError) → translate_present (leaf (sentinel s)) ≡ leaf (sentinel s)
unfolding translate_present translate_by_error_message sentinel_text is_gorm gorm_cases switch_any
    switch_contains
sentinel_fixed record_not_found = refl
sentinel_fixed _ = refl

-- The result is a sentinel, or the error itself.
translate_present_cases :
    (err : GoError Leaf)
    → ((s : DbError) × (translate_present err ≡ leaf (sentinel s))) ⊎ (translate_present err ≡ err)
unfolding translate_present
translate_present_cases err = elim (Option-cases (switch_any (is_gorm err) gorm_cases none)) [
  | inr (s, e) ↦ inl (s, ground arith)
  | inl e ↦ elim (Option-cases (as_error leaf_code err)) [
    | inr (number, f) ↦ inl (translate_my_sql_error number, ground arith)
    | inl f ↦
        elim (Option-cases (translate_by_error_message (to_lower (error_text leaf_text err)))) [
          | inr (s, g) ↦ inl (s, ground arith)
          | inl g ↦ inr (ground arith)
        ]
  ]
]

sentinel-category : (s : DbError) → get_error_category (leaf (sentinel s)) ≢ category_unknown
unfolding get_error_category is_sentinel switch_any
sentinel-category record_not_found = λ h. cc
sentinel-category _ = λ h. cc

-- Translating an error a second time changes nothing, and what is translated is a sentinel that has a
-- category, or the error itself.
pub translate_error_stable :
    (err : GoError Leaf)
    → (translate_error (translate_error (some err)) ≡ translate_error (some err))
      × (((s : DbError) × (translate_error (some err) ≡ some (leaf (sentinel s)))
            × (get_error_category (leaf (sentinel s)) ≢ category_unknown))
          ⊎ (translate_error (some err) ≡ some err))
unfolding translate_error
translate_error_stable err = elim (translate_present_cases err) [
  | inl (s, e) ↦ (rw e (ap some (sentinel_fixed s)), inl (s, ap some e, sentinel-category s))
  | inr e ↦ (rw e (ap some e), inr (ap some e))
]
