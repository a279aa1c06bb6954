-- ===== src/Postgres/Errors/Stability.antt =====
-- Translating an error a second time.
use stdlib_lab.Prelude.{
  Option, none, some, ◌≡◌, ◌≢◌, refl, ◌⊎◌, arith, Option-cases, inl, inr, to_lower, ap,
}
use stdlib_lab.GoError.{as_error, error_text}
use stdlib_lab.GoError.Switch.{switch_any}
use stdlib_lab.Postgres.Errors.Codes.{translate_postgresql_error}
use stdlib_lab.Postgres.Errors.Messages.{translate_by_error_message}
use stdlib_lab.GoError.{GoError, leaf}
use stdlib_lab.Postgres.Errors.Sentinels.{
  DbError, sentinel_text, lock_timeout, idle_in_transaction, query_timeout,
}
use stdlib_lab.Postgres.Errors.{
  Leaf, sentinel, leaf_code, leaf_text, translate_error, translate_present, is_gorm, gorm_cases,
  get_error_category, is_sentinel,
}

sentinel_fixed :
    (s : DbError)
    → s ≢ lock_timeout
    → s ≢ idle_in_transaction
    → translate_present (leaf (sentinel s)) ≡ leaf (sentinel s)
unfolding translate_present translate_by_error_message sentinel_text is_gorm gorm_cases switch_any
sentinel_fixed lock_timeout h k = absurd (h refl)
sentinel_fixed idle_in_transaction h k = absurd (k refl)
sentinel_fixed _ h k = refl

-- The result is a sentinel, or the error itself.
translate_present_cases :
    (err : GoError Leaf)
    → ((s : DbError) × (translate_present err ≡ leaf (sentinel s))) ⊎ (translate_present err ≡ err)
unfolding translate_present
translate_present_cases err = elim (Option-cases (switch_any (is_gorm err) gorm_cases none)) [
  | inr (s, e) ↦ inl (s, ground arith)
  | inl e ↦ elim (Option-cases (as_error leaf_code err)) [
    | inr (code, f) ↦ inl (translate_postgresql_error code, ground arith)
    | inl f ↦
        elim (Option-cases (translate_by_error_message (to_lower (error_text leaf_text err)))) [
          | inr (s, g) ↦ inl (s, ground arith)
          | inl g ↦ inr (ground arith)
        ]
  ]
]

-- An error that is translated once stays as it is when it is translated again, unless the first
-- translation gave the lock timeout or the idle-in-transaction timeout.
pub translate_error_idem :
    (err : Option (GoError Leaf))
    → translate_error err ≢ some (leaf (sentinel lock_timeout))
    → translate_error err ≢ some (leaf (sentinel idle_in_transaction))
    → translate_error (translate_error err) ≡ translate_error err
unfolding translate_error
translate_error_idem none h k = refl
translate_error_idem (some err) h k = elim (translate_present_cases err) [
  | inl (s, e) ↦ rw e (ap some (sentinel_fixed s (λ p. h (rw (e, p))) (λ p. k (rw (e, p)))))
  | inr e ↦ rw e (ap some e)
]

-- Those two sentinels are translated to the query timeout, whose category is another one: a case for
-- any text with "timeout" stands before the cases for their own texts.
pub timeouts_unstable :
    (s : DbError)
    → (s ≡ lock_timeout) ⊎ (s ≡ idle_in_transaction)
    → (translate_error (some (leaf (sentinel s))) ≡ some (leaf (sentinel query_timeout)))
      × (get_error_category (leaf (sentinel s))
          ≢ get_error_category (leaf (sentinel query_timeout)))
unfolding translate_error translate_by_error_message sentinel_text is_gorm gorm_cases switch_any
    get_error_category is_sentinel
timeouts_unstable s (inl e) = rw e (refl, λ h. cc)
timeouts_unstable s (inr e) = rw e (refl, λ h. cc)
