-- ===== src/Kafka/Errors/Laws.antt =====
-- What the translation and the classification of kafka/errors.go guarantee.
use stdlib_lab.Prelude.{
  true, false, Option, none, some, Text, ◌≡◌, ◌≢◌, ◌⊎◌, inl, inr, refl, arith, ap, Option-cases,
  to_lower,
}
use stdlib_lab.GoError.{GoError, leaf, error_text}
use stdlib_lab.GoError.Switch.{switch_contains}
use stdlib_lab.GoError.Switch.Laws.{switch_contains-unreachable, unreachable}
use stdlib_lab.Kafka.Errors.Sentinels.{
  KafkaError, connection_failed, invalid_message_size, invalid_txn_state,
  replica_not_available_error, same, sentinel_text,
}
use stdlib_lab.Kafka.Errors.Messages.{message_cases, translate_by_error_message}
use stdlib_lab.Kafka.Errors.{
  Leaf, sentinel, leaf_text, is_sentinel, translate_error, translate_present, is_retryable_error,
  is_temporary_error, is_permanent_error, is_authentication_error,
}

-- Temporary and retryable are one notion: the tests that `IsTemporaryError` adds change nothing.
pub temporary-eq-retryable : (err : GoError Leaf) → is_temporary_error err ≡ is_retryable_error err
unfolding is_temporary_error is_retryable_error
temporary-eq-retryable err = ground arith

-- An authentication error is permanent.
pub authentication-permanent :
    (err : GoError Leaf) → is_authentication_error err ≡ true → is_permanent_error err ≡ true
unfolding is_authentication_error is_permanent_error
authentication-permanent err h = ground arith

-- No sentinel is both retryable and permanent.
pub retryable-not_permanent :
    (s : KafkaError)
    → is_retryable_error (leaf (sentinel s)) ≡ true
    → is_permanent_error (leaf (sentinel s)) ≡ false
unfolding is_retryable_error is_permanent_error is_sentinel
retryable-not_permanent connection_failed h = refl
retryable-not_permanent _ h = ground arith

-- No text at all is translated to `ErrInvalidMessageSize`: its case stands behind the case for
-- "invalid message", which its own text holds.
pub invalid_message_size_unreachable :
    (msg : Text) → translate_by_error_message msg ≢ some invalid_message_size
unfolding translate_by_error_message unreachable same
invalid_message_size_unreachable msg h = ground (
  arith,
  switch_contains-unreachable (same invalid_message_size) msg message_cases
      {r = invalid_message_size} refl h,
)

sentinel_fixed :
    (s : KafkaError)
    → s ≢ invalid_message_size
    → s ≢ invalid_txn_state
    → s ≢ replica_not_available_error
    → translate_present (leaf (sentinel s)) ≡ leaf (sentinel s)
unfolding translate_present translate_by_error_message sentinel_text switch_contains
sentinel_fixed invalid_message_size h k m = absurd (h refl)
sentinel_fixed invalid_txn_state h k m = absurd (k refl)
sentinel_fixed replica_not_available_error h k m = absurd (m refl)
sentinel_fixed _ h k m = refl

translate_present_cases :
    (err : GoError Leaf)
    → ((s : KafkaError) × (translate_present err ≡ leaf (sentinel s)))
      ⊎ (translate_present err ≡ err)
unfolding translate_present
translate_present_cases err =
    elim (Option-cases (translate_by_error_message (to_lower (error_text leaf_text err)))) [
      | inr (s, g) ↦ inl (s, ground arith)
      | inl g ↦ inr (ground arith)
    ]

-- An error that is translated once stays as it is when it is translated again, unless the first
-- translation gave one of the three sentinels whose text an earlier case takes.
pub translate_twice :
    (err : Option (GoError Leaf))
    → translate_error err ≢ some (leaf (sentinel invalid_message_size))
    → translate_error err ≢ some (leaf (sentinel invalid_txn_state))
    → translate_error err ≢ some (leaf (sentinel replica_not_available_error))
    → translate_error (translate_error err) ≡ translate_error err
unfolding translate_error
translate_twice none h k m = refl
translate_twice (some err) h k m = elim (translate_present_cases err) [
  | inl (s, e) ↦
      rw e
        (ap some (sentinel_fixed s (λ p. h (rw (e, p))) (λ p. k (rw (e, p))) (λ p. m (rw (e, p)))))
  | inr e ↦ rw e (ap some e)
]
