-- ===== src/Minio/Errors/Laws.antt =====
-- What the translation and the classification of minio/errors.go guarantee.
use Prim.Native.String.{String}
use stdlib_lab.Prelude.{
  ℕ, true, false, Option, none, some, Text, ◌≡◌, ◌⊎◌, inl, inr, refl, arith, ap, Option-cases,
  to_lower,
}
use stdlib_lab.GoError.{GoError, leaf, error_text, as_error}
use stdlib_lab.GoError.Switch.{switch_contains, switch_any}
use stdlib_lab.Minio.Errors.Sentinels.{
  MinioError, connection_failed, too_many_requests, sentinel_text,
}
use stdlib_lab.Minio.Errors.Messages.{translate_by_error_message}
use stdlib_lab.Minio.Errors.Codes.{translate_minio_error}
use stdlib_lab.Minio.Errors.{
  Leaf, sentinel, leaf_text, leaf_url, leaf_response, is_sentinel, translate_error,
  translate_present, is_retryable_error, is_temporary_error, translate_url_error,
  is_permanent_error, get_error_category, category_unknown,
}

-- No sentinel that `IsTemporaryError` accepts is accepted by `IsPermanentError`.
pub temporary-not_permanent :
    (s : MinioError)
    → is_temporary_error (leaf (sentinel s)) ≡ true
    → is_permanent_error (leaf (sentinel s)) ≡ false
unfolding is_temporary_error is_retryable_error is_permanent_error is_sentinel
temporary-not_permanent connection_failed h = refl
temporary-not_permanent _ h = ground arith

sentinel_fixed : (s : MinioError) → translate_present (leaf (sentinel s)) ≡ leaf (sentinel s)
unfolding translate_present translate_by_error_message sentinel_text switch_contains
sentinel_fixed connection_failed = refl
sentinel_fixed _ = refl

translate_present_cases :
    (err : GoError Leaf)
    → ((s : MinioError) × (translate_present err ≡ leaf (sentinel s)))
      ⊎ (translate_present err ≡ err)
unfolding translate_present
translate_present_cases err = elim (Option-cases (as_error leaf_response err)) [
  | inr ((code, status), e) ↦ inl (translate_minio_error code status, ground arith)
  | inl e ↦ elim (Option-cases (as_error leaf_url err)) [
    | inr ((op, text), f) ↦ inl (translate_url_error op text, ground arith)
    | inl f ↦
        elim (Option-cases (translate_by_error_message (to_lower (error_text leaf_text err)))) [
          | inr (s, g) ↦ inl (s, ground arith)
          | inl g ↦ inr (ground arith)
        ]
  ]
]

-- Translating an error a second time changes nothing.
pub translate_error-translate_error :
    (err : Option (GoError Leaf)) → translate_error (translate_error err) ≡ translate_error err
unfolding translate_error
translate_error-translate_error none = refl
translate_error-translate_error (some err) = elim (translate_present_cases err) [
  | inl (s, e) ↦ rw e (ap some (sentinel_fixed s))
  | inr e ↦ rw e (ap some e)
]

-- A `url.Error` anywhere in an error that holds no server reply is translated to one of four
-- sentinels, all retryable, whatever its operation and text.
pub url_error-retryable :
    (err : GoError Leaf) (op text : Text)
    → as_error leaf_response err ≡ none
    → as_error leaf_url err ≡ some (op, text)
    → (s : MinioError) × (translate_error (some err) ≡ some (leaf (sentinel s)))
      × (is_retryable_error (leaf (sentinel s)) ≡ true)
unfolding translate_error translate_present translate_url_error is_retryable_error is_sentinel
url_error-retryable err op text no_reply found =
    (translate_url_error op text, ground arith, ground arith)

-- A refusal for too many requests is retryable, and has no category.
pub rate_limit_uncategorised :
    (err : GoError Leaf) (code : String) (status : ℕ)
    → as_error leaf_response err ≡ some (code, status)
    → translate_minio_error code status ≡ too_many_requests
    → (translate_error (some err) ≡ some (leaf (sentinel too_many_requests)))
      × (is_retryable_error (leaf (sentinel too_many_requests)) ≡ true)
      × (get_error_category (leaf (sentinel too_many_requests)) ≡ category_unknown)
unfolding translate_error translate_present is_retryable_error is_sentinel get_error_category
    switch_any
rate_limit_uncategorised err code status found limited = (ground arith, refl, refl)
