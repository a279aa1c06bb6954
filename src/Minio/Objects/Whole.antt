-- ===== src/Minio/Objects/Whole.antt =====
-- What `Get` gives of an object.
use stdlib_lab.Prelude.{
  ◌++◌, ◌∙◌, ap, ℕ, true, List, [], ◌∷◌, Option, none, ok, pos, int_ltb, Text, length, Bool-cases,
  inl, inr, ◌≡◌, refl,
}
use stdlib_lab.Minio.BufferPool.{Buffer, BufferPool, get}
use stdlib_lab.Minio.Observer.{Client}
use stdlib_lab.Minio.Objects.{
  GetOption, with_version_id, with_byte_range, GetOptions, get_applied, all_get_applied,
  no_get_options, Store, Limits, sized, shown_get, get_small, get_large, get_object,
}

-- The options without the ranges.
abbrev pub without_ranges : List GetOption → List GetOption
without_ranges [] = []
without_ranges (with_version_id version_id ∷ opts) =
    with_version_id version_id ∷ without_ranges opts
without_ranges (with_byte_range start last ∷ opts) = without_ranges opts

version-without_ranges :
    (opts : List GetOption) (a b : GetOptions)
    → a.version_id ≡ b.version_id
    → (all_get_applied opts a).version_id ≡ (all_get_applied (without_ranges opts) b).version_id
unfolding get_applied
version-without_ranges [] a b same = same
version-without_ranges (with_version_id version_id ∷ opts) a b same =
    version-without_ranges opts (get_applied (with_version_id version_id) a)
      (get_applied (with_version_id version_id) b) refl
version-without_ranges (with_byte_range start last ∷ opts) a b same =
    version-without_ranges opts (get_applied (with_byte_range start last) a) b same

-- A reader that gives the whole of the given bytes, however it is read; a copy adds them to what the
-- buffer holds.
pub record Gives {W R : Type 0} (store : Store W R) (reader : R) (content : List ℕ) : Type 0 where
  pub stated : store.stat reader ≡ ok (length content)
  pub read_whole : store.read_full reader (length content) ≡ ok content
  pub copied : (b : Buffer) → (store.copy reader b).0 ≡ none
  pub copied_whole : (b : Buffer) → (store.copy reader b).1.content ≡ b.content ++ content

-- The buffer is empty, whatever the pool hands out and whatever `Grow` leaves in it.
sized-empty :
    {W R : Type 0} (store : Store W R) (limits : Limits) (size : ℕ) (b : Buffer)
    → (sized store limits size b).content ≡ []
unfolding sized
sized-empty store limits size b = refl

module _ {W R : Type 0} (store : Store W R) (limits : Limits) (bucket key : Text) (c : Client) where
  -- An option `WithByteRange` changes nothing: the call does what it does without it.
  pub byte_range_ignored :
      (opts : List GetOption) (place : Option ℕ) (pool : BufferPool) (w : W)
      → get_object store limits bucket key c opts place pool w
        ≡ get_object store limits bucket key c (without_ranges opts) place pool w
  unfolding get_object
  byte_range_ignored opts place pool w =
      rw (version-without_ranges opts no_get_options no_get_options refl) refl

  -- An object whose reader gives its bytes is returned whole, on the path for small objects and on the
  -- one through the pool of buffers, whatever buffer the pool hands out; and the observer, if it is set,
  -- is shown one operation without an error, of the size of the object.
  pub get_returns_object :
      (opts : List GetOption) (place : Option ℕ) (pool : BufferPool) (w : W) {reader : R}
      {content : List ℕ}
      → store.connected w ≡ true
      → store.get_object bucket key (all_get_applied opts no_get_options).version_id w ≡ ok reader
      → Gives store reader content
      → let result = get_object store limits bucket key c opts place pool w in
        (result.0 ≡ ok content)
        × (result.1.0 ≡ shown_get store limits bucket key c none (length content))
  unfolding get_object get_small get_large
  get_returns_object opts place pool w {reader} {content} connected found gives =
      elim (Bool-cases (int_ltb (pos (length content)) limits.small_file_threshold)) [
        | inl small ↦
            rw (connected, found, gives.stated, small)
              (rw (get_small, gives.read_whole) (refl, refl))
        | inr large ↦
            let b = sized store limits (length content) (get place pool).0 in
            let error = gives.copied b in
            let bytes : (store.copy reader b).1.content ≡ content =
              gives.copied_whole b
              ∙ ap (λ held. held ++ content)
                  (sized-empty store limits (length content) (get place pool).0) in
            rw (connected, found, gives.stated, large) (rw (get_large, error, bytes) (refl, refl))
      ]
