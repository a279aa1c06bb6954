-- ===== src/Kafka/Serializers/Formats.antt =====
-- The registry of formats: what a registered serializer is found under.
use stdlib_lab.Prelude.{
  ℕ, List, [], ◌∷◌, none, err, Text, text_eqb, text_eqb_iff, if◌then◌else◌, lookup, insert,
  lookup-insert, text_key, lower, to_lower, All, ◌≡◌, ◌≢◌, ◌∙◌, sym, refl, ap, arith, inl, inr,
  Bool-cases,
}
use stdlib_lab.Kafka.Serializers.{Runtime, unknown_format, Serializer}
use stdlib_lab.Kafka.Serializers.Multi.{
  MultiFormatSerializer, new_multi_format_serializer, register_serializer, serialize,
  serialize_with_format,
}

-- After a serializer is registered, it answers for its format in any case of its letters, and every
-- other format is answered as before.
pub serialize_with_format-register :
    {V : Type 0} (m : MultiFormatSerializer V) (s : Serializer V) (format asked : Text) (value : V)
    → serialize_with_format asked value (register_serializer format s m) ≡ (
        if text_eqb (to_lower asked) (to_lower format)
        then s value
        else serialize_with_format asked value m)
unfolding serialize_with_format register_serializer
serialize_with_format-register m s format asked value =
    ground (arith, lookup-insert (to_lower format) (to_lower asked) s m.serializers)

lower_idem : (c : ℕ) → lower (lower c) ≡ lower c
lower_idem c = ground arith

to_lower_idem : (t : Text) → to_lower (to_lower t) ≡ to_lower t
to_lower_idem [] = refl
to_lower_idem (c ∷ t) = cc (lower_idem c, to_lower_idem t)

abbrev pub IsLower : {V : Type 0} → List (Text × Serializer V) → Type 0
IsLower entries = All (λ entry. to_lower entry.0 ≡ entry.0) entries

new-IsLower :
    {V T : Type 0} (runtime : Runtime V T)
    → IsLower (new_multi_format_serializer runtime).serializers
unfolding new_multi_format_serializer
new-IsLower runtime = (refl, (refl, (refl, (refl, tt))))

insert-IsLower :
    {V : Type 0} (key : Text) (s : Serializer V) (entries : List (Text × Serializer V))
    → to_lower key ≡ key
    → IsLower entries
    → IsLower (insert key s entries)
unfolding insert
insert-IsLower key s [] low h = (low, tt)
insert-IsLower key s ((old, kept) ∷ entries) low h = elim (Bool-cases (text_eqb key old)) [
  | inl same ↦ rw same (h.0, h.1)
  | inr other ↦ rw other (h.0, insert-IsLower key s entries low h.1)
]

lookup-IsLower :
    {V : Type 0} (key : Text) (entries : List (Text × Serializer V))
    → to_lower key ≢ key
    → IsLower entries
    → lookup key entries ≡ none
unfolding lookup
lookup-IsLower key [] mixed h = refl
lookup-IsLower key ((old, kept) ∷ entries) mixed h = elim (Bool-cases (text_eqb key old)) [
  | inl same ↦
      let e : key ≡ old = (text_eqb_iff key old).0 same in
      absurd (mixed (ap to_lower e ∙ h.0 ∙ sym e))
  | inr other ↦ rw other (lookup-IsLower key entries mixed h.1)
]

-- What `NewMultiFormatSerializer` becomes by registrations and by settings of its default format.
pub data Built {V T : Type 0} (runtime : Runtime V T) : MultiFormatSerializer V → Type 0 where
  new : Built runtime (new_multi_format_serializer runtime)
  registered :
      {m : MultiFormatSerializer V} (format : Text) (s : Serializer V)
      → Built runtime m
      → Built runtime (register_serializer format s m)
  defaulted :
      {m : MultiFormatSerializer V} (format : Text)
      → Built runtime m
      → Built runtime (record m { default_format = format })

Built-IsLower :
    {V T : Type 0} (runtime : Runtime V T) {m : MultiFormatSerializer V}
    → Built runtime m
    → IsLower m.serializers
unfolding register_serializer
Built-IsLower runtime Built.new = new-IsLower runtime
Built-IsLower runtime (Built.registered {m} format s b) =
    insert-IsLower (to_lower format) s m.serializers (to_lower_idem format)
      (Built-IsLower runtime b)
Built-IsLower runtime (Built.defaulted format b) = Built-IsLower runtime b

-- A default format with a capital letter is never found, though it has just been registered and
-- `SerializeWithFormat` finds it.
pub mixed_case_default_fails :
    {V T : Type 0} (runtime : Runtime V T) (m : MultiFormatSerializer V) (s : Serializer V)
    (format : Text) (value : V)
    → Built runtime m
    → to_lower format ≢ format
    → let m' = register_serializer format s (record m { default_format = format }) in
      (serialize value m' ≡ err (unknown_format format))
      × (serialize_with_format format value m' ≡ s value)
unfolding register_serializer serialize serialize_with_format
mixed_case_default_fails runtime m s format value b mixed =
    let entries = insert (to_lower format) s m.serializers in
    let absent : lookup format entries ≡ none = lookup-IsLower format entries mixed (
      insert-IsLower (to_lower format) s m.serializers (to_lower_idem format)
        (Built-IsLower runtime b)) in
    (
      ground (arith, text_eqb_iff format []),
      ground (
        arith,
        lookup-insert (to_lower format) (to_lower format) s m.serializers,
        text_eqb_iff (to_lower format) (to_lower format),
      ),
    )
