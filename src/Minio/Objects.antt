-- ===== src/Minio/Objects.antt =====
-- minio/object_utils.go: `Put`, `Get` and `Delete`, with their options of options.go and the metadata of
-- utils.go. A method takes the client and the world and returns them after the call. The logger and the
-- closing of a reader are left out, and the size of an object is not negative.
pub mod Whole
use stdlib_lab.Prelude.{
  ℕ, ◌-◌, Bool, true, false, List, [], ◌∷◌, Option, none, some, Result, ok, err, ℤ, pos, negsuc,
  int_ltb, ltb, leb, Text, codes, text_eqb, length, insert, text_key, if◌then◌else◌,
}
use stdlib_lab.Minio.BufferPool.{Buffer, BufferPool, reset, get, put}
use stdlib_lab.Minio.Observer.{Fault, connection_failed, raised, wrapped, Client, observe_operation}

pub record PutOptions : Type 0 where
  pub size : ℤ
  pub content_type : Text
  pub metadata : List (Text × Text)
  pub part_size : ℕ

pub data PutOption : Type 0 where
  with_size : ℤ → PutOption
  with_content_type : Text → PutOption
  with_metadata : List (Text × Text) → PutOption
  with_part_size : ℕ → PutOption

unfoldable pub put_applied : PutOption → PutOptions → PutOptions
put_applied (with_size size) options = record options { size = size }
put_applied (with_content_type content_type) options = record options {
  content_type = content_type;
}
put_applied (with_metadata metadata) options = record options { metadata = metadata }
put_applied (with_part_size part_size) options = record options { part_size = part_size }

abbrev pub all_put_applied : List PutOption → PutOptions → PutOptions
all_put_applied [] options = options
all_put_applied (opt ∷ opts) options = all_put_applied opts (put_applied opt options)

pub record GetOptions : Type 0 where
  pub version_id : Text
  pub range : Option (ℤ × ℤ)

pub data GetOption : Type 0 where
  with_version_id : Text → GetOption
  with_byte_range : ℤ → ℤ → GetOption

unfoldable pub get_applied : GetOption → GetOptions → GetOptions
get_applied (with_version_id version_id) options = record options { version_id = version_id }
get_applied (with_byte_range start last) options = record options { range = some (start, last) }

abbrev pub all_get_applied : List GetOption → GetOptions → GetOptions
all_get_applied [] options = options
all_get_applied (opt ∷ opts) options = all_get_applied opts (get_applied opt options)

abbrev pub no_get_options : GetOptions
no_get_options = record { version_id = []; range = none }

abbrev pub unknown_size : ℤ
unknown_size = negsuc 0

-- What is sent with an object.
pub record SentOptions : Type 0 where
  pub sent_part_size : ℕ
  pub user_metadata : List (Text × Text)
  pub sent_content_type : Text

-- What the code takes from outside: minio-go over readers `R` and the world `W`, the values of the
-- context, the identifiers that stand in for them, and the time. `copy` is `io.Copy` into a buffer:
-- its error and the buffer then; `grow` is the buffer's `Grow`.
pub record Store (W R : Type 0) : Type 0 where
  pub connected : W → Bool
  pub get_object : Text → Text → Text → W → Result Text R
  pub stat : R → Result Text ℕ
  pub read_full : R → ℕ → Result Text (List ℕ)
  pub copy : R → Buffer → Option Text × Buffer
  pub grow : ℕ → Buffer → Buffer
  pub put_object : Text → Text → ℤ → SentOptions → W → (ℤ × Option Text) × W
  pub remove_object : Text → Text → W → Option Text × W
  pub context_value : Text → Option Text
  pub trace_id : Text
  pub span_id : Text
  pub timestamp : Text

pub record Limits : Type 0 where
  pub small_file_threshold : ℤ
  pub initial_buffer_size : ℤ
  pub min_part_size : ℕ

unfoldable pub merged : List (Text × Text) → List (Text × Text) → List (Text × Text)
merged [] metadata = metadata
merged ((name, value) ∷ others) metadata = merged others (insert name value metadata)

abbrev pub raised_by : Option Text → Option Fault
raised_by none = none
raised_by (some e) = some (raised e)

module _ {W R : Type 0} (store : Store W R) (limits : Limits) where
  -- A value of the context that is a string with a character at least.
  abbrev pub present : Text → Option Text
  present name = elim (store.context_value name) [
    | none ↦ none
    | some value ↦ if text_eqb value [] then none else some value
  ]

  abbrev pub with_value : Text → Option Text → List (Text × Text) → List (Text × Text)
  with_value name none metadata = metadata
  with_value name (some value) metadata = insert name value metadata

  abbrev pub or_made : Option Text → Text → Text
  or_made none made = made
  or_made (some value) made = value

  unfoldable pub trace_metadata : List (Text × Text)
  trace_metadata =
      let traced =
        insert (codes "Trace-Id") (or_made (present (codes "trace_id")) store.trace_id) [] in
      let spanned =
        insert (codes "Span-Id") (or_made (present (codes "span_id")) store.span_id) traced in
      let with_parent =
        with_value (codes "Parent-Span-Id") (present (codes "parent_span_id")) spanned in
      let timed = insert (codes "Timestamp") store.timestamp with_parent in
      with_value (codes "Request-Id") (present (codes "request_id")) timed

  unfoldable pub sent_options : PutOptions → SentOptions
  sent_options options = record {
    sent_part_size = if ltb 0 options.part_size then options.part_size else limits.min_part_size;
    user_metadata = merged options.metadata trace_metadata;
    sent_content_type = options.content_type;
  }

  abbrev pub default_put_options : PutOptions
  default_put_options = record {
    size = unknown_size;
    content_type = [];
    metadata = [];
    part_size = 0;
  }

  abbrev pub after_put :
      Text → Text → Client → (ℤ × Option Text) × W → Result Fault ℤ × (Client × W)
  after_put bucket key c ((size, error), w') = (
    elim error [ none ↦ ok size | some e ↦ err (raised e) ],
    (observe_operation (codes "put") bucket key (raised_by error) size [] c, w'),
  )

  unfoldable pub put_object :
      Text → Text → List PutOption → Client → W → Result Fault ℤ × (Client × W)
  put_object bucket key opts c w =
      let options = all_put_applied opts default_put_options in
      if store.connected w
      then after_put bucket key c
          (store.put_object bucket key options.size (sent_options options) w)
      else (
        err connection_failed,
        (observe_operation (codes "put") bucket key (some connection_failed) (pos 0) [] c, w),
      )

  abbrev pub after_delete : Text → Text → Client → Option Text × W → Option Fault × (Client × W)
  after_delete bucket key c (error, w') = (
    raised_by error,
    (observe_operation (codes "delete") bucket key (raised_by error) (pos 0) [] c, w'),
  )

  unfoldable pub delete_object : Text → Text → Client → W → Option Fault × (Client × W)
  delete_object bucket key c w =
      if store.connected w then after_delete bucket key c (store.remove_object bucket key w) else (
        some connection_failed,
        (observe_operation (codes "delete") bucket key (some connection_failed) (pos 0) [] c, w),
      )

  -- The buffer for an object of the given size: it is grown and then emptied.
  unfoldable pub sized : ℕ → Buffer → Buffer
  sized size b =
      let buffer_size =
        if int_ltb limits.initial_buffer_size (pos size)
        then limits.initial_buffer_size
        else pos size in
      reset (
        if int_ltb (pos b.cap) buffer_size
        then elim buffer_size [ pos n ↦ store.grow (n - b.cap) b | negsuc n ↦ b ]
        else b)

  module _ (bucket key : Text) (c : Client) where
    abbrev pub shown_get : Option Fault → ℕ → Client
    shown_get error size = observe_operation (codes "get") bucket key error (pos size) [] c

    abbrev pub get_fails : Text → Text → BufferPool → Result Fault (List ℕ) × (Client × BufferPool)
    get_fails words e pool = (err (wrapped words e), (shown_get (some (raised e)) 0, pool))

    unfoldable pub get_small : R → ℕ → BufferPool → Result Fault (List ℕ) × (Client × BufferPool)
    get_small reader size pool = elim (store.read_full reader size) [
      | err e ↦ get_fails (codes "failed to read object data") e pool
      | ok bytes ↦ (ok bytes, (shown_get none size, pool))
    ]

    unfoldable pub get_large :
        R → ℕ → Option ℕ → BufferPool → Result Fault (List ℕ) × (Client × BufferPool)
    get_large reader size place pool =
        let (b, taken) = get place pool in
        let (error, used) = store.copy reader (sized size b) in
        let returned = put (some used) taken in
        elim error [
          | some e ↦ get_fails (codes "failed to read large object") e returned
          | none ↦ (ok used.content, (shown_get none (length used.content), returned))
        ]

    -- `place` is what `sync.Pool` takes a buffer from.
    unfoldable pub get_object :
        List GetOption → Option ℕ → BufferPool → W → Result Fault (List ℕ) × (Client × BufferPool)
    get_object opts place pool w =
        let options = all_get_applied opts no_get_options in
        if store.connected w
        then elim (store.get_object bucket key options.version_id w) [
          | err e ↦ get_fails (codes "failed to get object") e pool
          | ok reader ↦ elim (store.stat reader) [
            | err e ↦ get_fails (codes "failed to get object stats") e pool
            | ok size ↦
                if int_ltb (pos size) limits.small_file_threshold
                then get_small reader size pool
                else get_large reader size place pool
          ]
        ]
        else (err connection_failed, (shown_get (some connection_failed) 0, pool))
