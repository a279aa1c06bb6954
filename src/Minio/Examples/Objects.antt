-- ===== src/Minio/Examples/Objects.antt =====
-- An object of three bytes, in a store whose readers are the bytes, and a stream of it in two pieces.
use stdlib_lab.Prelude.{
  ◌++◌, ℕ, ◌+◌, true, List, [], ◌∷◌, none, some, ok, pos, codes, length, ◌≡◌, refl,
}
use stdlib_lab.Minio.BufferPool.{BufferPool, new_buffer_pool_with_config}
use stdlib_lab.Minio.Observer.{Client}
use stdlib_lab.Minio.Objects.{
  Store, Limits, GetOption, with_version_id, with_byte_range, get_object, shown_get,
}
use stdlib_lab.Minio.Objects.Whole.{Gives, byte_range_ignored, get_returns_object}
use stdlib_lab.Minio.Streams.{Source, failed, stream_get, Ending}
use stdlib_lab.Minio.Streams.Delivery.{
  undisturbed, joined, fault_sent, fault_shown, shown_stream, stream_get_delivers,
}

abbrev content : List ℕ
content = 1 ∷ 2 ∷ 3 ∷ []

abbrev store : Store ℕ (List ℕ)
store = record {
  connected = λ w. true;
  get_object = λ bucket key version w. ok content;
  stat = λ reader. ok (length reader);
  read_full = λ reader n. ok reader;
  copy = λ reader b. (none, record b { content = b.content ++ reader });
  grow = λ n b. record b { cap = b.cap + n };
  put_object = λ bucket key size options w. ((size, none), w);
  remove_object = λ bucket key w. (none, w);
  context_value = λ name. none;
  trace_id = codes "t";
  span_id = codes "s";
  timestamp = codes "now";
}

abbrev limits : Limits
limits = record { small_file_threshold = pos 2; initial_buffer_size = pos 64; min_part_size = 0 }

abbrev pool : BufferPool
pool =
    new_buffer_pool_with_config
      (record { max_buffer_size = pos 64; max_pool_size = pos 1; initial_buffer_size = 16 })

-- A pool with a buffer that was not emptied.
abbrev stale : BufferPool
stale = record pool { pool = record { cap = 1; content = 9 ∷ [] } ∷ []; pool_size = 1 }

abbrev watched : Client
watched = record { observer = some [] }

content-Gives : Gives store content content
content-Gives = record {
  stated = refl;
  read_whole = refl;
  copied = λ b. refl;
  copied_whole = λ b. refl;
}

abbrev first_byte : List GetOption
first_byte = with_byte_range (pos 0) (pos 0) ∷ with_version_id (codes "v") ∷ []

byte_range_ignored_example :
    get_object store limits (codes "b") (codes "k") watched first_byte none pool 0
    ≡ get_object store limits
        (codes "b")
        (codes "k")
        watched
        (with_version_id (codes "v") ∷ [])
        none
        pool
        0
byte_range_ignored_example =
    byte_range_ignored store limits (codes "b") (codes "k") watched first_byte none pool 0

get_returns_object_example :
    let result =
      get_object store limits (codes "b") (codes "k") watched first_byte (some 0) stale 0 in
    (result.0 ≡ ok content)
    × (result.1.0 ≡ shown_get store limits (codes "b") (codes "k") watched none 3)
get_returns_object_example =
    get_returns_object store limits (codes "b") (codes "k") watched first_byte (some 0) stale 0
      {content = content} refl refl content-Gives

abbrev source : Source ℕ
source = record {
  connected = λ w. true;
  get_object = λ bucket key w. none;
  context_error = codes "context canceled";
}

abbrev pieces : List (List ℕ)
pieces = (1 ∷ 2 ∷ []) ∷ [] ∷ []

stream_get_delivers_example :
    let s =
      stream_get source
        (codes "b")
        (codes "k")
        (pos 2)
        watched
        (undisturbed pieces (3 ∷ []) (failed (codes "reset")))
        0 in
    (s.ending ≡ Ending.closed)
    × (joined s.data_ch ≡ content)
    × (s.err_ch ≡ fault_sent (failed (codes "reset")))
    × (s.client
        ≡ shown_stream source
            (codes "b")
            (codes "k")
            2
            watched
            (fault_shown (failed (codes "reset")))
            3)
stream_get_delivers_example =
    stream_get_delivers source (codes "b") (codes "k") 2 watched pieces (3 ∷ [])
      (failed (codes "reset")) 0 refl refl
