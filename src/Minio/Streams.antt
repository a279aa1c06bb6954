-- ===== src/Minio/Streams.antt =====
-- minio/object_utils.go: `StreamGet`. Its goroutine is what it sends on the two channels before it
-- closes them, over a script of what the reader and the context do in each turn of the loop. The logger
-- is left out.
pub mod Delivery
use stdlib_lab.Prelude.{
  ℕ, ◌+◌, Bool, true, false, List, [], ◌∷◌, Option, none, some, Result, ok, err, ℤ, pos, negsuc,
  Text, codes, length, if◌then◌else◌,
}
use stdlib_lab.Observability.{int}
use stdlib_lab.Minio.Observer.{Fault, connection_failed, raised, wrapped, Client, observe_operation}

-- The error that `Read` returns with its bytes.
pub data ReadError : Type 0 where
  eof : ReadError
  failed : Text → ReadError

-- A turn of the loop: whether the context is done at its beginning, the bytes that `Read` gives and the
-- error with them, and whether the context is done before the bytes are received.
pub record Turn : Type 0 where
  pub cancelled : Bool
  pub data_read : List ℕ
  pub ended : Option ReadError
  pub stopped : Bool

-- Where the goroutine is after the script: in the loop, at the end with both channels closed, or in a
-- panic, which is that of `make` at a negative length.
pub data Ending : Type 0 where
  reading closed panicked : Ending

pub record Stream : Type 0 where
  pub data_ch : List (List ℕ)
  pub err_ch : Option Fault
  pub ending : Ending
  pub client : Client

-- What the code takes from outside: whether the pointer is set, and the error of `GetObject`.
pub record Source (W : Type 0) : Type 0 where
  pub connected : W → Bool
  pub get_object : Text → Text → W → Option Text
  pub context_error : Text

unfoldable pub sent_before : List ℕ → Stream → Stream
sent_before chunk s = record s { data_ch = chunk ∷ s.data_ch }

module _ {W : Type 0} (api : Source W) (bucket key : Text) (chunk_size : ℤ) (c : Client) where
  -- The goroutine returns: what the observer is shown, and what is sent on the channel of errors.
  unfoldable pub returns : Option Fault → Option Fault → ℕ → Stream
  returns shown sent total = record {
    data_ch = [];
    err_ch = sent;
    ending = Ending.closed;
    client =
        observe_operation (codes "stream_get") bucket key shown (pos total)
          ((codes "chunk_size", int chunk_size) ∷ []) c;
  }

  abbrev pub context_done : ℕ → Stream
  context_done total =
      returns (some (raised api.context_error)) (some (raised api.context_error)) total

  -- The end of a turn, with what the turns after it do.
  unfoldable pub after_read : Option ReadError → ℕ → Stream → Stream
  after_read none total rest = rest
  after_read (some eof) total rest = returns none none total
  after_read (some (failed e)) total rest =
      returns (some (raised e)) (some (wrapped (codes "error reading object") e)) total

  unfoldable pub read_chunks : List Turn → ℕ → Stream
  read_chunks [] total = record { data_ch = []; err_ch = none; ending = Ending.reading; client = c }
  read_chunks (t ∷ ts) total =
      let total_bytes = total + length t.data_read in
      let rest = read_chunks ts total_bytes in
      if t.cancelled then context_done total else elim t.data_read [
        | [] ↦ after_read t.ended total_bytes rest
        | b ∷ bs ↦
            if t.stopped
            then context_done total_bytes
            else sent_before (b ∷ bs) (after_read t.ended total_bytes rest)
      ]

  unfoldable pub stream_get : List Turn → W → Stream
  stream_get turns w =
      if api.connected w
      then elim (api.get_object bucket key w) [
        | some e ↦ returns (some (raised e)) (some (wrapped (codes "failed to get object") e)) 0
        | none ↦ elim chunk_size [
          | pos n ↦ read_chunks turns 0
          | negsuc n ↦ record { data_ch = []; err_ch = none; ending = Ending.panicked; client = c }
        ]
      ]
      else returns (some connection_failed) (some connection_failed) 0
