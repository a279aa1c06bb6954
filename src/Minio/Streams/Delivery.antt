-- ===== src/Minio/Streams/Delivery.antt =====
-- What a reader of the two channels of a stream receives.
use stdlib_lab.Prelude.{
  ℕ, ◌+◌, true, false, List, [], ◌∷◌, ◌++◌, Option, none, some, pos, Text, codes, length,
  length-append, ◌≡◌, refl, arith, ap, sym, ◌∙◌,
}
use mathlib.Core.List.{append_assoc, append-nil}
use stdlib_lab.Observability.{int}
use stdlib_lab.Minio.Observer.{Fault, raised, wrapped, Client, observe_operation}
use stdlib_lab.Minio.Streams.{
  ReadError, eof, failed, Turn, Ending, Source, sent_before, returns, after_read, read_chunks,
  stream_get,
}

abbrev pub joined : List (List ℕ) → List ℕ
joined [] = []
joined (x ∷ xs) = x ++ joined xs

-- Turns that nothing cancels: a `Read` with no error for each of the pieces, and a last one with the
-- given error.
abbrev pub undisturbed : List (List ℕ) → List ℕ → ReadError → List Turn
undisturbed [] last e =
    record { cancelled = false; data_read = last; ended = some e; stopped = false } ∷ []
undisturbed (piece ∷ pieces) last e =
    record { cancelled = false; data_read = piece; ended = none; stopped = false }
    ∷ undisturbed pieces last e

abbrev pub fault_shown : ReadError → Option Fault
fault_shown eof = none
fault_shown (failed e) = some (raised e)

abbrev pub fault_sent : ReadError → Option Fault
fault_sent eof = none
fault_sent (failed e) = some (wrapped (codes "error reading object") e)

module _ {W : Type 0} (api : Source W) (bucket key : Text) (chunk_size : ℕ) (c : Client) where
  -- The client after the stream has been shown to the observer.
  abbrev pub shown_stream : Option Fault → ℕ → Client
  shown_stream error size =
      observe_operation (codes "stream_get") bucket key error (pos size)
        ((codes "chunk_size", int (pos chunk_size)) ∷ []) c

  read_chunks-undisturbed :
      (pieces : List (List ℕ)) (last : List ℕ) (e : ReadError) (total : ℕ)
      → let s = read_chunks api bucket key (pos chunk_size) c (undisturbed pieces last e) total in
        (s.ending ≡ Ending.closed)
        × (joined s.data_ch ≡ joined pieces ++ last)
        × (s.err_ch ≡ fault_sent e)
        × (s.client ≡ shown_stream (fault_shown e) (total + (length (joined pieces) + length last)))
  unfolding read_chunks after_read returns sent_before
  read_chunks-undisturbed [] [] eof total = (refl, refl, refl, ap (shown_stream none) (omega arith))
  read_chunks-undisturbed [] (b ∷ bs) eof total =
      (refl, append-nil (b ∷ bs), refl, ap (shown_stream none) (omega arith))
  read_chunks-undisturbed [] [] (failed e) total =
      (refl, refl, refl, ap (shown_stream (some (raised e))) (omega arith))
  read_chunks-undisturbed [] (b ∷ bs) (failed e) total =
      (refl, append-nil (b ∷ bs), refl, ap (shown_stream (some (raised e))) (omega arith))
  read_chunks-undisturbed ([] ∷ pieces) last e total =
      let (closed, received, sent, shown) = read_chunks-undisturbed pieces last e (total + 0) in
      (closed, received, sent, shown ∙ ap (shown_stream (fault_shown e)) (omega arith))
  read_chunks-undisturbed ((b ∷ bs) ∷ pieces) last e total =
      let (closed, received, sent, shown) =
        read_chunks-undisturbed pieces last e (total + length (b ∷ bs)) in
      let sizes = length-append (b ∷ bs) (joined pieces) in
      (
        closed,
        ap (λ rest. (b ∷ bs) ++ rest) received ∙ sym (append_assoc (b ∷ bs) (joined pieces) last),
        sent,
        shown ∙ ap (shown_stream (fault_shown e)) (omega arith),
      )

  -- A stream whose client is connected, whose object is found and whose context lasts, over an object
  -- that is read in pieces up to a last one with the end of the file or an error: it ends and closes
  -- its channels, what is received is all the bytes in their order, the channel of errors has the
  -- wrapped error or nothing, and the observer, if it is set, is shown one operation with that error
  -- and the number of these bytes.
  pub stream_get_delivers :
      (pieces : List (List ℕ)) (last : List ℕ) (e : ReadError) (w : W)
      → api.connected w ≡ true
      → api.get_object bucket key w ≡ none
      → let s = stream_get api bucket key (pos chunk_size) c (undisturbed pieces last e) w in
        (s.ending ≡ Ending.closed)
        × (joined s.data_ch ≡ joined pieces ++ last)
        × (s.err_ch ≡ fault_sent e)
        × (s.client ≡ shown_stream (fault_shown e) (length (joined pieces) + length last))
  unfolding stream_get
  stream_get_delivers pieces last e w connected found =
      let (closed, received, sent, shown) = read_chunks-undisturbed pieces last e 0 in
      rw (connected, found)
        (closed, received, sent, shown ∙ ap (shown_stream (fault_shown e)) (omega arith))
