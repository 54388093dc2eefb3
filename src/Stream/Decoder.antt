-- ===== src/Stream/Decoder.antt =====
-- decoder.go: the decoder of a stream.
pub mod Laws
pub mod History
use jsonrpc.Base.{
  ℕ, zero, suc, ℤ, pos, negsuc, is_positive, Bool, true, false, ◌||◌, Option, none, some, List, [],
  ◌∷◌, if◌then◌else◌,
}
use jsonrpc.Failure.{GoError, sentinel, eof, unexpected_eof, json_too_large, errors_is}
use jsonrpc.Stream.{Support, neither, closes, deadlines, Event, Interruption, prepare, frame}
use jsonrpc.Stream.Limited.{Reads, Reader, Run, run}

-- jsonrpc2.go: a JSONDecoder, with its buffer `D` as state. `fresh` is what NewJSONDecoder gives. A
-- Decode leaves its state, the value that it has written, if it has, and its error.
pub record JsonDecoder {ℓ κ} (D : Type ℓ) (V : Type κ) : Type (ℓ ⊔ κ) where
  pub fresh : D
  pub decode : D → Reads (D × Option V × Option GoError)

-- StreamDecoder. The reader is an argument of its methods; `lr` is the rest of the limit, which is not
-- below 0 for a reader that keeps its contract.
pub record StreamDecoder {ℓ} (D : Type ℓ) : Type ℓ where
  pub lr : Option ℕ
  pub d : D
  pub n : ℤ
  pub t : ℤ

-- What Decode leaves: the decoder, the stream, the bytes drawn from it, and the value written.
pub record Decoding {ℓ κ ι} (S : Type ℓ) (D : Type κ) (V : Type ι) : Type (ℓ ⊔ κ ⊔ ι) where
  pub decoder : StreamDecoder D
  pub stream : S
  pub drawn : ℕ
  pub target : Option V

abbrev pub amount : ℤ → ℕ
amount (pos n) = n
amount (negsuc n) = 0

unfoldable pub at_end : GoError → Bool
unfolding errors_is
at_end e = errors_is eof e || errors_is unexpected_eof e

-- ioErr, for a reader that has `lr` left.
unfoldable pub io_err : Option ℕ → Option GoError → Option GoError
unfolding at_end
io_err lr none = none
io_err none (some e) = some e
io_err (some (suc n)) (some e) = some e
io_err (some zero) (some e) = some (if at_end e then sentinel json_too_large else e)

-- NewStreamDecoder
unfoldable pub new_stream_decoder {κ ι} :
    {D : Type κ} {V : Type ι} → JsonDecoder D V → StreamDecoder D
new_stream_decoder j = record { lr = none; d = j.fresh; n = pos 0; t = pos 0 }

-- SetLimit. What the old JSON decoder has buffered is dropped.
unfoldable pub set_limit {κ ι} :
    {D : Type κ} {V : Type ι} → JsonDecoder D V → ℤ → StreamDecoder D → StreamDecoder D
set_limit j n i =
    if is_positive n
    then record i { n = n; lr = some (amount n); d = j.fresh }
    else record i { n = n; lr = none; d = j.fresh }

-- Decode, up to the test for an io.Closer: the counter is set back.
unfoldable pub rewind {κ} : {D : Type κ} → StreamDecoder D → StreamDecoder D
rewind i = elim i.lr [ none ↦ i | some m ↦ record i { lr = some (amount i.n) } ]

abbrev pub untouched {ℓ κ ι} :
    {S : Type ℓ} {D : Type κ} {V : Type ι} → StreamDecoder D → S → Decoding S D V
untouched i s = record { decoder = i; stream = s; drawn = 0; target = none }

module _ {ℓ κ ι} {S : Type ℓ} {D : Type κ} {V : Type ι} (r : Reader S) (j : JsonDecoder D V) where
  -- i.ioErr(i.d.Decode(v))
  unfoldable pub plain_decode : StreamDecoder D → S → Decoding S D V × Option GoError
  unfolding run io_err
  plain_decode i s =
      let reads = run r (j.decode i.d) s i.lr 0 in
      let (d, target, err) = reads.result in
      let left = record i { lr = reads.left; d = d } in
      (
        record { decoder = left; stream = reads.stream; drawn = reads.drawn; target = target },
        io_err reads.left err,
      )

  -- cancelDecode
  unfoldable pub cancel_decode :
      Support → Interruption → StreamDecoder D → S → Decoding S D V × Option GoError × List Event
  unfolding frame plain_decode
  cancel_decode support i d s =
      frame (prepare support i) support d.t i (untouched d s) (plain_decode d s)

  without_events : Decoding S D V × Option GoError → Decoding S D V × Option GoError × List Event
  without_events (x, err) = (x, err, [])

  -- Decode
  unfoldable pub decode :
      Support → Interruption → StreamDecoder D → S → Decoding S D V × Option GoError × List Event
  unfolding rewind cancel_decode plain_decode without_events
  decode neither i d s = without_events (plain_decode (rewind d) s)
  decode closes i d s = cancel_decode closes i (rewind d) s
  decode deadlines i d s = cancel_decode deadlines i (rewind d) s

-- SetIdleTimeout
unfoldable pub set_idle_timeout {κ} : {D : Type κ} → ℤ → StreamDecoder D → StreamDecoder D
set_idle_timeout t i = record i { t = t }

-- Close, for a stream whose Close gives an error or nil.
unfoldable pub close : Support → Option GoError → Option GoError × List Event
close neither err = (none, [])
close _ err = (err, Event.close ∷ [])
