-- ===== src/Stream/Encoder.antt =====
-- encoder.go: the encoder of a stream. A lock holds each call together, so the calls are steps in sequence.
use jsonrpc.Base.{ℤ, pos, ◌&&◌, Option, none, some, List, [], ◌∷◌, ◌≡◌, ◌⊎◌, inl, refl}
use jsonrpc.Failure.{GoError}
use jsonrpc.Stream.{
  Support, neither, closes, deadlines, Event, clear_deadline, Interruption, prepare, frame,
}
use jsonrpc.Stream.Frame.{
  Joined, frame-outcome, context_error, unread_context, closing, is_closer, frame_closing,
  frame_deadlines,
}

-- jsonrpc2.go: Encode of a JSONEncoder, which writes a value to its stream.
abbrev pub JsonEncoder {ℓ κ} : Type ℓ → Type κ → Type (ℓ ⊔ κ)
JsonEncoder S V = S → V → S × Option GoError

-- StreamEncoder. The writer and its JSON encoder are arguments of its methods.
pub record StreamEncoder : Type 0 where
  pub t : ℤ

-- NewStreamEncoder
unfoldable pub new_stream_encoder : StreamEncoder
new_stream_encoder = record { t = pos 0 }

-- SetIdleTimeout
unfoldable pub set_idle_timeout : ℤ → StreamEncoder → StreamEncoder
set_idle_timeout t i = record { t = t }

-- Close, for a stream whose Close gives an error or nil.
unfoldable pub close : Support → Option GoError → Option GoError × List Event
close neither err = (none, [])
close _ err = (err, Event.close ∷ [])

module _ {ℓ κ} {S : Type ℓ} {V : Type κ} (j : JsonEncoder S V) where
  -- cancelEncode
  unfoldable pub cancel_encode :
      Support → Interruption → StreamEncoder → S → V → S × Option GoError × List Event
  unfolding frame
  cancel_encode support i e s v = frame (prepare support i) support e.t i s (j s v)

  without_events : S × Option GoError → S × Option GoError × List Event
  without_events (s, err) = (s, err, [])

  -- Encode
  unfoldable pub encode :
      Support → Interruption → StreamEncoder → S → V → S × Option GoError × List Event
  unfolding cancel_encode without_events
  encode neither i e s v = without_events (j s v)
  encode closes i e s v = cancel_encode closes i e s v
  encode deadlines i e s v = cancel_encode deadlines i e s v

  -- Encode leaves what the JSON encoder leaves, whether or not the context fires: a success stays a
  -- success, and a failure is any sentinel that it was or that the context's error is. Only where the
  -- deadline cannot be cleared is nothing written, and that error returned.
  pub encode-outcome :
      (support : Support) (i : Interruption) (e : StreamEncoder) (s : S) (v : V)
      → let x = encode support i e s v in
        ((prepare support i ≡ none)
          × (x.0 ≡ (j s v).0)
          × Joined (j s v).1 (context_error support i) x.1)
        ⊎ ((g : GoError) × (prepare support i ≡ some g) × (x ≡ (s, some g, clear_deadline ∷ [])))
  unfolding encode cancel_encode
  encode-outcome neither i e s v = inl (refl, refl, unread_context (j s v).1)
  encode-outcome closes i e s v = frame-outcome none closes e.t i s (j s v)
  encode-outcome deadlines i e s v = frame-outcome i.reset deadlines e.t i s (j s v)

  -- An Encode closes the stream exactly if the context fires, and the stream can be closed and takes no
  -- deadlines.
  pub encode-closes :
      (support : Support) (i : Interruption) (e : StreamEncoder) (s : S) (v : V)
      → closing (encode support i e s v).2 ≡ (is_closer support && i.fired)
  unfolding encode cancel_encode frame
  encode-closes neither i e s v = refl
  encode-closes closes i e s v = frame_closing e.t closes i.fired
  encode-closes deadlines i e s v = frame_deadlines i.reset e.t i s (j s v)
