-- ===== src/Stream/Packets/Laws.antt =====
-- What becomes of one packet.
use jsonrpc.Base.{
  Bool, true, false, ◌||◌, Option, none, some, List, [], ◌∷◌, ◌++◌, Bytes, ◌≡◌, ◌⊎◌, inl, inr, refl,
  ap, ◌∙◌, arith,
}
use jsonrpc.Failure.{
  GoError, Sentinel, Outcome, ok, fail, wrap, and, none_left, error_text, errors_is, errors_join,
}
use jsonrpc.Failure.Laws.{is_opt, errors_is-join}
use jsonrpc.Stream.{Interruption, IsDone, Event, clear_deadline, derive}
use jsonrpc.Stream.Packets.{
  PacketConn, PacketConnDecoder, PacketConnEncoder, Received, Sent, read_size, after_read,
  after_clear, decode_from, after_write, after_marshal, encode_to,
}

-- An error, not nil, that is a sentinel exactly if one of two is.
abbrev pub EitherError : Option GoError → Option GoError → Option GoError → Type 0
EitherError a b out =
    (e : GoError) × (out ≡ some e) × ((s : Sentinel) → errors_is s e ≡ (is_opt s a || is_opt s b))

or_false : (b : Bool) → (b || false) ≡ b
or_false b = ground arith

join-EitherError :
    (a : Option GoError) (e : GoError) → EitherError a (some e) (errors_join (a ∷ some e ∷ []))
unfolding errors_join
join-EitherError none e = (
  wrap (error_text e) (and e none_left),
  refl,
  λ s. errors_is-join s (none ∷ some e ∷ []) ∙ or_false (errors_is s e),
)
join-EitherError (some d) e = (
  wrap (error_text d ++ 10 ∷ error_text e) (and d (and e none_left)),
  refl,
  λ s.
      errors_is-join s (some d ∷ some e ∷ [])
      ∙ ap (λ b. errors_is s d || b) (or_false (errors_is s e)),
)

-- What becomes of a packet that ReadFrom gives.
abbrev pub ReadCases {ℓ κ} :
    {S : Type ℓ} {V : Type κ}
    → (Bytes → Option V × Option GoError)
    → Interruption
    → Bool
    → S × Bytes × Option Bytes × Option GoError
    → Received S V
    → Type κ
ReadCases unmarshal i fired got x =
    ((fired ≡ false)
      × (got.3 ≡ none)
      × (x.target ≡ (unmarshal got.1).0)
      × (x.err ≡ (unmarshal got.1).1))
    ⊎ ((fired ≡ false) × (x.target ≡ none) × ((e : GoError) × (got.3 ≡ some e) × (x.err ≡ some e)))
    ⊎ ((fired ≡ true) × (x.target ≡ none) × EitherError got.3 i.ctx_err x.err)

module _ {ℓ κ} {S : Type ℓ} {V : Type κ} (c : PacketConn S) where
  after_read-outcome :
      (unmarshal : Bytes → Option V × Option GoError) (i : Interruption) (es : List Event)
      (got : S × Bytes × Option Bytes × Option GoError) (fired : Bool)
      → (fired ≡ false) ⊎ ((e : GoError) × (i.ctx_err ≡ some e))
      → let x = after_read c unmarshal i es got fired in
        (x.conn ≡ got.0) × (x.addr ≡ got.2) × ReadCases unmarshal i fired got x
  unfolding after_read
  after_read-outcome unmarshal i es (s, buf, addr, err) true (inl h) = cc
  after_read-outcome unmarshal i es (s, buf, addr, err) true (inr (e, h)) =
      (refl, refl, inr (inr (refl, refl, rw h (join-EitherError err e))))
  after_read-outcome unmarshal i es (s, buf, addr, some e) false h =
      (refl, refl, inr (inl (refl, refl, (e, refl, refl))))
  after_read-outcome unmarshal i es (s, buf, addr, none) false h =
      (refl, refl, inl (refl, refl, refl, refl))

  -- What DecodeFrom leaves, by the error of clearing the deadline.
  abbrev pub ReceiveCases :
      (Bytes → Option V × Option GoError)
      → Interruption
      → PacketConnDecoder
      → S
      → Option GoError
      → Received S V
      → Type (ℓ ⊔ κ)
  ReceiveCases unmarshal i d s reset x =
      let got = c.read_from s (read_size d) in
      ((e : GoError) × (reset ≡ some e) × (x.err ≡ some e) × (x.conn ≡ s) × (x.target ≡ none))
      ⊎ ((reset ≡ none) × (x.conn ≡ got.0) × (x.addr ≡ got.2) × ReadCases unmarshal i i.fired got x)

  after_clear-outcome :
      (unmarshal : Bytes → Option V × Option GoError) (i : Interruption) (d : PacketConnDecoder)
      (s : S) (reset : Option GoError)
      → IsDone i
      → ReceiveCases unmarshal i d s reset (after_clear c unmarshal i d s reset)
  unfolding after_clear
  after_clear-outcome unmarshal i d s (some e) h = inl (e, refl, refl, refl, refl)
  after_clear-outcome unmarshal i d s none h =
      let (x, y, z) =
        after_read-outcome unmarshal i (derive d.t ∷ clear_deadline ∷ [])
          (c.read_from s (read_size d)) i.fired h in
      inr (refl, x, y, z)

  -- DecodeFrom reads no packet where the deadline cannot be cleared. Else it takes what ReadFrom gives
  -- off the connection, and writes a value only from a packet that was read without an error and before
  -- the context fired; where it fired, the packet is dropped, and there is an error, of the reading or
  -- of the context.
  pub decode_from-outcome :
      (unmarshal : Bytes → Option V × Option GoError) (i : Interruption) (d : PacketConnDecoder)
      (s : S)
      → IsDone i
      → ReceiveCases unmarshal i d s i.reset (decode_from c unmarshal i d s)
  unfolding decode_from
  decode_from-outcome unmarshal i d s h = after_clear-outcome unmarshal i d s i.reset h

-- What becomes of a packet that is to be sent.
abbrev pub SendCases {ℓ} :
    {S : Type ℓ}
    → PacketConn S
    → Interruption
    → S
    → Option Bytes
    → Outcome Bytes
    → Option GoError
    → Sent S
    → Type ℓ
SendCases c i s addr marshaled reset x =
    ((g : GoError) × (x.err ≡ some g) × (x.conn ≡ s) × ((marshaled ≡ fail g) ⊎ (reset ≡ some g)))
    ⊎ ((buf : Bytes) × (marshaled ≡ ok buf)
        × (reset ≡ none)
        × (x.conn ≡ (c.write_to s buf addr).0)
        × (((i.fired ≡ false) × (x.err ≡ (c.write_to s buf addr).1))
            ⊎ ((i.fired ≡ true) × EitherError (c.write_to s buf addr).1 i.ctx_err x.err)))

after_write-outcome {ℓ} :
    {S : Type ℓ} (i : Interruption) (es : List Event) (s : S) (err : Option GoError) (fired : Bool)
    → (fired ≡ false) ⊎ ((e : GoError) × (i.ctx_err ≡ some e))
    → let x = after_write i es (s, err) fired in
      (x.conn ≡ s)
      × (((fired ≡ false) × (x.err ≡ err)) ⊎ ((fired ≡ true) × EitherError err i.ctx_err x.err))
unfolding after_write
after_write-outcome i es s err false h = (refl, inl (refl, refl))
after_write-outcome i es s err true (inl h) = cc
after_write-outcome i es s err true (inr (e, h)) = (refl, inr (refl, rw h (join-EitherError err e)))

after_marshal-outcome {ℓ} :
    {S : Type ℓ} (c : PacketConn S) (i : Interruption) (e : PacketConnEncoder) (s : S)
    (addr : Option Bytes) (marshaled : Outcome Bytes) (reset : Option GoError)
    → IsDone i
    → SendCases c i s addr marshaled reset (after_marshal c i e s addr marshaled reset)
unfolding after_marshal
after_marshal-outcome c i e s addr (fail g) reset h = inl (g, refl, refl, inl refl)
after_marshal-outcome c i e s addr (ok buf) (some g) h = inl (g, refl, refl, inr refl)
after_marshal-outcome c i e s addr (ok buf) none h =
    let (s1, err) = c.write_to s buf addr in
    let (x, y) = after_write-outcome i (derive e.t ∷ clear_deadline ∷ []) s1 err i.fired h in
    inr (buf, refl, refl, x, y)

-- EncodeTo sends no packet where the value cannot be marshaled or the deadline cannot be cleared. Else it
-- sends one, and gives the error of WriteTo, and if the context fired, an error of the writing or of
-- the context, though the packet may be sent.
pub encode_to-outcome {ℓ κ} :
    {S : Type ℓ} {V : Type κ} (c : PacketConn S) (marshal : V → Outcome Bytes) (i : Interruption)
    (e : PacketConnEncoder) (s : S) (v : V) (addr : Option Bytes)
    → IsDone i
    → SendCases c i s addr (marshal v) i.reset (encode_to c marshal i e s v addr)
unfolding encode_to
encode_to-outcome c marshal i e s v addr h =
    after_marshal-outcome c i e s addr (marshal v) i.reset h
