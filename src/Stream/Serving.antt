-- ===== src/Stream/Serving.antt =====
-- The main loop of rpcserver.go on a stream: what DecodeFrom of a decoderShim (shims.go) gives it.
use jsonrpc.Base.{
  ℕ, ◌==◌, ℤ, is_positive, true, Option, none, some, List, [], ◌∷◌, ◌++◌, Bytes, All, ◌≡◌, ◌⊎◌, inl,
  inr, refl, sym, ap, subst, ◌∙◌, arith,
}
use jsonrpc.Failure.{
  GoError, sentinel, json_too_large, canceled, deadline_exceeded, errors_is, error_any, errors_join,
}
use jsonrpc.Failure.Laws.{is_opt}
use jsonrpc.Handler.{Context}
use jsonrpc.Rpc.{RpcServer}
use jsonrpc.Rpc.Loop.{Input, run_server}
use jsonrpc.Rpc.Loop.Laws.{NotFatal, fatal_of, run_server-fatal}
use jsonrpc.Stream.{Support, neither, closes, deadlines, Interruption, prepare, frame, join_context}
use jsonrpc.Stream.Limited.{Reader, IsReader, run, Run}
use jsonrpc.Stream.Decoder.{
  JsonDecoder, StreamDecoder, untouched, amount, at_end, plain_decode, rewind, cancel_decode,
  decode,
}
use jsonrpc.Stream.Decoder.Laws.{IsWellFormed, translated, plain_decode-error}
use jsonrpc.Stream.Decoder.History.{decode-IsWellFormed}
use jsonrpc.Stream.Shims

abbrev pub or_empty : Option Bytes → Bytes
or_empty none = []
or_empty (some m) = m

module _ {ℓ κ} {S : Type ℓ} {D : Type κ} (r : Reader S) (j : JsonDecoder D Bytes)
    (support : Support) where
  -- Decode on a stream and its decoder as one state.
  unfoldable pub decode_one :
      Interruption → StreamDecoder D × S → (StreamDecoder D × S) × Option Bytes × Option GoError
  unfolding decode
  decode_one i (d, s) =
      let x = decode r j support i d s in ((x.0.decoder, x.0.stream), x.0.target, x.1)

  -- The state behind several calls.
  unfoldable pub after : List Interruption → StreamDecoder D × S → StreamDecoder D × S
  unfolding decode_one
  after [] t = t
  after (i ∷ is) t = after is (decode_one i t).0

  unfoldable pub input_of :
      (StreamDecoder D × S) × Option Bytes × Option Bytes × Option GoError → Input
  input_of (t, addr, target, err) = record { from = addr; buf = or_empty target; err = err }

  -- What the main loop gets from its decoder, call after call.
  unfoldable pub stream_inputs : List Interruption → StreamDecoder D × S → List Input
  unfolding decode_one input_of Shims.decode_from
  stream_inputs [] t = []
  stream_inputs (i ∷ is) t =
      let rest = stream_inputs is (decode_one i t).0 in
      input_of (Shims.decode_from (decode_one i) t) ∷ rest

  pub stream_inputs-append :
      (pre : List Interruption) (i : Interruption) (post : List Interruption)
      (t : StreamDecoder D × S)
      → stream_inputs (pre ++ i ∷ post) t
        ≡ stream_inputs pre t
          ++ input_of (Shims.decode_from (decode_one i) (after pre t))
            ∷ stream_inputs post (decode_one i (after pre t)).0
  unfolding stream_inputs after
  stream_inputs-append [] i post t = refl
  stream_inputs-append (k ∷ pre) i post t =
      ap (◌∷◌ (input_of (Shims.decode_from (decode_one k) t)))
        (stream_inputs-append pre i post (decode_one k t).0)

  after-IsWellFormed :
      IsReader r
      → (is : List Interruption) (t : StreamDecoder D × S) → IsWellFormed t.0
      → IsWellFormed (after is t).0
  unfolding after decode_one
  after-IsWellFormed h [] t w = w
  after-IsWellFormed h (i ∷ is) t w =
      after-IsWellFormed h is (decode_one i t).0 (decode-IsWellFormed r j h support i t.0 t.1 w)

pub frame_joined {ℓ} :
    {X : Type ℓ} (reset : Option GoError) (support : Support) (t : ℤ) (i : Interruption) (x : X)
    (y : X × Option GoError)
    → reset ≡ none
    → (frame reset support t i x y).1 ≡ join_context y.1 i.ctx_err
unfolding frame
frame_joined none support t i x (y, err) h = refl
frame_joined (some e) support t i x (y, err) h = cc

-- What Err of a context gives: nil, context.Canceled or context.DeadlineExceeded.
abbrev pub IsContextError : Option GoError → Type 0
IsContextError err =
    (err ≡ none) ⊎ (err ≡ some (sentinel canceled)) ⊎ (err ≡ some (sentinel deadline_exceeded))

-- An error that ends the main loop on a stream, and is ErrJSONTooLarge.
abbrev pub EndsTooLarge : Option GoError → Type 0
EndsTooLarge err =
    (f : GoError) × (err ≡ some f)
    × (fatal_of true err ≡ some f)
    × (errors_is json_too_large f ≡ true)

too_large_alone : EndsTooLarge (some (sentinel json_too_large))
unfolding errors_is error_any
too_large_alone = (sentinel json_too_large, refl, refl, refl)

too_large_joined :
    (ctx_err : Option GoError)
    → IsContextError ctx_err
    → EndsTooLarge (join_context (some (sentinel json_too_large)) ctx_err)
unfolding join_context errors_join errors_is error_any
too_large_joined ctx_err (inl h) = rw h (_, refl, refl, refl)
too_large_joined ctx_err (inr (inl h)) = rw h (_, refl, refl, refl)
too_large_joined ctx_err (inr (inr h)) = rw h (_, refl, refl, refl)

module _ {ℓ κ} {S : Type ℓ} {D : Type κ} (r : Reader S) (j : JsonDecoder D Bytes)
    (h : IsReader r) where
  decode_too_large :
      (support : Support) (i : Interruption) (d : StreamDecoder D) (s : S)
      → prepare support i ≡ none
      → IsContextError i.ctx_err
      → (plain_decode r j (rewind d) s).1 ≡ some (sentinel json_too_large)
      → EndsTooLarge (decode r j support i d s).1
  unfolding decode cancel_decode
  decode_too_large neither i d s p c e = subst EndsTooLarge (sym e) too_large_alone
  decode_too_large closes i d s p c e =
      subst (λ x. EndsTooLarge (join_context x i.ctx_err)) (sym e) (too_large_joined i.ctx_err c)
  decode_too_large deadlines i d s p c e =
      let d1 = rewind d in
      subst EndsTooLarge
        (sym (frame_joined i.reset deadlines d1.t i (untouched d1 s) (plain_decode r j d1 s) p))
        (subst (λ x. EndsTooLarge (join_context x i.ctx_err)) (sym e)
          (too_large_joined i.ctx_err c))

  -- What the JSON decoder does in the next Decode.
  abbrev pub next_reads : StreamDecoder D × S → Run S (D × Option Bytes × Option GoError)
  next_reads (d, s) = run r (j.decode d.d) s (some (amount d.n)) 0

  too_large_input :
      (support : Support) (i : Interruption) (t : StreamDecoder D × S) (e : GoError)
      → IsWellFormed t.0
      → prepare support i ≡ none
      → IsContextError i.ctx_err
      → is_positive t.0.n ≡ true
      → (next_reads t).drawn ≡ amount t.0.n
      → (next_reads t).result.2 ≡ some e
      → at_end e ≡ true
      → EndsTooLarge (decode r j support i t.0 t.1).1
  unfolding translated
  too_large_input support i (d, s) e w p c n full err ended =
      decode_too_large support i d s p c
        (plain_decode-error r j h d s w n ∙ (rw (full, err) (rw (same (amount d.n), ended) refl)))
    where
      same : (n : ℕ) → (n == n) ≡ true
      same n = ground arith

  -- A server on a stream whose limit is above 0 ends with ErrJSONTooLarge when a JSON value is not complete
  -- where the limit ends: if no call of Decode before gave a fatal error, the deadline can be
  -- cleared, and the JSON decoder draws the whole limit and fails with an end of the input, then Run
  -- returns an error that is ErrJSONTooLarge, whether or not the context fires, whatever would follow.
  pub run_server-too_large :
      (rp : RpcServer) (schedule : List Bytes → List Bytes) (ctx : Context)
      (ctx_err : Option GoError) (support : Support) (pre : List Interruption) (i : Interruption)
      (post : List Interruption) (t : StreamDecoder D × S) (e : GoError)
      → rp.decoder.is_stream ≡ true
      → IsWellFormed t.0
      → All (NotFatal rp schedule ctx) (stream_inputs r j support pre t)
      → prepare support i ≡ none
      → IsContextError i.ctx_err
      → is_positive (after r j support pre t).0.n ≡ true
      → (next_reads (after r j support pre t)).drawn ≡ amount (after r j support pre t).0.n
      → (next_reads (after r j support pre t)).result.2 ≡ some e
      → at_end e ≡ true
      → is_opt json_too_large
          (run_server rp schedule ctx ctx_err (stream_inputs r j support (pre ++ i ∷ post) t)).1
        ≡ true
  unfolding input_of decode_one Shims.decode_from
  run_server-too_large rp schedule ctx ctx_err support pre i post t e st w nf p c n full err ended =
      let u = after r j support pre t in
      let (f, q, fatal, is) =
        too_large_input support i u e (after-IsWellFormed r j support h pre t w) p c n full err
          ended in
      let ends =
        run_server-fatal rp schedule ctx json_too_large ctx_err (stream_inputs r j support pre t)
          (stream_inputs r j support post (decode_one r j support i u).0)
          (input_of r j support (Shims.decode_from (decode_one r j support i) u)) f nf
          (subst (λ b. fatal_of b (decode r j support i u.0 u.1).1 ≡ some f) (sym st) fatal) in
      rw (stream_inputs-append r j support pre i post t) (ends.1 ∙ rw is refl)
