-- ===== src/Stream/Ending.antt =====
-- A server on a stream that ends comes to an end: Run of rpcserver.go over a StreamDecoder without a limit.
use jsonrpc.Base.{
  ℕ, ℤ, ◌<◌, Bool-cases, true, Option, none, some, List, [], ◌∷◌, ◌++◌, Bytes, All, length, ◌≡◌,
  ◌⊎◌, inl, inr, refl, sym, ap, subst, ◌∙◌, arith,
}
use jsonrpc.Failure.{GoError, error_any, errors_join}
use jsonrpc.Handler.{Context}
use jsonrpc.Rpc.{RpcServer}
use jsonrpc.Rpc.Loop.{Input, run_server}
use jsonrpc.Rpc.Loop.Laws.{exit_error-some, fatal_of, is_fatal, run_server-ends}
use jsonrpc.Stream.{
  Support, neither, closes, deadlines, Event, Interruption, prepare, frame, join_context,
}
use jsonrpc.Stream.Limited.{Reader, run, run-unlimited}
use jsonrpc.Stream.Decoder.{
  JsonDecoder, StreamDecoder, Decoding, untouched, plain_decode, rewind, cancel_decode, decode,
  io_err,
}
use jsonrpc.Stream.Shims
use jsonrpc.Stream.Serving.{IsContextError, frame_joined, decode_one, input_of, stream_inputs}

-- An error that ends the loop on a stream still does when an error of the context is joined with it.
joined_fatal :
    (err : GoError) (ctx_err : Option GoError)
    → IsContextError ctx_err
    → is_fatal true err ≡ true
    → (f : GoError) × (join_context (some err) ctx_err ≡ some f) × (is_fatal true f ≡ true)
unfolding join_context errors_join error_any
joined_fatal err ctx_err (inl h) f = rw h (_, refl, ground arith)
joined_fatal err ctx_err (inr (inl h)) f = rw h (_, refl, ground arith)
joined_fatal err ctx_err (inr (inr h)) f = rw h (_, refl, ground arith)

fatal_of-some : (err : GoError) → is_fatal true err ≡ true → fatal_of true (some err) ≡ some err
fatal_of-some err f = rw f refl

fatal_of-cases :
    (err : Option GoError)
    → (fatal_of true err ≡ none) ⊎ ((e : GoError) × (err ≡ some e) × (is_fatal true e ≡ true))
fatal_of-cases none = inl refl
fatal_of-cases (some e) = elim (Bool-cases (is_fatal true e)) [
  | inl f ↦ inr (e, refl, f)
  | inr f ↦ inl (rw f refl)
]

ended :
    (err ctx_err out : Option GoError) (e : GoError)
    → IsContextError ctx_err
    → err ≡ some e
    → is_fatal true e ≡ true
    → (out ≡ err) ⊎ (out ≡ join_context err ctx_err)
    → (f : GoError) × (fatal_of true out ≡ some f)
ended err ctx_err out e c h f (inl q) = (e, rw (q, h) (fatal_of-some e f))
ended err ctx_err out e c h f (inr q) =
    let (g, k, l) = joined_fatal e ctx_err c f in (g, rw (q, h, k) (fatal_of-some g l))

io_err-none : (err : Option GoError) → io_err none err ≡ err
unfolding io_err
io_err-none none = refl
io_err-none (some e) = refl

rewind_unlimited {κ} : {D : Type κ} (d : StreamDecoder D) → d.lr ≡ none → rewind d ≡ d
unfolding rewind
rewind_unlimited d z = rw z refl

frame_left {ℓ} :
    {X : Type ℓ} (reset : Option GoError) (support : Support) (t : ℤ) (i : Interruption) (x : X)
    (y : X × Option GoError)
    → reset ≡ none
    → (frame reset support t i x y).0 ≡ y.0
unfolding frame
frame_left none support t i x (y, err) h = refl
frame_left (some e) support t i x (y, err) h = cc

-- A call that runs with this interruption: the deadline can be cleared, and Err of the context gives nil or
-- one of its two errors.
abbrev pub IsRegular : Support → Interruption → Type 0
IsRegular support i = (prepare support i ≡ none) × IsContextError i.ctx_err

-- The JSON decoder makes progress on a stream that ends: each Decode gives a fatal error, as at the end of the
-- stream, or leaves less to be read, by a measure of what is buffered and what the stream still holds.
abbrev pub IsProgressing {ℓ κ} :
    {S : Type ℓ} {D : Type κ} → Reader S → JsonDecoder D Bytes → (D → S → ℕ) → Type (ℓ ⊔ κ)
IsProgressing {S} {D} r j left =
    (d : D) (s : S)
    → let x = run r (j.decode d) s none 0 in
      ((e : GoError) × (x.result.2 ≡ some e) × (is_fatal true e ≡ true))
      ⊎ (left x.result.0 x.stream < left d s)

-- What is left to be read.
abbrev pub remaining {ℓ κ} : {S : Type ℓ} {D : Type κ} → (D → S → ℕ) → StreamDecoder D × S → ℕ
remaining left (d, s) = left d.d s

-- What a call that runs leaves, with the JSON decoder's result `q`.
abbrev pub HasRan {ℓ κ} :
    {S : Type ℓ} {D : Type κ}
    → Interruption
    → Decoding S D Bytes × Option GoError
    → Decoding S D Bytes × Option GoError × List Event
    → Type (ℓ ⊔ κ)
HasRan i q y = (y.0 ≡ q.0) × ((y.1 ≡ q.1) ⊎ (y.1 ≡ join_context q.1 i.ctx_err))

module _ {ℓ κ} {S : Type ℓ} {D : Type κ} (r : Reader S) (j : JsonDecoder D Bytes) where
  -- A call that runs leaves what the JSON decoder leaves.
  pub ran :
      (u : Support) (i : Interruption) (d : StreamDecoder D) (s : S)
      → prepare u i ≡ none
      → HasRan i (plain_decode r j (rewind d) s) (decode r j u i d s)
  unfolding decode cancel_decode frame
  ran neither i d s p = (refl, inl refl)
  ran closes i d s p = (refl, inr refl)
  ran deadlines i d s p =
      let d1 = rewind d in
      let q = plain_decode r j d1 s in
      (
        frame_left i.reset deadlines d1.t i (untouched d1 s) q p,
        inr (frame_joined i.reset deadlines d1.t i (untouched d1 s) q p),
      )

  plain_unlimited :
      (d : StreamDecoder D) (s : S)
      → d.lr ≡ none
      → let x = run r (j.decode d.d) s none 0 in
        let q = plain_decode r j (rewind d) s in
        (q.0.decoder.d ≡ x.result.0)
        × (q.0.stream ≡ x.stream)
        × (q.0.decoder.lr ≡ none)
        × (q.1 ≡ x.result.2)
  unfolding plain_decode
  plain_unlimited d s z =
      rw (rewind_unlimited d z, z)
        (
          refl,
          refl,
          run-unlimited r (j.decode d.d) s 0,
          rw (run-unlimited r (j.decode d.d) s 0)
              (io_err-none (run r (j.decode d.d) s none 0).result.2),
        )

module _ {ℓ κ} {S : Type ℓ} {D : Type κ} (r : Reader S) (j : JsonDecoder D Bytes)
    (support : Support) where
  advance :
      (left : D → S → ℕ) (i : Interruption) (t : StreamDecoder D × S)
      → IsProgressing r j left
      → IsRegular support i
      → t.0.lr ≡ none
      → let x = decode_one r j support i t in
        ((e : GoError) × (fatal_of true x.2 ≡ some e))
        ⊎ ((fatal_of true x.2 ≡ none) × (remaining left x.0 < remaining left t) × (x.0.0.lr ≡ none))
  unfolding decode_one
  advance left i (d, s) m (p, c) z =
      let (y, o) = ran r j support i d s p in
      let (a, b, l, k) = plain_unlimited r j d s z in
      elim (m d.d s) [
        | inl (e, h, f) ↦ inl (ended _ i.ctx_err _ e c (k ∙ h) f o)
        | inr lt ↦ elim (fatal_of-cases (decode r j support i d s).1) [
          | inl q ↦ inr (q, rw (y, a, b) lt, rw y l)
          | inr (e, q, f) ↦ inl (e, rw q (fatal_of-some e f))
        ]
      ]

  -- The inputs up to the first fatal error.
  Ends : List Input → Type 0
  Ends is =
      (pre : List Input) × (i : Input) × (post : List Input) × (e : GoError) × (is
        ≡ pre ++ i ∷ post)
      × All (λ k. fatal_of true k.err ≡ none) pre
      × (fatal_of true i.err ≡ some e)

  inputs_end :
      (left : D → S → ℕ) (is : List Interruption) (t : StreamDecoder D × S)
      → IsProgressing r j left
      → All (IsRegular support) is
      → t.0.lr ≡ none
      → remaining left t < length is
      → Ends (stream_inputs r j support is t)
  unfolding Ends stream_inputs input_of Shims.decode_from
  inputs_end left [] t m g z lt = ground (arith, lt)
  inputs_end left (i ∷ is) t m (g, gs) z lt = elim (advance left i t m g z) [
    | inl (e, f) ↦ ([], _, _, e, refl, tt, f)
    | inr (f, less, z1) ↦
        let (pre, k, post, e, q, h, l) =
          inputs_end left is (decode_one r j support i t).0 m gs z1 (omega (arith, lt, less)) in
        let x = input_of r j support (Shims.decode_from (decode_one r j support i) t) in
        (x ∷ pre, k, post, e, ap (◌∷◌ x) q, (f, h), l)
  ]

  -- Run on a stream without a limit returns if the stream ends: with a JSON decoder that makes progress by
  -- some measure, it returns an error within one call of DecodeFrom more than the measure of what is
  -- left to be read, whatever the messages are, how the server handles them, and whether the context
  -- fires. The deadline, where there is one, can be cleared in each call.
  pub run_server-returns :
      (rp : RpcServer) (schedule : List Bytes → List Bytes) (ctx : Context)
      (ctx_err : Option GoError) (left : D → S → ℕ) (is : List Interruption)
      (t : StreamDecoder D × S)
      → rp.decoder.is_stream ≡ true
      → IsProgressing r j left
      → All (IsRegular support) is
      → t.0.lr ≡ none
      → remaining left t < length is
      → (e : GoError) × ((run_server rp schedule ctx ctx_err (stream_inputs r j support is t)).1
          ≡ some e)
  unfolding Ends
  run_server-returns rp schedule ctx ctx_err left is t st m g z lt =
      let (pre, k, post, e, q, h, l) = inputs_end left is t m g z lt in
      let ends =
        run_server-ends rp schedule ctx ctx_err pre post k e
          (subst (λ b. All (λ k. fatal_of b k.err ≡ none) pre) (sym st) h)
          (subst (λ b. fatal_of b k.err ≡ some e) (sym st) l) in
      let (f, x) = exit_error-some rp ctx_err e in (f, rw q (ap (λ x. x.1) ends ∙ x))
