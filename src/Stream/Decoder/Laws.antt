-- ===== src/Stream/Decoder/Laws.antt =====
-- The limit of a stream decoder, and how a context interrupts it.
use jsonrpc.Base.{
  ℕ, zero, suc, ◌+◌, ◌≤◌, ◌==◌, is_positive, Bool, true, false, ◌&&◌, Option, none, some, [], ◌∷◌,
  if◌then◌else◌, ◌≡◌, ◌⊎◌, inl, inr, refl, ap, ◌∙◌, arith,
}
use jsonrpc.Failure.{GoError, sentinel, json_too_large}
use jsonrpc.Stream.{
  Support, neither, closes, deadlines, Interruption, clear_deadline, prepare, frame,
}
use jsonrpc.Stream.Frame.{
  Joined, frame-outcome, context_error, unread_context, closing, is_closer, frame_closing,
  frame_deadlines,
}
use jsonrpc.Stream.Limited.{Reader, IsReader, run, run-draws}
use jsonrpc.Stream.Decoder.{
  JsonDecoder, StreamDecoder, untouched, amount, io_err, at_end, plain_decode, rewind,
  cancel_decode, decode,
}

-- There is a limited reader exactly if the limit is above 0, and it has no more than the limit left.
abbrev pub IsWellFormed {κ} : {D : Type κ} → StreamDecoder D → Type 0
IsWellFormed i =
    ((i.lr ≡ none) × (is_positive i.n ≡ false))
    ⊎ ((m : ℕ) × (i.lr ≡ some m) × (is_positive i.n ≡ true) × (m ≤ amount i.n))

-- An error of the JSON decoder, and whether the limit is used up.
unfoldable pub translated : Bool → Option GoError → Option GoError
unfolding at_end
translated full none = none
translated full (some e) = some (if full && at_end e then sentinel json_too_large else e)

pub rewind-limited {κ} :
    {D : Type κ} (d : StreamDecoder D)
    → IsWellFormed d
    → is_positive d.n ≡ true
    → rewind d ≡ record d { lr = some (amount d.n) }
unfolding rewind
rewind-limited d (inl (e, z)) p = cc
rewind-limited d (inr (m, e, q, le)) p = rw e refl

io_err-translated :
    (left drawn n : ℕ) (err : Option GoError)
    → left + drawn ≡ n
    → io_err (some left) err ≡ translated (drawn == n) err
unfolding io_err translated at_end
io_err-translated left drawn n none h = refl
io_err-translated zero drawn n (some e) h = ground arith
io_err-translated (suc m) drawn n (some e) h = ground arith

module _ {ℓ κ ι} {S : Type ℓ} {D : Type κ} {V : Type ι} (r : Reader S) (j : JsonDecoder D V)
    (h : IsReader r) where
  pub plain_decode-drawn :
      (d : StreamDecoder D) (s : S) (m : ℕ)
      → d.lr ≡ some m
      → (k : ℕ) × ((plain_decode r j d s).0.decoder.lr ≡ some k)
        × (k + (plain_decode r j d s).0.drawn ≡ m)
  unfolding plain_decode
  plain_decode-drawn d s m e =
      let (k, l, q) = run-draws r (j.decode d.d) s m 0 h in rw e (k, l, q ∙ omega arith)

  -- Decode leaves what the JSON decoder leaves behind a counter that is set back, whether or not the
  -- context fires: a success stays a success, and a failure is any sentinel that it was or that the
  -- context's error is. Only where the deadline cannot be cleared is nothing read, and that error returned.
  pub decode-outcome :
      (support : Support) (i : Interruption) (d : StreamDecoder D) (s : S)
      → let q = plain_decode r j (rewind d) s in
        let x = decode r j support i d s in
        ((prepare support i ≡ none) × (x.0 ≡ q.0) × Joined q.1 (context_error support i) x.1)
        ⊎ ((e : GoError) × (prepare support i ≡ some e)
            × (x ≡ (untouched (rewind d) s, some e, clear_deadline ∷ [])))
  unfolding decode cancel_decode
  decode-outcome neither i d s = inl (refl, refl, unread_context (plain_decode r j (rewind d) s).1)
  decode-outcome closes i d s =
      frame-outcome none closes (rewind d).t i (untouched (rewind d) s)
        (plain_decode r j (rewind d) s)
  decode-outcome deadlines i d s =
      frame-outcome i.reset deadlines (rewind d).t i (untouched (rewind d) s)
        (plain_decode r j (rewind d) s)

  -- With a limit above 0 a Decode draws no more bytes from the stream than the limit, whatever the JSON
  -- decoder reads and whatever the context does.
  pub decode-drawn :
      (support : Support) (i : Interruption) (d : StreamDecoder D) (s : S)
      → IsWellFormed d
      → is_positive d.n ≡ true
      → (decode r j support i d s).0.drawn ≤ amount d.n
  decode-drawn support i d s w p =
      let (k, l, q) =
        plain_decode-drawn (rewind d) s (amount d.n) (ap (λ x. x.lr) (rewind-limited d w p)) in
      elim (decode-outcome support i d s) [
        | inl (_, e, _) ↦ rw e (omega (arith, q))
        | inr (g, _, e) ↦ rw e (omega arith)
      ]

  -- With a limit above 0 the error of the JSON decoder is passed on, but ErrJSONTooLarge stands for an
  -- end of the input exactly if the whole limit was drawn.
  pub plain_decode-error :
      (d : StreamDecoder D) (s : S)
      → IsWellFormed d
      → is_positive d.n ≡ true
      → let reads = run r (j.decode d.d) s (some (amount d.n)) 0 in
        (plain_decode r j (rewind d) s).1 ≡ translated (reads.drawn == amount d.n) reads.result.2
  unfolding plain_decode
  plain_decode-error d s w p =
      let reads = run r (j.decode d.d) s (some (amount d.n)) 0 in
      let (m, l, q) = run-draws r (j.decode d.d) s (amount d.n) 0 h in
      rw (rewind-limited d w p)
        (rw l (io_err-translated m reads.drawn (amount d.n) reads.result.2 (q ∙ omega arith)))

  -- A Decode closes the stream exactly if the context fires, and the stream can be closed and takes no
  -- deadlines.
  pub decode-closes :
      (support : Support) (i : Interruption) (d : StreamDecoder D) (s : S)
      → closing (decode r j support i d s).2 ≡ (is_closer support && i.fired)
  unfolding decode cancel_decode frame
  decode-closes neither i d s = refl
  decode-closes closes i d s = frame_closing (rewind d).t closes i.fired
  decode-closes deadlines i d s =
      frame_deadlines i.reset (rewind d).t i (untouched (rewind d) s)
        (plain_decode r j (rewind d) s)
