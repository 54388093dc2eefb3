-- ===== src/Stream/Decoder/History.antt =====
-- A stream decoder through any history of its methods.
use jsonrpc.Base.{ℤ, is_positive, Bool-cases, none, List, [], ◌∷◌, ◌≡◌, inl, inr, refl, arith}
use jsonrpc.Stream.{Support, Interruption}
use jsonrpc.Stream.Limited.{Reader, IsReader, run-unlimited}
use jsonrpc.Stream.Decoder.{
  JsonDecoder, StreamDecoder, amount, new_stream_decoder, set_limit, plain_decode, rewind, decode,
  set_idle_timeout,
}
use jsonrpc.Stream.Decoder.Laws.{IsWellFormed, plain_decode-drawn, decode-outcome}

-- The methods that change the decoder.
pub data Method : Type 0 where
  limit timeout : ℤ → Method
  decoding : Support → Interruption → Method

module _ {ℓ κ ι} {S : Type ℓ} {D : Type κ} {V : Type ι} (r : Reader S) (j : JsonDecoder D V) where
  abbrev pub step : Method → StreamDecoder D × S → StreamDecoder D × S
  unfolding set_limit set_idle_timeout decode
  step (limit n) (d, s) = (set_limit j n d, s)
  step (timeout t) (d, s) = (set_idle_timeout t d, s)
  step (decoding support i) (d, s) = let x = decode r j support i d s in (x.0.decoder, x.0.stream)

  unfoldable pub history : List Method → S → StreamDecoder D × S
  unfolding step new_stream_decoder
  history [] s = (new_stream_decoder j, s)
  history (m ∷ ms) s = step m (history ms s)

  set_limit-IsWellFormed : (n : ℤ) (d : StreamDecoder D) → IsWellFormed (set_limit j n d)
  unfolding set_limit
  set_limit-IsWellFormed n d = elim (Bool-cases (is_positive n)) [
    | inl e ↦ rw e (inr (amount n, refl, e, omega arith))
    | inr e ↦ rw e (inl (refl, e))
  ]

  module _ (h : IsReader r) where
    rewind-IsWellFormed : (d : StreamDecoder D) → IsWellFormed d → IsWellFormed (rewind d)
    unfolding rewind
    rewind-IsWellFormed d (inl (e, p)) = rw e (inl (refl, p))
    rewind-IsWellFormed d (inr (m, e, p, le)) = rw e (inr (amount d.n, refl, p, omega arith))

    unlimited :
        (d : StreamDecoder D) (s : S) → d.lr ≡ none → (plain_decode r j d s).0.decoder.lr ≡ none
    unfolding plain_decode
    unlimited d s e = rw e (run-unlimited r (j.decode d.d) s 0)

    plain_decode-IsWellFormed :
        (d : StreamDecoder D) (s : S)
        → IsWellFormed d
        → IsWellFormed (plain_decode r j d s).0.decoder
    unfolding plain_decode
    plain_decode-IsWellFormed d s (inl (e, p)) = inl (unlimited d s e, p)
    plain_decode-IsWellFormed d s (inr (m, e, p, le)) =
        let (k, l, q) = plain_decode-drawn r j h d s m e in inr (k, l, p, omega (arith, q, le))

    pub decode-IsWellFormed :
        (support : Support) (i : Interruption) (d : StreamDecoder D) (s : S)
        → IsWellFormed d
        → IsWellFormed (decode r j support i d s).0.decoder
    decode-IsWellFormed support i d s w = elim (decode-outcome r j h support i d s) [
      | inl (_, e, _) ↦ rw e (plain_decode-IsWellFormed (rewind d) s (rewind-IsWellFormed d w))
      | inr (g, _, e) ↦ rw e (rewind-IsWellFormed d w)
    ]

    -- After any history a stream decoder reads through a limited reader exactly if its limit is above 0,
    -- with no more than the limit left.
    pub history-IsWellFormed : (ms : List Method) (s : S) → IsWellFormed (history ms s).0
    unfolding history
    history-IsWellFormed [] s = unfold new_stream_decoder in inl (refl, refl)
    history-IsWellFormed (limit n ∷ ms) s = set_limit-IsWellFormed n (history ms s).0
    history-IsWellFormed (timeout t ∷ ms) s = unfold set_idle_timeout in history-IsWellFormed ms s
    history-IsWellFormed (decoding support i ∷ ms) s =
        decode-IsWellFormed support i (history ms s).0 (history ms s).1 (history-IsWellFormed ms s)
