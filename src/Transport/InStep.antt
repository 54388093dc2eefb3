-- ===== src/Transport/InStep.antt =====
-- Calls on one connection get the answers to their own requests.
use jsonrpc.Base.{
  ◌⊎◌, inl, inr, Bool, true, false, Option, none, some, List, [], ◌∷◌, ◌++◌, Bytes, All, ◌≡◌, refl,
  sym, ap, ◌∙◌,
}
use jsonrpc.Failure.{GoError, Outcome, ok, fail}
use jsonrpc.Transport.{Outgoing, TransportClient, call, after_encode}

abbrev pub listed : Option Bytes → List Bytes
listed none = []
listed (some m) = m ∷ []

-- A connection to a peer that answers: `pending` are the messages that are on their way to the decoder.
-- What is sent without an error is answered behind those; Decode takes the first of them, or
-- fails.
pub record IsAnswered {ℓ} {S : Type ℓ} (c : TransportClient S) (answer : Outgoing → Option Bytes)
    : Type ℓ where
  pub pending : S → List Bytes
  pub encode_sends :
      (s : S) (x : Outgoing)
      → (c.encode s x).1 ≡ none
      → pending (c.encode s x).0 ≡ pending s ++ listed (answer x)
  pub decode_takes :
      (s : S) (m : Bytes) → (c.decode s).1 ≡ ok m → pending s ≡ m ∷ pending (c.decode s).0

-- One call: what is sent, and whether it is a notification.
pub record Exchange : Type 0 where
  pub ctx_err : Option GoError
  pub outgoing : Outgoing
  pub is_notify : Bool

-- A notification: the error of the context, or what Encode leaves and its error, and nothing more, as no response is
-- waited for.
abbrev pub only_sent {ℓ} :
    {S : Type ℓ} → S → Option GoError → S × Option GoError → S × Outcome Bytes
only_sent s (some e) r = (s, fail e)
only_sent s none (t, some e) = (t, fail e)
only_sent s none (t, none) = (t, ok [])

-- The peer answers no notification.
abbrev pub Suits : (Outgoing → Option Bytes) → Outgoing → Bool → Type 0
Suits answer x true = answer x ≡ none
Suits answer x false = Unit

listed_one :
    (o : Option Bytes) (m : Bytes) (ms : List Bytes) → listed o ≡ m ∷ ms → (o ≡ some m) × (ms ≡ [])
listed_one none m ms h = cc
listed_one (some a) m ms h = (cc, cc)

-- Behind a call: the rest, or nothing at an error, as the pool drops a connection there.
abbrev go_on {ℓ κ} : {T : Type ℓ} {X : Type κ} → Outcome T → List X → List X
go_on (fail e) rest = []
go_on (ok m) rest = rest

module _ {ℓ} {S : Type ℓ} (c : TransportClient S) where
  -- Calls in sequence until one fails: each with the state before it, and with what it leaves and returns.
  abbrev pub exchanges : List Exchange → S → List (Exchange × S × S × Outcome Bytes)
  unfolding call
  exchanges [] s = []
  exchanges (x ∷ xs) s =
      let r = call c x.ctx_err s x.outgoing x.is_notify in
      let rest = exchanges xs r.0 in (x, s, r.0, r.1) ∷ go_on r.1 rest

  -- What a request returns and leaves: the answer to it, or the error of the context, of Encode or of Decode.
  abbrev pub Returns :
      (Outgoing → Option Bytes) → Option GoError → S → Outgoing → S → Outcome Bytes → Type ℓ
  Returns answer ctx_err s x t (ok m) = (answer x ≡ some m) × (t ≡ (c.decode (c.encode s x).0).0)
  Returns answer ctx_err s x t (fail e) =
      ((ctx_err ≡ some e) × (t ≡ s))
      ⊎ (((c.encode s x).1 ≡ some e) × (t ≡ (c.encode s x).0))
      ⊎ (((c.decode (c.encode s x).0).1 ≡ fail e) × (t ≡ (c.decode (c.encode s x).0).0))

  abbrev pub ReturnsBy :
      Bool → (Outgoing → Option Bytes) → Option GoError → S → Outgoing → S × Outcome Bytes → Type ℓ
  ReturnsBy true answer ctx_err s x r = r ≡ only_sent s ctx_err (c.encode s x)
  ReturnsBy false answer ctx_err s x r = Returns answer ctx_err s x r.0 r.1

  abbrev pub Behaves : (Outgoing → Option Bytes) → Exchange × S × S × Outcome Bytes → Type ℓ
  Behaves answer (x, s, t, o) = ReturnsBy x.is_notify answer x.ctx_err s x.outgoing (t, o)

  after_encode-only_sent :
      (s : S) (r : S × Option GoError) → after_encode c true r ≡ only_sent s none r
  unfolding after_encode
  after_encode-only_sent s (t, none) = refl
  after_encode-only_sent s (t, some e) = refl

  module _ (answer : Outgoing → Option Bytes) (l : IsAnswered c answer) where
    -- After a call that succeeded, nothing is on its way.
    abbrev InStep : Outcome Bytes → S → Type 0
    InStep (ok m) t = l.pending t ≡ []
    InStep (fail e) t = Unit

    only_sent-InStep :
        (s : S) (x : Outgoing) (e : Option GoError) (r : S × Option GoError)
        → (r.1 ≡ none → l.pending r.0 ≡ listed (answer x))
        → answer x ≡ none
        → InStep (only_sent s e r).1 (only_sent s e r).0
    only_sent-InStep s x (some e) r sent h = tt
    only_sent-InStep s x none (t, some e) sent h = tt
    only_sent-InStep s x none (t, none) sent h = sent refl ∙ ap listed h

    -- What Decode gives behind an Encode that has sent the request from `s`.
    received :
        (s t : S) (x : Outgoing) (o : Outcome Bytes)
        → c.encode s x ≡ (t, none)
        → (c.decode t).1 ≡ o
        → l.pending t ≡ listed (answer x)
        → InStep o (c.decode t).0 × Returns answer none s x (c.decode t).0 o
    received s t x (fail e) h q p = (tt, rw h (inr (inr (q, refl))))
    received s t x (ok m) h q p =
        let (a, n) =
          listed_one (answer x) m (l.pending (c.decode t).0) (sym p ∙ l.decode_takes t m q) in
        (n, (a, rw h refl))

    requested :
        (s : S) (x : Outgoing) (y : S × Option GoError)
        → c.encode s x ≡ y
        → (y.1 ≡ none → l.pending y.0 ≡ listed (answer x))
        → let r = after_encode c false y in InStep r.1 r.0 × Returns answer none s x r.0 r.1
    unfolding after_encode
    requested s x (t, some e) h sent = (tt, rw h (inr (inl (refl, refl))))
    requested s x (t, none) h sent = received s t x (c.decode t).1 h refl (sent refl)

    call-InStep :
        (e : Option GoError) (s : S) (x : Outgoing) (n : Bool)
        → l.pending s ≡ []
        → Suits answer x n
        → let r = call c e s x n in InStep r.1 r.0 × ReturnsBy n answer e s x r
    unfolding call
    call-InStep (some e) s x true p h = (tt, refl)
    call-InStep (some e) s x false p h = (tt, inl (refl, refl))
    call-InStep none s x true p h =
        let y = c.encode s x in
        let sent =
          λ (k : y.1 ≡ none). l.encode_sends s x k ∙ ap (λ ms. ms ++ listed (answer x)) p in
        rw (after_encode-only_sent s y) (only_sent-InStep s x none y sent h, refl)
    call-InStep none s x false p h =
        requested s x (c.encode s x) refl
          (λ k. l.encode_sends s x k ∙ ap (λ ms. ms ++ listed (answer x)) p)

    go_on-Behaves :
        (o : Outcome Bytes) (t : S) (rest : List (Exchange × S × S × Outcome Bytes))
        → InStep o t
        → (l.pending t ≡ [] → All (Behaves answer) rest)
        → All (Behaves answer) (go_on o rest)
    go_on-Behaves (fail e) t rest p later = tt
    go_on-Behaves (ok m) t rest p later = later p

    -- On a connection to a peer that answers each request once and no notification, and on which nothing is
    -- on its way, each call in a sequence that stops at the first failure behaves as follows. A request
    -- returns the answer to it, or an error of the context, of Encode or of Decode. A notification reads
    -- nothing: it succeeds where the context has no error and Encode gives none, and leaves what Encode leaves.
    pub exchanges-Behaves :
        (xs : List Exchange) (s : S)
        → l.pending s ≡ []
        → All (λ x. Suits answer x.outgoing x.is_notify) xs
        → All (Behaves answer) (exchanges xs s)
    unfolding call
    exchanges-Behaves [] s p h = tt
    exchanges-Behaves (x ∷ xs) s p (h, hs) =
        let r = call c x.ctx_err s x.outgoing x.is_notify in
        let (step, returns) = call-InStep x.ctx_err s x.outgoing x.is_notify p h in
        (
          returns,
          go_on-Behaves r.1 r.0 (exchanges xs r.0) step (λ q. exchanges-Behaves xs r.0 q hs),
        )
