-- ===== src/Exchange/Connection.antt =====
-- A TransportClient (transportclient.go) on a connection to an RPCServer (rpcserver.go) that handles one message
-- after the other.
use jsonrpc.Base.{
  Bool, true, false, ◌≤◌, Option, none, some, List, [], ◌∷◌, ◌++◌, Bytes, length, ◌≡◌, refl, arith,
}
use jsonrpc.Failure.{GoError, Outcome, ok, fail}
use jsonrpc.Handler.{Context}
use jsonrpc.Message.Response.{Response}
use jsonrpc.Rpc.{RpcServer, Payload, Event, sent}
use jsonrpc.Rpc.Message.{run}
use jsonrpc.Rpc.Message.Single.{sends}
use jsonrpc.Rpc.Message.Answers.{run-sends_bound}
use jsonrpc.Transport.{Outgoing, TransportClient, call, after_encode}
use jsonrpc.Transport.InStep.{Exchange}

-- What arrives at the client: the payloads that the server's encoder has written without an error.
abbrev pub arrivals : (Payload → Bytes) → List Event → List Bytes
arrivals write [] = []
arrivals write (sent p _ none ∷ es) = write p ∷ arrivals write es
arrivals write (_ ∷ es) = arrivals write es

arrivals_bound :
    (write : Payload → Bytes) (es : List Event) → length (arrivals write es) ≤ length (sends es)
arrivals_bound write [] = omega arith
arrivals_bound write (sent p a none ∷ es) = omega (arith, arrivals_bound write es)
arrivals_bound write (sent p a (some e) ∷ es) = omega (arith, arrivals_bound write es)
arrivals_bound write (_ ∷ es) = arrivals_bound write es

abbrev pub first : List Bytes → Option Bytes
first [] = none
first (m ∷ ms) = some m

-- Decode: the first message on its way, and where there is none the error by which a read ends that finds nothing.
abbrev take_first : GoError → List Bytes → List Bytes × Outcome Bytes
take_first idle [] = ([], fail idle)
take_first idle (m ∷ ms) = (ms, ok m)

-- Calls in sequence, and what each returns.
abbrev pub outcomes {ℓ} :
    {S : Type ℓ} → TransportClient S → List Exchange → S → List (Outcome Bytes)
unfolding call
outcomes c [] s = []
outcomes c (x ∷ xs) s =
    let r = call c x.ctx_err s x.outgoing x.is_notify in let rest = outcomes c xs r.0 in r.1 ∷ rest

module _ (rp : RpcServer) (schedule : List Bytes → List Bytes) (ctx : Context)
    (write : Payload → Bytes) (encode_json : Outgoing → Outcome Bytes) (idle : GoError) where
  -- What the server answers to a message.
  abbrev pub replies_to : Outcome Bytes → List Bytes
  replies_to (fail e) = []
  replies_to (ok m) = arrivals write (run rp schedule ctx m none)

  abbrev pub send_to : List Bytes → Outcome Bytes → List Bytes × Option GoError
  send_to s (fail e) = (s, some e)
  send_to s (ok m) = (s ++ replies_to (ok m), none)

  -- The client, whose state is what is on its way back.
  abbrev pub client :
      (Bytes → Outcome Response) → (Bytes → Outcome (List Response)) → TransportClient (List Bytes)
  client read_response read_responses = record {
    encode = λ s x. send_to s (encode_json x);
    decode = take_first idle;
    unmarshal_response = read_response;
    unmarshal_responses = read_responses;
    close_encoder = none;
    close_decoder = none;
  }

  -- What a call should return: the error of its context or of Marshal; for a notification else nothing; and for a
  -- request else what the server sends to its message.
  abbrev pub answered : Option Bytes → Outcome Bytes
  answered none = fail idle
  answered (some m) = ok m

  abbrev pub expected_by : Option GoError → Outcome Bytes → Bool → Outcome Bytes
  expected_by (some e) o n = fail e
  expected_by none (fail e) n = fail e
  expected_by none (ok m) true = ok []
  expected_by none (ok m) false = answered (first (arrivals write (run rp schedule ctx m none)))

  abbrev pub expected : Exchange → Outcome Bytes
  expected x = expected_by x.ctx_err (encode_json x.outgoing) x.is_notify

  -- The server sends nothing to the message, if it is a notification.
  abbrev pub IsSilent : Outcome Bytes → Bool → Type 0
  IsSilent (ok m) true = arrivals write (run rp schedule ctx m none) ≡ []
  IsSilent (ok m) false = Unit
  IsSilent (fail e) n = Unit

  replies_bound : (m : Bytes) → length (arrivals write (run rp schedule ctx m none)) ≤ 1
  replies_bound m = omega (
    arith,
    arrivals_bound write (run rp schedule ctx m none),
    run-sends_bound rp schedule ctx m none,
  )

  taken : (ms : List Bytes) → length ms ≤ 1 → take_first idle ms ≡ ([], answered (first ms))
  taken [] h = refl
  taken (m ∷ []) h = refl
  taken (m ∷ n ∷ ms) h = ground (arith, h)

  module _ (read_response : Bytes → Outcome Response)
      (read_responses : Bytes → Outcome (List Response)) where
    -- Behind Encode, on a connection on which nothing was on its way.
    exchanged :
        (o : Outcome Bytes) (n : Bool)
        → IsSilent o n
        → after_encode (client read_response read_responses) n (send_to [] o)
          ≡ ([], expected_by none o n)
    unfolding after_encode
    exchanged (fail e) true h = refl
    exchanged (fail e) false h = refl
    exchanged (ok m) true h = rw h refl
    exchanged (ok m) false h = taken (arrivals write (run rp schedule ctx m none)) (replies_bound m)
