-- ===== src/Transport/Examples.antt =====
-- A connection to a peer that echoes.
use jsonrpc.Base.{
  true, false, Option, none, some, List, [], ◌∷◌, ◌++◌, Bytes, codes, All, ◌≡◌, refl,
}
use jsonrpc.Failure.{Outcome, ok, fail, sentinel, eof}
use jsonrpc.Message.Request.{zero_request}
use jsonrpc.Message.Response.{zero_response}
use jsonrpc.Transport.{Outgoing, request, requests, raw_message, TransportClient}
use jsonrpc.Transport.InStep.{IsAnswered, Exchange, Behaves, listed, exchanges, exchanges-Behaves}

-- It answers a raw message by the same message, and nothing else.
abbrev echo : Outgoing → Option Bytes
echo (raw_message m) = some m
echo (request r) = none
echo (requests rs) = none

abbrev take : List Bytes → List Bytes × Outcome Bytes
take [] = ([], fail (sentinel eof))
take (m ∷ ms) = (ms, ok m)

abbrev client : TransportClient (List Bytes)
client = record {
  encode = λ s x. (s ++ listed (echo x), none);
  decode = take;
  unmarshal_response = λ m. ok zero_response;
  unmarshal_responses = λ m. ok [];
  close_encoder = none;
  close_decoder = none;
}

take_takes : (s : List Bytes) (m : Bytes) → (take s).1 ≡ ok m → s ≡ m ∷ (take s).0
take_takes [] m h = cc
take_takes (a ∷ s) m h = cc

unfoldable client-IsAnswered : IsAnswered client echo
client-IsAnswered = record {
  pending = λ s. s;
  encode_sends = λ s x h. refl;
  decode_takes = take_takes;
}

abbrev ping : Exchange
ping = record { ctx_err = none; outgoing = raw_message (codes "ping"); is_notify = false }

abbrev note : Exchange
note = record { ctx_err = none; outgoing = request zero_request; is_notify = true }

exchanges-Behaves_example :
    All (Behaves client echo) (exchanges client (ping ∷ note ∷ ping ∷ []) [])
unfolding client-IsAnswered
exchanges-Behaves_example =
    exchanges-Behaves client echo client-IsAnswered (ping ∷ note ∷ ping ∷ []) [] refl
      (tt, (refl, (tt, tt)))
