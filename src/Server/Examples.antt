-- ===== src/Server/Examples.antt =====
-- A server on two connections, each of which is closed at once, and two goroutines for packets.
use jsonrpc.Base.{ℕ, true, ◌||◌, none, some, List, [], ◌∷◌, Bytes, codes, ◌≡◌, refl, subst, All}
use jsonrpc.Value.{other}
use jsonrpc.Failure.{
  GoError, Sentinel, Outcome, ok, fail, opaque, sentinel, eof, net_closed, canceled, errors_is,
  error_any,
}
use jsonrpc.Handler.{Context, returns, result}
use jsonrpc.Rpc.{Decoder, Encoder, new_rpc_server}
use jsonrpc.Rpc.Loop.{Input}
use jsonrpc.Server.{Server, Life, new_server, stream_server, packet_server, serve_connection, serve}
use jsonrpc.Server.Accepting.{MeetsEnd, serve-returns}
use jsonrpc.Message.Codec.{ok_inj}
use jsonrpc.Schemes.{Uri}
use jsonrpc.Server.Listening.{Network, listen_and_serve_on}
use jsonrpc.Server.Listening.Waiting.{HasReturned, listen_and_serve_on-waits}
use jsonrpc.Server.Listening.Returning.{Closes, PacketsEnd, listen_and_serve_on-returns}

abbrev decoder : ℕ → Decoder
decoder c = record {
  is_stream = true;
  unmarshal_request = λ m. fail (opaque (codes "no request"));
  unmarshal_batch = λ m. fail (opaque (codes "no batch"));
  close = none;
}

abbrev encoder : ℕ → Encoder
encoder c = record { encode_to = λ p from. none; close = none }

abbrev server : Server ℕ
unfolding new_server
server = new_server encoder decoder encoder decoder 4 2 (λ ctx r. returns (result (other 1)) none)

abbrev at_once : ℕ → Life
at_once c = record {
  inputs = record { from = none; buf = []; err = some (sentinel eof) } ∷ [];
  ctx_err = none;
}

abbrev in_order : List Bytes → List Bytes
in_order ms = ms

abbrev no_context : Context
no_context = record { from_addr = none }

abbrev the_end : Input
the_end = record { from = none; buf = []; err = some (sentinel eof) }

meets_end : (c : ℕ) → MeetsEnd server in_order no_context at_once c
unfolding stream_server new_rpc_server new_server error_any
meets_end c = ([], [], the_end, sentinel eof, refl, tt, refl)

serve-returns_example :
    (x : GoError) × (serve server in_order no_context at_once
        (some (sentinel canceled))
        (ok 1 ∷ ok 2 ∷ fail (sentinel net_closed) ∷ ok 3 ∷ [])
      ≡ (
        serve_connection server in_order no_context at_once 1
            ∷ serve_connection server in_order no_context at_once 2
            ∷ [],
        some x,
      ))
    × ((k : Sentinel)
        → errors_is k x ≡ (errors_is k (sentinel net_closed) || errors_is k (sentinel canceled)))
serve-returns_example =
    serve-returns server in_order no_context at_once (some (sentinel canceled)) (1 ∷ 2 ∷ [])
      (sentinel net_closed) (ok 3 ∷ []) (meets_end 1, (meets_end 2, tt))

-- Each listener accepts one connection, and is closed.
abbrev one_connection : List (Outcome ℕ)
one_connection = ok 1 ∷ fail (sentinel net_closed) ∷ []

abbrev net : Network ℕ
net = record {
  listen = λ network addr. ok one_connection;
  listen_packet = λ network addr. ok 5;
  is_pattern = λ path. true;
  run_http = λ http. sentinel net_closed;
}

abbrev packet_life : ℕ → ℕ → Life
packet_life c k = at_once c

packets_end :
    (c : ℕ) → PacketsEnd server in_order no_context at_once packet_life none [] net c (at_once c)
unfolding packet_server new_rpc_server new_server error_any
packets_end c = ([], [], the_end, sentinel eof, refl, tt, refl)

abbrev a_uri : Bytes → Outcome Uri
a_uri t = ok (record { scheme = codes "udp"; host = []; path = [] })

ends_with :
    (e : GoError) × ((listen_and_serve_on server in_order no_context at_once packet_life none [] net
        a_uri
        (codes "udp:9")).err
      ≡ some e)
unfolding new_server
ends_with =
    (listen_and_serve_on-returns server in_order no_context at_once packet_life none [] net a_uri
      (codes "udp:9")
      (λ network addr accepts q.
        subst (Closes server in_order no_context at_once packet_life none [] net) (ok_inj q)
          (1 ∷ [], sentinel net_closed, [], refl, (meets_end 1, tt)))
      (1, refl) (λ network addr c q k. packets_end c) (λ host path q. refl)).0

listen_and_serve_on-waits_example :
    All HasReturned
      (listen_and_serve_on server in_order no_context at_once packet_life none [] net a_uri
        (codes "udp:9")).runs
listen_and_serve_on-waits_example =
    listen_and_serve_on-waits server in_order no_context at_once packet_life none [] net a_uri
      (codes "udp:9") ends_with.0 ends_with.1
