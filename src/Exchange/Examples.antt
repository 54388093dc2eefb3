-- ===== src/Exchange/Examples.antt =====
-- The request `get` with the ID 7, and a server that answers it.
use jsonrpc.Base.{[], Bytes, false, true, none, some, codes, ◌≡◌, refl, inl, inr}
use jsonrpc.Value.{text, nil}
use jsonrpc.Failure.{GoError, sentinel, deadline_exceeded, Outcome, ok, fail, opaque, as_error}
use jsonrpc.Handler.{Context, HandlerResult, returns}
use jsonrpc.Message.Id.{new_id}
use jsonrpc.Message.SmallJson.{small_json, small_json-IsLossless}
use jsonrpc.Message.Response.{Response}
use jsonrpc.Message.Wire.{read_request, write_request}
use jsonrpc.Message.Wire.SmallObjects.{
  small_objects, small_objects-IsFaithful, get_seven, get_seven_object, array_written,
}
use jsonrpc.Transport.{raw_message, Outgoing, request}
use jsonrpc.Transport.InStep.{Exchange}
use jsonrpc.Rpc.{Payload, RpcServer, new_rpc_server, response}
use jsonrpc.Rpc.Handle.{handle_request}
use jsonrpc.Exchange.Refused.{IsRefused, handle_request-IsRefused}
use jsonrpc.Exchange.{IsAnswered, handle_request-answered}

abbrev server : RpcServer
unfolding new_rpc_server
server =
    new_rpc_server
      (record {
        is_stream = true;
        unmarshal_request = read_request small_json small_objects;
        unmarshal_batch = λ m. fail (opaque (codes "no batch"));
        close = none;
      })
      (record { encode_to = λ p from. none; close = none })
      (λ ctx r. returns (HandlerResult.result (text (codes "x"))) none)

handle_request-answered_example :
    (rep : Response) × ((handle_request server (record { from_addr = none }) get_seven_object).0
      ≡ some (response rep))
    × IsAnswered small_json small_objects get_seven (text (codes "x")) rep
unfolding write_request new_id new_rpc_server
handle_request-answered_example =
    handle_request-answered small_json small_objects small_json-IsLossless small_objects-IsFaithful
      server (record { from_addr = none }) get_seven get_seven_object (text (codes "x"))
      (inr array_written) tt refl refl refl (λ s h. refl)

-- A server whose handler fails with an error that is no Error.
abbrev failing : RpcServer
unfolding new_rpc_server
failing = record server {
  handler = λ ctx r. returns (HandlerResult.result nil) (some (opaque (codes "x")));
}

handle_request-IsRefused_example :
    (rep : Response) × ((handle_request failing (record { from_addr = none }) get_seven_object).0
      ≡ some (response rep))
    × IsRefused small_json small_objects get_seven (opaque (codes "x")) rep
unfolding write_request new_id new_rpc_server as_error
handle_request-IsRefused_example =
    handle_request-IsRefused small_json small_objects small_json-IsLossless small_objects-IsFaithful
      failing (record { from_addr = none }) get_seven get_seven_object (opaque (codes "x"))
      (inr array_written) tt refl refl refl refl (λ s h. inl (HandlerResult.result nil, refl))

-- A call, a notification without a message, and a call on one connection to the server.
abbrev encode_json : Outgoing → Outcome Bytes
encode_json (request r) = ok get_seven_object
encode_json x = fail (opaque (codes "not encoded"))

abbrev get : Exchange
get = record { ctx_err = none; outgoing = request get_seven; is_notify = false }

abbrev note : Exchange
note = record { ctx_err = none; outgoing = raw_message []; is_notify = true }

abbrev write : Payload → Bytes
write p = codes "{}"

abbrev no_context : Context
no_context = record { from_addr = none }

abbrev idle : GoError
idle = sentinel deadline_exceeded
