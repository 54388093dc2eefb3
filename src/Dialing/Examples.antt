-- ===== src/Dialing/Examples.antt =====
-- A client for a URL, and the server behind it.
use jsonrpc.Base.{true, Option, none, some, List, [], ◌∷◌, Bytes, codes, refl, ap}
use jsonrpc.Value.{other}
use jsonrpc.Failure.{Outcome, ok, fail, opaque, sentinel, eof, error_any}
use jsonrpc.Handler.{Context, returns, result}
use jsonrpc.Message.Request.{zero_request}
use jsonrpc.Message.Response.{Response, zero_response}
use jsonrpc.Rpc.{Payload, new_rpc_server}
use jsonrpc.Rpc.Loop.{Input, close}
use jsonrpc.Transport.{Outgoing, call_request}
use jsonrpc.Http.{json_media, HttpHandler, http_server, HttpReply, HttpResponse, serve_http}
use jsonrpc.Http.Status.{written}
use jsonrpc.Http.Loopback.{received, body_for}
use jsonrpc.Dialing.{new_http_bridge}
use jsonrpc.Dialing.HttpCall.{http_client, ReadAs, call_request-serve_http}

abbrev handler : HttpHandler
handler = record {
  handler = λ ctx req. returns (result (other 7)) none;
  bind = λ rp. rp;
  decoder = record {
    is_stream = true;
    unmarshal_request = λ m. ok zero_request;
    unmarshal_batch = λ m. fail (opaque (codes "no batch"));
    close = none;
  };
  encoder = record { encode_to = λ p from. none; close = none };
}

abbrev marshal : Response → Outcome Bytes
marshal r = ok (codes "{}")

abbrev write : Payload → Bytes
write p = codes "{}"

abbrev no_context : Context
no_context = record { from_addr = none }

abbrev a_message : Input
a_message = record { from = none; buf = codes "{"; err = none }

abbrev at_end : Input
at_end = record { from = none; buf = []; err = some (sentinel eof) }

abbrev answered : Option HttpReply → Outcome HttpResponse
answered none = fail (opaque (codes "no answer"))
answered (some rep) = ok (received (codes "200 OK") rep)

-- Any URL and any body lead to the same request at the server.
abbrev do_post : Bytes → Bytes → Outcome HttpResponse
do_post url body = answered (
    serve_http marshal write handler (λ ms. ms) no_context none json_media
      (a_message ∷ at_end ∷ []))

abbrev encode_json : Outgoing → Outcome Bytes
encode_json x = ok (codes "{")

abbrev unmarshal : Bytes → Outcome Bytes
unmarshal b = ok b

abbrev read_response : Bytes → Outcome Response
read_response b = ok zero_response

abbrev read_responses : Bytes → Outcome (List Response)
read_responses b = ok []

abbrev url : Bytes
url = codes "http://localhost/rpc"

call_request-serve_http_example :
    ReadAs encode_json do_post unmarshal read_response read_responses url
      (codes "200 OK")
      (body_for marshal
        (written marshal write handler (λ ms. ms) no_context (a_message ∷ []) at_end)
        (sentinel eof))
      (call_request
        (http_client encode_json do_post unmarshal read_response read_responses url)
        none
        new_http_bridge
        zero_request).1
unfolding new_http_bridge http_server new_rpc_server close error_any
call_request-serve_http_example =
    call_request-serve_http encode_json do_post unmarshal read_response read_responses url marshal
      write handler (λ ms. ms) no_context new_http_bridge zero_request (codes "{") (codes "200 OK")
      (a_message ∷ []) [] at_end (sentinel eof) refl refl refl (refl, tt) refl
      (λ rep q. ap answered q)
