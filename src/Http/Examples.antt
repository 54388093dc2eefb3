-- ===== src/Http/Examples.antt =====
-- A concrete HTTP handler and a concrete bridge.
use jsonrpc.Base.{pos, inl, inr, true, false, none, some, [], ◌∷◌, Bytes, codes, ◌≡◌, refl}
use jsonrpc.Value.{other, parse_error}
use jsonrpc.Failure.{Outcome, ok, fail, opaque, sentinel, eof, rpc, error_any}
use jsonrpc.Message.Response.{Response, new_response_error}
use jsonrpc.Message.Request.{zero_request}
use jsonrpc.Handler.{Context, returns, result}
use jsonrpc.Rpc.{Payload, new_rpc_server}
use jsonrpc.Rpc.Loop.{Input, close}
use jsonrpc.Http.{json_media, HttpHandler, http_server, serve_http, HttpBridge, HttpResponse}
use jsonrpc.Http.TooLarge.{too_large, serve_http-too_large}
use jsonrpc.Http.Body.{read_body, request_body}
use jsonrpc.Stream.{closes}
use jsonrpc.Stream.Serving.{stream_inputs, after}
use jsonrpc.Stream.Decoder.{plain_decode, rewind}
use jsonrpc.Stream.Limited.{run}
use jsonrpc.Stream.EndingExamples.{read_bytes, reads_once, unlimited, four_calls, fires}
use jsonrpc.Http.Status.{written, serve_http-fatal, Replies}

abbrev handler : HttpHandler
handler = record {
  handler = λ ctx req. returns (result (other 7)) none;
  bind = λ rp. rp;
  decoder = record {
    is_stream = true;
    unmarshal_request = λ m. ok zero_request;
    unmarshal_batch = λ m. fail (opaque (codes "no batch"));
    close = none;
  };
  encoder = record { encode_to = λ p from. none; close = none };
}

abbrev marshal : Response → Outcome Bytes
marshal r = ok (codes "{}")

abbrev write : Payload → Bytes
write p = codes "{}"

abbrev no_context : Context
no_context = record { from_addr = none }

abbrev a_message : Input
a_message = record { from = none; buf = codes "{"; err = none }

abbrev at_end : Input
at_end = record { from = none; buf = []; err = some (sentinel eof) }

serve_http-fatal_example :
    Replies
      (marshal (new_response_error (rpc parse_error)))
      (written marshal write handler (λ ms. ms) no_context (a_message ∷ []) at_end)
      (sentinel eof)
      (serve_http marshal write handler
        (λ ms. ms)
        no_context
        none
        (codes "application/json")
        (a_message ∷ at_end ∷ []))
unfolding http_server new_rpc_server close error_any
serve_http-fatal_example =
    serve_http-fatal marshal write handler (λ ms. ms) no_context (a_message ∷ []) [] at_end
      (sentinel eof) refl (refl, tt) refl

abbrev new_bridge : HttpBridge
new_bridge = record {
  resp_status = [];
  resp_buffer = [];
  resp_code = 0;
  closed = false;
  resp_json = false;
}

abbrev used_bridge : HttpBridge
used_bridge = record {
  resp_status = codes "200 OK";
  resp_buffer = codes "{}";
  resp_code = 200;
  closed = false;
  resp_json = true;
}

abbrev refuses : Bytes → Outcome HttpResponse
refuses m = fail (opaque (codes "connection refused"))

serve_http-too_large_example :
    serve_http marshal write handler
      (λ ms. ms)
      no_context
      none
      json_media
      (stream_inputs
        (read_body read_bytes)
        reads_once
        closes
        four_calls
        (unlimited, request_body (pos 2) (codes "abcd")))
    ≡ some too_large
unfolding http_server new_rpc_server close after stream_inputs request_body read_body plain_decode
    run rewind
serve_http-too_large_example =
    serve_http-too_large (read_body read_bytes) reads_once marshal write handler (λ ms. ms)
      no_context [] fires (fires ∷ fires ∷ fires ∷ [])
      (unlimited, request_body (pos 2) (codes "abcd")) refl refl tt (inr (inl refl)) refl
