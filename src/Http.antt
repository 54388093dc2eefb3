-- ===== src/Http.antt =====
-- httphandler.go and httpbridge.go: the server behind an HTTP request, and the client's side.
pub mod Status
pub mod Bridge
pub mod Loopback
pub mod Ending
pub mod Body
pub mod TooLarge
mod Examples
use jsonrpc.Base.{
  ℕ, Bool, true, false, ◌&&◌, ◌||◌, Option, none, some, List, [], ◌∷◌, ◌++◌, Bytes, codes, bytes_eq,
  if◌then◌else◌, leb, ltb,
}
use jsonrpc.Value.{parse_error}
use jsonrpc.Failure.{
  GoError, Outcome, ok, fail, sentinel, rpc, eof, unexpected_eof, errors_is, error_any,
  is_max_bytes, wrap_after, wrap_before, http_empty_response, http_not_json, http_response,
}
use jsonrpc.Message.Response.{Response, new_response_error}
use jsonrpc.Handler.{Context, Handler}
use jsonrpc.Rpc.{RpcServer, Decoder, Encoder, Payload, Event, sent, new_rpc_server}
use jsonrpc.Rpc.Loop.{Input, run_server}

-- HTTPHandler. The decoder and the encoder are those that NewDecoder and NewEncoder give for one HTTP
-- request; `bind` is what the Binder does to the server, the identity where there is none.
pub record HttpHandler : Type 0 where
  pub handler : Handler
  pub bind : RpcServer → RpcServer
  pub decoder : Decoder
  pub encoder : Encoder

-- NewHTTPHandler: there is no Binder. What the default functions NewDecoder and NewEncoder give are arguments.
unfoldable pub new_http_handler : Decoder → Encoder → Handler → HttpHandler
new_http_handler d e handler = record {
  handler = handler;
  bind = λ rp. rp;
  decoder = d;
  encoder = e;
}

-- What is written to the http.ResponseWriter: the status, the header Content-Type, or nothing where it is
-- not set, and the body.
pub record HttpReply : Type 0 where
  pub status : ℕ
  pub content_type : Bytes
  pub body : Bytes

-- The internal server, with the fields that ServeHTTP sets.
unfoldable pub http_server : HttpHandler → RpcServer
unfolding new_rpc_server
http_server h =
    h.bind (record (new_rpc_server (record h.decoder { is_stream = true }) h.encoder h.handler) {
      no_routines = true;
      serial_batch = true;
      wait_on_close = true;
    })

-- The buffer: what the encoder writes for the payloads that it encodes without an error.
abbrev pub buffer_of : (Payload → Bytes) → List Event → Bytes
buffer_of write [] = []
buffer_of write (sent p _ none ∷ es) = write p ++ buffer_of write es
buffer_of write (_ ∷ es) = buffer_of write es

abbrev pub json_media : Bytes
json_media = codes "application/json"

abbrev pub with_buffer : Bytes → HttpReply
with_buffer [] = record { status = 204; content_type = json_media; body = [] }
with_buffer (c ∷ s) = record { status = 200; content_type = json_media; body = c ∷ s }

abbrev pub or_empty : Outcome Bytes → Bytes
or_empty (ok m) = m
or_empty (fail e) = []

-- What stands behind Run, with the error that it returned.
unfoldable pub reply_to : Outcome Bytes → Bytes → GoError → HttpReply
unfolding errors_is
reply_to parse_failure buffer err =
    if errors_is eof err
    then with_buffer buffer
    else if error_any is_max_bytes err
    then record { status = 413; content_type = json_media; body = [] }
    else if errors_is unexpected_eof err
    then with_buffer (buffer ++ or_empty parse_failure)
    else record { status = 500; content_type = json_media; body = [] }

-- Nothing as long as Run goes on.
after_run : Outcome Bytes → (Payload → Bytes) → List Event × Option GoError → Option HttpReply
unfolding reply_to
after_run parse_failure write (es, none) = none
after_run parse_failure write (es, some err) =
    some (reply_to parse_failure (buffer_of write es) err)

-- ServeHTTP, for a request with this content type whose body gives these inputs. `marshal` is Marshal on
-- responses.
unfoldable pub serve_http :
    (Response → Outcome Bytes)
    → (Payload → Bytes)
    → HttpHandler
    → (List Bytes → List Bytes)
    → Context
    → Option GoError
    → Bytes
    → List Input
    → Option HttpReply
unfolding after_run http_server run_server new_response_error parse_error bytes_eq
serve_http marshal write h schedule ctx ctx_err content_type inputs =
    if bytes_eq content_type json_media
    then after_run (marshal (new_response_error (rpc parse_error))) write
        (run_server (http_server h) schedule ctx ctx_err inputs)
    else some (record { status = 415; content_type = []; body = [] })

-- HTTPBridge. The client and the URL are parameters of Encode.
pub record HttpBridge : Type 0 where
  pub resp_status : Bytes
  pub resp_buffer : Bytes
  pub resp_code : ℕ
  pub closed : Bool
  pub resp_json : Bool

-- A response of the HTTP client: what of its body is read, and the error of reading, if any.
pub record HttpResponse : Type 0 where
  pub status_code : ℕ
  pub status_text : Bytes
  pub content_type : Bytes
  pub body : Bytes
  pub read_err : Option GoError

-- Close
unfoldable pub close_bridge : HttpBridge → HttpBridge × Option GoError
close_bridge h = (record h { closed = true }, none)

read_error : Option GoError → Option GoError
unfolding wrap_after errors_is
read_error none = none
read_error (some e) =
    if errors_is eof e
    then none
    else some (wrap_after (codes "http: failed to read response body: ") e)

record_response : HttpBridge → HttpResponse → HttpBridge × Option GoError
unfolding read_error bytes_eq
record_response h r =
    if bytes_eq r.content_type json_media
    then (
      record h {
        resp_code = r.status_code;
        resp_status = r.status_text;
        resp_json = true;
        resp_buffer = r.body;
      },
      read_error r.read_err,
    )
    else (record h { resp_code = r.status_code; resp_status = r.status_text }, none)

post_result : HttpBridge → Outcome HttpResponse → HttpBridge × Option GoError
unfolding record_response
post_result h (fail e) = (h, some e)
post_result h (ok r) = record_response h r

unfoldable pub post :
    HttpBridge → Outcome Bytes → (Bytes → Outcome HttpResponse) → HttpBridge × Option GoError
unfolding post_result
post h (fail e) do_post = (h, some e)
post h (ok m) do_post = post_result h (do_post m)

-- Encode: `marshaled` is what Marshal gives, and `do_post` makes the request and sends it.
unfoldable pub encode :
    HttpBridge → Outcome Bytes → (Bytes → Outcome HttpResponse) → HttpBridge × Option GoError
unfolding post
encode h marshaled do_post =
    if h.closed
    then (h, some (sentinel eof))
    else post (record h { resp_buffer = []; resp_status = []; resp_code = 0; resp_json = false })
        marshaled do_post

-- fmt.Errorf("%w (status: %s)", err, status)
abbrev pub with_status : GoError → Bytes → GoError
unfolding wrap_before
with_status e status = wrap_before e (codes " (status: " ++ status ++ codes ")")

json_body {ℓ} : {V : Type ℓ} → (Bytes → Outcome V) → Bytes → Bytes → Outcome V
unfolding with_status
json_body into status [] = fail (with_status (sentinel http_empty_response) status)
json_body into status (c ∷ s) = into (c ∷ s)

-- Decode
unfoldable pub decode {ℓ} :
    {V : Type ℓ} → HttpBridge → Option GoError → (Bytes → Outcome V) → Outcome V
unfolding json_body with_status
decode h (some e) into = fail e
decode h none into =
    if h.closed
    then fail (sentinel eof)
    else if h.resp_json
    then json_body into h.resp_status h.resp_buffer
    else if leb 200 h.resp_code && ltb h.resp_code 300
    then fail (with_status (sentinel http_not_json) h.resp_status)
    else fail (with_status (sentinel http_response) h.resp_status)
