-- ===== src/Dialing/HttpCall.antt =====
-- A call of a client that was dialed over HTTP, to a server behind ServeHTTP.
use jsonrpc.Base.{
  ℕ, false, ◌⊎◌, inl, inr, none, some, List, [], ◌∷◌, ◌++◌, Bytes, All, ◌≡◌, refl, ap, ◌∙◌,
}
use jsonrpc.Failure.{GoError, Outcome, ok, fail, sentinel, http_empty_response}
use jsonrpc.Handler.{Context}
use jsonrpc.Message.Request.{Request}
use jsonrpc.Message.Response.{Response}
use jsonrpc.Rpc.{Payload}
use jsonrpc.Rpc.Loop.{Input, close}
use jsonrpc.Rpc.Loop.Laws.{NotFatal, fatal_of}
use jsonrpc.Transport.{Outgoing, request, TransportClient, call, call_request}
use jsonrpc.Http
use jsonrpc.Http.{
  json_media, HttpHandler, http_server, HttpReply, HttpBridge, HttpResponse, serve_http,
  with_status, post,
}
use jsonrpc.Http.Status.{written}
use jsonrpc.Http.Loopback.{received, exchanged, body_for, decode-serve_http}
use jsonrpc.Dialing.{new_transport_client, bridge_sender, bridge_receiver}

-- Unmarshal of a response that was read, if it was.
abbrev pub response_of : (Bytes → Outcome Response) → Outcome Bytes → Outcome Response
response_of read_response (fail e) = fail e
response_of read_response (ok m) = read_response m

module _ (encode_json : Outgoing → Outcome Bytes) (do_post : Bytes → Bytes → Outcome HttpResponse)
    (unmarshal : Bytes → Outcome Bytes) (read_response : Bytes → Outcome Response)
    (read_responses : Bytes → Outcome (List Response)) (url : Bytes) where
  -- The client that dialHTTP gives for the URL.
  abbrev pub http_client : TransportClient HttpBridge
  http_client =
      new_transport_client (bridge_sender encode_json do_post url)
        (bridge_receiver unmarshal read_response read_responses none)

  call-decoded :
      (h k : HttpBridge) (r : Request) (o : Outcome Bytes)
      → Http.encode h (encode_json (request r)) (do_post url) ≡ (k, none)
      → Http.decode k none unmarshal ≡ o
      → (call_request http_client none h r).1 ≡ response_of read_response o
  unfolding call_request call new_transport_client bridge_sender bridge_receiver
  call-decoded h k r (fail e) p q = rw (p, q) refl
  call-decoded h k r (ok m) p q = rw (p, q) refl

  encode-received :
      (h : HttpBridge) (r : Request) (m status : Bytes) (rep : HttpReply)
      → encode_json (request r) ≡ ok m
      → do_post url m ≡ ok (received status rep)
      → Http.encode h (encode_json (request r)) (do_post url)
        ≡ Http.encode h (ok m) (λ b. ok (received status rep))
  unfolding Http.encode post
  encode-received h r m status rep w p = rw (w, p) refl

  -- The call gives what Encode and Decode of the bridge give, one after the other.
  call-exchanged :
      (h : HttpBridge) (is_open : h.closed ≡ false) (r : Request) (m status : Bytes)
      (rep : HttpReply) (x : Outcome Bytes)
      → encode_json (request r) ≡ ok m
      → do_post url m ≡ ok (received status rep)
      → exchanged h m status unmarshal is_open rep ≡ (none, x)
      → (call_request http_client none h r).1 ≡ response_of read_response x
  unfolding exchanged
  call-exchanged h is_open r m status rep x w p q =
      let y = Http.encode h (ok m) (λ b. ok (received status rep)) in
      call-decoded h y.0 r x
        (encode-received h r m status rep w p ∙ ap (λ e. (y.0, e)) (ap (λ z. z.0) q))
        (ap (λ z. z.1) q)

  -- What a call gives for a body that the server has written.
  abbrev pub ReadAs : Bytes → Bytes → Outcome Response → Type 0
  ReadAs status b o =
      ((b ≡ []) × (o ≡ fail (with_status (sentinel http_empty_response) status)))
      ⊎ ((c : ℕ) × (s : Bytes) × (b ≡ c ∷ s) × (o ≡ response_of read_response (unmarshal b)))

  -- A Call by a client that was dialed over HTTP, posted to ServeHTTP with the JSON type, gives the response that
  -- the body decodes to, whatever the status is, and ErrHTTPEmptyResponse where the body is empty: so for 204,
  -- and for 413 and 500 too, which ServeHTTP answers with the JSON type and no body. The request can be
  -- written, the bridge is open, the contexts have no error, closing the server gives none, and the server's
  -- decoder gives a fatal error.
  pub call_request-serve_http :
      (marshal : Response → Outcome Bytes) (write : Payload → Bytes) (server : HttpHandler)
      (schedule : List Bytes → List Bytes) (ctx : Context) (h : HttpBridge) (r : Request)
      (m status : Bytes) (pre rest : List Input) (i : Input) (err : GoError)
      → h.closed ≡ false
      → encode_json (request r) ≡ ok m
      → close (http_server server) ≡ none
      → All (NotFatal (http_server server) schedule ctx) pre
      → fatal_of (http_server server).decoder.is_stream i.err ≡ some err
      → ((rep : HttpReply)
          → serve_http marshal write server schedule ctx none json_media (pre ++ i ∷ rest)
            ≡ some rep
          → do_post url m ≡ ok (received status rep))
      → ReadAs status
          (body_for marshal (written marshal write server schedule ctx pre i) err)
          (call_request http_client none h r).1
  call_request-serve_http marshal write server schedule ctx h r m status pre rest i err is_open w
        quiet nf f posted =
      let (rep, served, x) =
        decode-serve_http h m status unmarshal is_open marshal write server schedule ctx pre rest i
          err quiet nf f in
      elim x [
        | inl (b, q) ↦ inl (b, call-exchanged h is_open r m status rep _ w (posted rep served) q)
        | inr (c, s, b, q) ↦
            inr (c, s, b, call-exchanged h is_open r m status rep _ w (posted rep served) q)
      ]
