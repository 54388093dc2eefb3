-- ===== src/Http/Loopback.antt =====
-- A bridge that talks to ServeHTTP: what Decode of httpbridge.go makes of each answer of httphandler.go.
use jsonrpc.Base.{
  ℕ, false, ◌⊎◌, inl, inr, if◌then◌else◌, Option, none, some, List, [], ◌∷◌, ◌++◌, Bytes, All, ◌≡◌,
  refl, ◌∙◌,
}
use jsonrpc.Value.{parse_error}
use jsonrpc.Failure.{
  GoError, Outcome, ok, fail, rpc, sentinel, errors_is, error_any, is_max_bytes, eof,
  unexpected_eof, http_empty_response, http_response,
}
use jsonrpc.Message.Response.{Response, new_response_error}
use jsonrpc.Handler.{Context}
use jsonrpc.Rpc.{Payload}
use jsonrpc.Rpc.Loop.{Input, close}
use jsonrpc.Rpc.Loop.Laws.{NotFatal, fatal_of}
use jsonrpc.Http.{
  json_media, HttpHandler, http_server, HttpReply, HttpBridge, HttpResponse, serve_http, encode,
  decode, with_status, post, json_body, or_empty,
}
use jsonrpc.Http.Status.{content, written, Replies, serve_http-fatal}

-- An answer as the HTTP client gives it, its body read without an error. The text of the status is chosen by
-- package net/http.
abbrev pub received : Bytes → HttpReply → HttpResponse
received status r = record {
  status_code = r.status;
  status_text = status;
  content_type = r.content_type;
  body = r.body;
  read_err = none;
}

-- What Decode gives for a body of the JSON type.
abbrev pub decoded_body {ℓ} : {V : Type ℓ} → (Bytes → Outcome V) → Bytes → Bytes → Outcome V
unfolding json_body
decoded_body into status b = json_body into status b

-- The body with which ServeHTTP answers, by the first fatal error of what it reads and what was written before.
unfoldable pub body_for : (Response → Outcome Bytes) → Bytes → GoError → Bytes
unfolding errors_is error_any
body_for marshal b err =
    if errors_is eof err
    then b
    else if error_any is_max_bytes err
    then []
    else if errors_is unexpected_eof err
    then b ++ or_empty (marshal (new_response_error (rpc parse_error)))
    else []

module _ {ℓ} {V : Type ℓ} (h : HttpBridge) (m : Bytes) (status : Bytes) (into : Bytes → Outcome V)
    (is_open : h.closed ≡ false) where
  -- Encode and Decode, one after the other, with this answer.
  unfoldable pub exchanged : HttpReply → Option GoError × Outcome V
  unfolding encode decode
  exchanged r =
      let (k, err) = encode h (ok m) (λ x. ok (received status r)) in (err, decode k none into)

  exchanged_json :
      (code : ℕ) (b : Bytes)
      → exchanged (record { status = code; content_type = json_media; body = b })
        ≡ (none, decoded_body into status b)
  unfolding exchanged encode post decode
  exchanged_json code b = rw is_open refl

  exchanged_415 :
      exchanged (record { status = 415; content_type = []; body = [] })
      ≡ (none, fail (with_status (sentinel http_response) status))
  unfolding exchanged encode post decode
  exchanged_415 = rw is_open refl

  -- What the caller gets for an answer, by the body that the server has written.
  abbrev pub DecodedAs : Bytes → Option GoError × Outcome V → Type ℓ
  DecodedAs b x =
      ((b ≡ []) × (x ≡ (none, fail (with_status (sentinel http_empty_response) status))))
      ⊎ ((c : ℕ) × (s : Bytes) × (b ≡ c ∷ s) × (x ≡ (none, into b)))

  decoded_body-cases :
      (code : ℕ) (b : Bytes)
      → DecodedAs b (exchanged (record { status = code; content_type = json_media; body = b }))
  unfolding decoded_body
  decoded_body-cases code [] = inl (refl, exchanged_json code [])
  decoded_body-cases code (c ∷ s) = inr (c, s, refl, exchanged_json code (c ∷ s))

  module _ (marshal : Response → Outcome Bytes) (write : Payload → Bytes) (server : HttpHandler)
      (schedule : List Bytes → List Bytes) (ctx : Context) where
    replied :
        (b : Bytes) (err : GoError) (r : Option HttpReply)
        → Replies (marshal (new_response_error (rpc parse_error))) b err r
        → (code : ℕ) × (r
            ≡ some (record {
              status = code;
              content_type = json_media;
              body = body_for marshal b err;
            }))
    unfolding body_for
    replied b err r (inl (e, q)) = ((content b).status, q ∙ rw e refl)
    replied b err r (inr (inl (e, m, q))) = (413, q ∙ rw (e, m) refl)
    replied b err r (inr (inr (inl (e, m, u, q)))) = (
      (content (b ++ or_empty (marshal (new_response_error (rpc parse_error))))).status,
      q ∙ rw (e, m, u) refl,
    )
    replied b err r (inr (inr (inr (e, m, u, q)))) = (500, q ∙ rw (e, m, u) refl)

    -- A bridge that is not closed and posts to ServeHTTP with the JSON type returns from Decode what the body
    -- decodes to, whatever the status is, and ErrHTTPEmptyResponse where the body is empty: so for 204, and for
    -- 413 and 500 too, which ServeHTTP answers with the JSON type and no body. Encode returns no error. The
    -- request's context has no error, closing the server gives none, and the server's decoder gives a fatal
    -- error.
    pub decode-serve_http :
        (pre rest : List Input) (i : Input) (err : GoError)
        → close (http_server server) ≡ none
        → All (NotFatal (http_server server) schedule ctx) pre
        → fatal_of (http_server server).decoder.is_stream i.err ≡ some err
        → (r : HttpReply) × (serve_http marshal write server schedule ctx none json_media
              (pre ++ i ∷ rest)
            ≡ some r)
          × DecodedAs
              (body_for marshal (written marshal write server schedule ctx pre i) err)
              (exchanged r)
    decode-serve_http pre rest i err e quiet f =
        let b = written marshal write server schedule ctx pre i in
        let (code, q) =
          replied b err _
            (serve_http-fatal marshal write server schedule ctx pre rest i err e quiet f) in
        (
          record { status = code; content_type = json_media; body = body_for marshal b err },
          q,
          decoded_body-cases code (body_for marshal b err),
        )
