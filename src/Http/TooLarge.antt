-- ===== src/Http/TooLarge.antt =====
-- ServeHTTP of httphandler.go on a request body that is larger than MaxBytes.
use jsonrpc.Base.{
  true, false, Option, none, some, List, [], ◌∷◌, ◌++◌, Bytes, All, ◌≡◌, ◌⊎◌, inl, inr, refl, sym,
  subst, ◌∙◌,
}
use jsonrpc.Failure.{
  GoError, Outcome, rpc, max_bytes, is_max_bytes, eof, errors_is, error_any, errors_join,
}
use jsonrpc.Handler.{Context}
use jsonrpc.Value.{parse_error}
use jsonrpc.Message.Response.{Response, new_response_error}
use jsonrpc.Rpc.{Payload}
use jsonrpc.Rpc.Loop.{close}
use jsonrpc.Rpc.Loop.Laws.{NotFatal, fatal_of}
use jsonrpc.Stream.{closes, Interruption, join_context}
use jsonrpc.Stream.Limited.{Reader}
use jsonrpc.Stream.Decoder.{JsonDecoder, StreamDecoder, rewind, plain_decode, decode}
use jsonrpc.Stream.Shims
use jsonrpc.Stream.Serving.{
  IsContextError, decode_one, after, input_of, stream_inputs, stream_inputs-append,
}
use jsonrpc.Stream.Ending.{ran}
use jsonrpc.Http.{json_media, HttpHandler, http_server, HttpReply, serve_http}
use jsonrpc.Http.Status.{Replies, serve_http-fatal}

abbrev pub too_large : HttpReply
too_large = record { status = 413; content_type = json_media; body = [] }

-- An error that ends the loop on a stream, and for which ServeHTTP answers 413.
abbrev EndsBody : Option GoError → Type 0
EndsBody err =
    (f : GoError) × (fatal_of true err ≡ some f)
    × (errors_is eof f ≡ false)
    × (error_any is_max_bytes f ≡ true)

body_ends : EndsBody (some max_bytes)
unfolding errors_is error_any
body_ends = (max_bytes, refl, refl, refl)

joined_body_ends :
    (ctx_err : Option GoError)
    → IsContextError ctx_err
    → EndsBody (join_context (some max_bytes) ctx_err)
unfolding join_context errors_join errors_is error_any
joined_body_ends ctx_err (inl h) = rw h (_, refl, refl, refl)
joined_body_ends ctx_err (inr (inl h)) = rw h (_, refl, refl, refl)
joined_body_ends ctx_err (inr (inr h)) = rw h (_, refl, refl, refl)

decoded_body_ends :
    (err ctx_err out : Option GoError)
    → IsContextError ctx_err
    → err ≡ some max_bytes
    → (out ≡ err) ⊎ (out ≡ join_context err ctx_err)
    → EndsBody out
decoded_body_ends err ctx_err out c h (inl q) = subst EndsBody (sym (q ∙ h)) body_ends
decoded_body_ends err ctx_err out c h (inr q) =
    subst EndsBody (sym (q ∙ rw h refl)) (joined_body_ends ctx_err c)

replied_too_large :
    (o : Outcome Bytes) (b : Bytes) (err : GoError) (r : Option HttpReply)
    → Replies o b err r
    → errors_is eof err ≡ false
    → error_any is_max_bytes err ≡ true
    → r ≡ some too_large
replied_too_large o b err r (inl (e, q)) f m = cc
replied_too_large o b err r (inr (inl (e, n, q))) f m = q
replied_too_large o b err r (inr (inr (inl (e, n, u, q)))) f m = cc
replied_too_large o b err r (inr (inr (inr (e, n, u, q)))) f m = cc

-- ServeHTTP answers a request with 413 and no body where a Decode meets the error of MaxBytesReader before any
-- other fatal error, whatever was decoded and answered before, and whether or not the context fires. The
-- JSON decoder passes the error on, the request's context has no error at the end, and closing gives none.
pub serve_http-too_large {ℓ κ} :
    {S : Type ℓ} {D : Type κ} (r : Reader S) (j : JsonDecoder D Bytes)
    (marshal : Response → Outcome Bytes) (write : Payload → Bytes) (server : HttpHandler)
    (schedule : List Bytes → List Bytes) (ctx : Context) (pre : List Interruption)
    (i : Interruption) (post : List Interruption) (t : StreamDecoder D × S)
    → close (http_server server) ≡ none
    → (http_server server).decoder.is_stream ≡ true
    → All (NotFatal (http_server server) schedule ctx) (stream_inputs r j closes pre t)
    → IsContextError i.ctx_err
    → (plain_decode r j (rewind (after r j closes pre t).0) (after r j closes pre t).1).1
      ≡ some max_bytes
    → serve_http marshal write server schedule ctx none json_media
        (stream_inputs r j closes (pre ++ i ∷ post) t)
      ≡ some too_large
unfolding input_of decode_one Shims.decode_from
serve_http-too_large r j marshal write server schedule ctx pre i post t quiet st nf c h =
    let u = after r j closes pre t in
    let (_, o) = ran r j closes i u.0 u.1 refl in
    let (f, q, e, m) = decoded_body_ends _ i.ctx_err _ c h o in
    rw (stream_inputs-append r j closes pre i post t) (
      replied_too_large (marshal (new_response_error (rpc parse_error))) _ f _
        (serve_http-fatal marshal write server schedule ctx (stream_inputs r j closes pre t)
          (stream_inputs r j closes post (decode_one r j closes i u).0)
          (input_of r j closes (Shims.decode_from (decode_one r j closes i) u)) f quiet nf
          (subst (λ b. fatal_of b (decode r j closes i u.0 u.1).1 ≡ some f) (sym st) q))
        e m)
