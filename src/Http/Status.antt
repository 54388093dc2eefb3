-- ===== src/Http/Status.antt =====
-- What an HTTP request is answered by.
use jsonrpc.Base.{
  Bool, true, false, Bool-cases, ◌⊎◌, inl, inr, if◌then◌else◌, Option, none, some, List, [], ◌∷◌,
  ◌++◌, Bytes, codes, append-nil, append_assoc, All, ◌≡◌, refl, ap, sym, subst, ◌∙◌, arith,
}
use jsonrpc.Value.{parse_error}
use jsonrpc.Failure.{
  GoError, Outcome, rpc, errors_is, error_any, error_any_list, errors_join, wrap, and, none_left,
  error_text, eof, unexpected_eof, is_max_bytes,
}
use jsonrpc.Message.Response.{Response, new_response_error}
use jsonrpc.Handler.{Context}
use jsonrpc.Rpc.{RpcServer, Payload, Event, sent, handled}
use jsonrpc.Rpc.Loop.{Input, round, clean_up, exit_error, close, run_server}
use jsonrpc.Rpc.Loop.Laws.{rounds, NotFatal, fatal_of, run_server-ends}
use jsonrpc.Http.{
  json_media, HttpHandler, http_server, buffer_of, reply_to, after_run, serve_http, HttpReply,
  with_buffer, or_empty,
}

buffer_of-append :
    (write : Payload → Bytes) (es fs : List Event)
    → buffer_of write (es ++ fs) ≡ buffer_of write es ++ buffer_of write fs
buffer_of-append write [] fs = refl
buffer_of-append write (sent p a none ∷ es) fs =
    ap (λ s. write p ++ s) (buffer_of-append write es fs) ∙ sym (append_assoc (write p) _ _)
buffer_of-append write (sent p a (some e) ∷ es) fs = buffer_of-append write es fs
buffer_of-append write (handled _ ∷ es) fs = buffer_of-append write es fs
buffer_of-append write (_ ∷ es) fs = buffer_of-append write es fs

buffer_of-clean_up :
    (write : Payload → Bytes) (rp : RpcServer) (ctx_err : Option GoError) (err : GoError)
    → buffer_of write (clean_up rp ctx_err err) ≡ []
unfolding clean_up
buffer_of-clean_up write rp ctx_err err = ground arith

-- An error that is joined with nothing is treated as it is by itself.
reply_to-joined :
    (parse_failure : Outcome Bytes) (buffer : Bytes) (t : Bytes) (err : GoError)
    → reply_to parse_failure buffer (wrap t (and err none_left)) ≡ reply_to parse_failure buffer err
unfolding reply_to errors_is error_any error_any_list
reply_to-joined parse_failure buffer t err = ground arith

exit_error-alone :
    (rp : RpcServer) (err : GoError)
    → close rp ≡ none
    → exit_error rp none err ≡ some (wrap (error_text err) (and err none_left))
unfolding exit_error errors_join
exit_error-alone rp err h =
    subst
      (λ o.
        errors_join (some err ∷ none ∷ o ∷ []) ≡ some (wrap (error_text err) (and err none_left)))
      (sym h) refl

abbrev is_empty : Bytes → Bool
is_empty [] = true
is_empty (c ∷ s) = false

-- A reply with a body, or the status for no content.
abbrev pub content : Bytes → HttpReply
content b = record { status = if is_empty b then 204 else 200; content_type = json_media; body = b }

with_buffer-content : (b : Bytes) → with_buffer b ≡ content b
with_buffer-content [] = refl
with_buffer-content (c ∷ s) = refl

-- The replies by the error: the end of the body, a body that is too large, one that ends within a
-- message, and any other.
abbrev pub Replies : Outcome Bytes → Bytes → GoError → Option HttpReply → Type 0
Replies parse_failure b err r =
    ((errors_is eof err ≡ true) × (r ≡ some (content b)))
    ⊎ ((errors_is eof err ≡ false)
        × (error_any is_max_bytes err ≡ true)
        × (r ≡ some (record { status = 413; content_type = json_media; body = [] })))
    ⊎ ((errors_is eof err ≡ false)
        × (error_any is_max_bytes err ≡ false)
        × (errors_is unexpected_eof err ≡ true)
        × (r ≡ some (content (b ++ or_empty parse_failure))))
    ⊎ ((errors_is eof err ≡ false)
        × (error_any is_max_bytes err ≡ false)
        × (errors_is unexpected_eof err ≡ false)
        × (r ≡ some (record { status = 500; content_type = json_media; body = [] })))

reply_to-Replies :
    (o : Outcome Bytes) (b : Bytes) (err : GoError) → Replies o b err (some (reply_to o b err))
unfolding reply_to
reply_to-Replies o b err = elim (Bool-cases (errors_is eof err)) [
  | inl e ↦ inl (e, rw (e, with_buffer-content) refl)
  | inr e ↦ elim (Bool-cases (error_any is_max_bytes err)) [
    | inl m ↦ inr (inl (e, m, rw (e, m) refl))
    | inr m ↦ elim (Bool-cases (errors_is unexpected_eof err)) [
      | inl u ↦ inr (inr (inl (e, m, u, rw (e, m, u, with_buffer-content) refl)))
      | inr u ↦ inr (inr (inr (e, m, u, rw (e, m, u) refl)))
    ]
  ]
]

module _ (marshal : Response → Outcome Bytes) (write : Payload → Bytes) (h : HttpHandler)
    (schedule : List Bytes → List Bytes) (ctx : Context) where
  -- The payloads of the rounds up to a fatal error, as they are written.
  abbrev pub written : List Input → Input → Bytes
  written pre i =
      buffer_of write
        (rounds (http_server h) schedule ctx pre ++ (round (http_server h) schedule ctx i).0)

  json_type :
      (inputs : List Input)
      → serve_http marshal write h schedule ctx none (codes "application/json") inputs
        ≡ after_run
            (marshal (new_response_error (rpc parse_error)))
            write
            (run_server (http_server h) schedule ctx none inputs)
  unfolding serve_http
  json_type inputs = refl

  run_reply :
      (o : Outcome Bytes) (es : List Event) (err : GoError)
      → close (http_server h) ≡ none
      → after_run o write
          (es ++ clean_up (http_server h) none err, exit_error (http_server h) none err)
        ≡ some (reply_to o (buffer_of write es) err)
  unfolding after_run
  run_reply o es err e =
      ap (λ x. after_run o write (es ++ clean_up (http_server h) none err, x))
        (exit_error-alone (http_server h) err e)
      ∙ ap some (
          reply_to-joined o _ (error_text err) err
          ∙ ap (λ b. reply_to o b err)
              (buffer_of-append write es _
                ∙ rw (buffer_of-clean_up write (http_server h) none err)
                    (append-nil (buffer_of write es))))

  serve_http-ends :
      (pre post : List Input) (i : Input) (err : GoError)
      → close (http_server h) ≡ none
      → All (NotFatal (http_server h) schedule ctx) pre
      → fatal_of (http_server h).decoder.is_stream i.err ≡ some err
      → serve_http marshal write h schedule ctx none (codes "application/json") (pre ++ i ∷ post)
        ≡ some (reply_to (marshal (new_response_error (rpc parse_error))) (written pre i) err)
  serve_http-ends pre post i err e quiet f =
      json_type (pre ++ i ∷ post)
      ∙ ap (after_run (marshal (new_response_error (rpc parse_error))) write)
          (run_server-ends (http_server h) schedule ctx none pre post i err quiet f)
      ∙ run_reply (marshal (new_response_error (rpc parse_error))) _ err e

  -- An HTTP request of the JSON type is answered by its body's first fatal error: what was written
  -- before with status 200, or 204 if that is nothing, at the end of the body; 413 where the body is
  -- too large; what was written and a parse error where the body ends within a message; and 500 at any
  -- other error. The request's context has no error, and closing gives none.
  pub serve_http-fatal :
      (pre post : List Input) (i : Input) (err : GoError)
      → close (http_server h) ≡ none
      → All (NotFatal (http_server h) schedule ctx) pre
      → fatal_of (http_server h).decoder.is_stream i.err ≡ some err
      → Replies (marshal (new_response_error (rpc parse_error))) (written pre i) err (
          serve_http marshal write h schedule ctx none (codes "application/json") (pre ++ i ∷ post))
  serve_http-fatal pre post i err e quiet f =
      subst (Replies (marshal (new_response_error (rpc parse_error))) (written pre i) err)
        (sym (serve_http-ends pre post i err e quiet f)) (reply_to-Replies _ _ err)
