-- ===== src/Rpc/Message/Answers.antt =====
-- What one incoming message leads to, whatever it is.
use jsonrpc.Base.{
  ◌≤◌, true, Option, none, some, List, [], ◌∷◌, Bytes, length, ◌≡◌, ◌≢◌, ◌⊎◌, inl, inr, refl, ◌∙◌,
  arith,
}
use jsonrpc.Value.{Error, parse_error, invalid_request}
use jsonrpc.Failure.{Outcome, ok, fail, rpc, as_error, errors_as}
use jsonrpc.Hint.{TypeHint, hint_type}
use jsonrpc.Message.Id.{new_null_id}
use jsonrpc.Message.Response.{Response, new_response_error}
use jsonrpc.Handler.{Context}
use jsonrpc.Rpc.{RpcServer, Reply, response, Payload, single, run_on_decoding_error}
use jsonrpc.Rpc.Handle.{handle_request, invalid_request_response}
use jsonrpc.Rpc.Message.{
  send, send_ignored, run_split, run_requests, run_hinted, refuse_parse, run, with_addr,
  handling_order,
}
use jsonrpc.Rpc.Message.Single.{
  sends, sends-append, sends-send, sends-decoding_hook, sends-run_request, single_of,
}
use jsonrpc.Rpc.Message.Batches.{batch_of, replies, run_split-sends}

-- The response to a message that is no request, with a null ID and the given error's code.
abbrev pub Refuses : Error → List Payload → Type 0
Refuses e ps =
    (r : Response) × (ps ≡ single (response r) ∷ [])
    × (r.id ≡ new_null_id)
    × (r.error.code ≡ e.code)
    × (r.error.present ≡ true)

batch_of-bound : (rs : List Reply) → length (batch_of rs) ≤ 1
batch_of-bound [] = omega arith
batch_of-bound (r ∷ rs) = omega arith

single_of-bound : (r : Option Reply) → length (single_of r) ≤ 1
single_of-bound none = omega arith
single_of-bound (some r) = omega arith

Refuses-bound : (e : Error) {ps : List Payload} → Refuses e ps → length ps ≤ 1
Refuses-bound e (r, h, _, _, _) = rw h (omega arith)

refused_bound :
    (e : Error) {ps : List Payload} {o : Outcome (List Bytes)}
    → ((x : Bytes) × (xs : List Bytes) × (o ≡ ok (x ∷ xs))) ⊎ Refuses e ps
    → ((x : Bytes) (xs : List Bytes) → o ≢ ok (x ∷ xs))
    → length ps ≤ 1
refused_bound e (inl (x, xs, h)) n = absurd (n x xs h)
refused_bound e (inr r) n = Refuses-bound e r

module _ (rp : RpcServer) (schedule : List Bytes → List Bytes) (ctx : Context) where
  parse_refusal :
      (m : Bytes) (from : Option Bytes) → Refuses parse_error (sends (refuse_parse rp m from))
  unfolding refuse_parse new_response_error parse_error as_error errors_as
  parse_refusal m from = (
    new_response_error (rpc parse_error),
    sends-append (send rp (single (response (new_response_error (rpc parse_error)))) from)
          (run_on_decoding_error rp.callbacks m (rpc parse_error))
        ∙ rw (
          sends-send rp (single (response (new_response_error (rpc parse_error)))) from,
          sends-decoding_hook rp m (rpc parse_error),
        ),
    refl,
    refl,
    refl,
  )

  split_refused :
      (m : Bytes) (from : Option Bytes) (o : Outcome (List Bytes))
      → ((x : Bytes) × (xs : List Bytes) × (o ≡ ok (x ∷ xs)))
        ⊎ Refuses invalid_request (sends (run_split rp schedule ctx m from o))
  unfolding run_split invalid_request
  split_refused m from (ok (x ∷ xs)) = inl (x, xs, refl)
  split_refused m from (ok []) = inr (_, sends-send rp _ from, refl, refl, refl)
  split_refused m from (fail e) = inr (
    invalid_request_response e,
    sends-append (run_on_decoding_error rp.callbacks m e)
          (send_ignored rp (single (response (invalid_request_response e))) from)
        ∙ rw (sends-decoding_hook rp m e),
    refl,
    refl,
    refl,
  )

  split_bound :
      (m : Bytes) (from : Option Bytes) (o : Outcome (List Bytes))
      → length (sends (run_split rp schedule ctx m from o)) ≤ 1
  split_bound m from (ok (x ∷ xs)) =
      rw (run_split-sends rp ctx schedule m from x xs)
        (batch_of-bound (replies rp ctx (handling_order rp schedule (x ∷ xs))))
  split_bound m from (ok []) =
      refused_bound invalid_request (split_refused m from (ok [])) (λ x xs h. cc)
  split_bound m from (fail e) =
      refused_bound invalid_request (split_refused m from (fail e)) (λ x xs h. cc)

  hinted_refused :
      (m : Bytes) (from : Option Bytes) (t : TypeHint)
      → t ≢ TypeHint.array
      → t ≢ TypeHint.object
      → Refuses parse_error (sends (run_hinted rp schedule ctx m from t))
  unfolding run_hinted
  hinted_refused m from TypeHint.array a o = absurd (a refl)
  hinted_refused m from TypeHint.object a o = absurd (o refl)
  hinted_refused m from TypeHint.unknown a o = parse_refusal m from
  hinted_refused m from _ a o = parse_refusal m from

  hinted_bound :
      (m : Bytes) (from : Option Bytes) (t : TypeHint)
      → length (sends (run_hinted rp schedule ctx m from t)) ≤ 1
  unfolding run_hinted run_requests
  hinted_bound m from TypeHint.array = split_bound m from (rp.decoder.unmarshal_batch m)
  hinted_bound m from TypeHint.object =
      rw (sends-run_request rp ctx m from) (single_of-bound (handle_request rp ctx m).0)
  hinted_bound m from TypeHint.unknown = Refuses-bound parse_error (parse_refusal m from)
  hinted_bound m from _ = Refuses-bound parse_error (parse_refusal m from)

module _ (rp : RpcServer) (schedule : List Bytes → List Bytes) (ctx : Context) where
  run-at :
      (m : Bytes) (from : Option Bytes) (t : TypeHint)
      → hint_type m ≡ t
      → run rp schedule ctx m from ≡ run_hinted rp schedule (with_addr ctx from) m from t
  unfolding run
  run-at m from t h = rw h

  -- A message that begins as an array, and that is no array or an empty one, is answered by one
  -- response with a null ID and the code for an invalid request.
  pub run-bad_batch :
      (m : Bytes) (from : Option Bytes)
      → hint_type m ≡ TypeHint.array
      → ((x : Bytes) (xs : List Bytes) → rp.decoder.unmarshal_batch m ≢ ok (x ∷ xs))
      → Refuses invalid_request (sends (run rp schedule ctx m from))
  run-bad_batch m from h bad = rw (run-at m from TypeHint.array h) (
      array_refused
        (split_refused rp schedule (with_addr ctx from) m from (rp.decoder.unmarshal_batch m)))
    where
      array_refused :
          ((x : Bytes) × (xs : List Bytes) × (rp.decoder.unmarshal_batch m ≡ ok (x ∷ xs)))
            ⊎ Refuses invalid_request (
                sends (
                  run_split rp schedule (with_addr ctx from) m from (rp.decoder.unmarshal_batch m)))
          → Refuses invalid_request
              (sends (run_hinted rp schedule (with_addr ctx from) m from TypeHint.array))
      array_refused (inl (x, xs, e)) = absurd (bad x xs e)
      array_refused (inr r) = unfold run_hinted run_requests in r

  -- A message that begins neither as an array nor as an object is answered by one response with a null
  -- ID and the code for a parse error.
  pub run-unstructured :
      (m : Bytes) (from : Option Bytes)
      → hint_type m ≢ TypeHint.array
      → hint_type m ≢ TypeHint.object
      → Refuses parse_error (sends (run rp schedule ctx m from))
  unfolding run
  run-unstructured m from a o =
      hinted_refused rp schedule (with_addr ctx from) m from (hint_type m) a o

  -- Whatever a message is, and whatever the handler, the decoder and the goroutines do, at most one
  -- payload is sent in answer to it.
  pub run-sends_bound :
      (m : Bytes) (from : Option Bytes) → length (sends (run rp schedule ctx m from)) ≤ 1
  unfolding run
  run-sends_bound m from = hinted_bound rp schedule (with_addr ctx from) m from (hint_type m)
