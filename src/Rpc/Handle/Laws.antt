-- ===== src/Rpc/Handle/Laws.antt =====
-- When a message is answered, and by what.
use jsonrpc.Base.{
  ℕ, suc, Bool, true, false, not, Option, none, some, is_some, List, [], ◌∷◌, Bytes, ◌≡◌, refl,
  arith,
}
use jsonrpc.Value.{internal_error}
use jsonrpc.Failure.{GoError, Outcome, ok, fail, rpc, as_error}
use jsonrpc.Message.Request.{Request, is_notification, response_with_error, response_with_result}
use jsonrpc.Message.Response.{Response, is_error}
use jsonrpc.Handler.{Context, HandlerResult, HandlerOutcome, returns, panics}
use jsonrpc.Rpc.{RpcServer, Reply, response, Event, handled}
use jsonrpc.Rpc.Handle.{handle_request, handle_outcome, handle_decoded, or_null}

abbrev pub is_panic : HandlerOutcome → Bool
is_panic (returns _ _) = false
is_panic (panics _) = true

outcome_notification :
    (rp : RpcServer) (req : Request) (o : HandlerOutcome)
    → is_notification req ≡ true
    → is_some (handle_outcome rp req o).0 ≡ is_panic o
unfolding handle_outcome
outcome_notification rp req (returns r e) h = rw h
outcome_notification rp req (panics v) h = refl

pub decoded-request :
    (rp : RpcServer) (ctx : Context) (m : Bytes) (req : Request)
    → rp.decoder.unmarshal_request m ≡ ok req
    → handle_request rp ctx m ≡ handle_outcome rp req (rp.handler ctx req)
unfolding handle_request
decoded-request rp ctx m req d = rw d

-- A notification gets a reply exactly if its handler panics.
pub notification-reply :
    (rp : RpcServer) (ctx : Context) (m : Bytes) (req : Request)
    → rp.decoder.unmarshal_request m ≡ ok req
    → is_notification req ≡ true
    → is_some (handle_request rp ctx m).0 ≡ is_panic (rp.handler ctx req)
notification-reply rp ctx m req d h =
    rw (decoded-request rp ctx m req d) (outcome_notification rp req (rp.handler ctx req) h)

-- The handler failed, by an error or by a panic.
abbrev pub failed : HandlerOutcome → Bool
failed (returns _ none) = false
failed (returns _ (some _)) = true
failed (panics _) = true

-- The handler leaves the response to the server, and its error is not the zero `Error`.
abbrev pub IsPlain : HandlerOutcome → Type 0
IsPlain (returns (HandlerResult.response _) none) = ⊥
IsPlain (returns HandlerResult.nil_response none) = ⊥
IsPlain (returns (HandlerResult.raw_response _) none) = ⊥
IsPlain (returns (HandlerResult.result _) none) = Unit
IsPlain (returns _ (some e)) = (as_error e).present ≡ true
IsPlain (panics _) = Unit

-- A reply that is one well-formed response: it has the ID of the request, and a result or an error,
-- never both.
abbrev pub Answers : Request → Bool → Option Reply → Type 0
Answers req bad reply =
    (r : Response) × (reply ≡ some (response r))
    × (r.id ≡ req.id)
    × (is_error r ≡ bad)
    × (r.result.present ≡ not bad)

error_response :
    (req : Request) (e : GoError)
    → (as_error e).present ≡ true
    → is_error (response_with_error req e) ≡ true
unfolding is_error response_with_error
error_response req e p = rw p

outcome_request :
    (rp : RpcServer) (req : Request) (o : HandlerOutcome)
    → is_notification req ≡ false
    → IsPlain o
    → Answers req (failed o) (handle_outcome rp req o).0
unfolding handle_outcome is_error as_error
outcome_request rp req (returns (HandlerResult.response _) none) h p = absurd p
outcome_request rp req (returns HandlerResult.nil_response none) h p = absurd p
outcome_request rp req (returns (HandlerResult.raw_response _) none) h p = absurd p
outcome_request rp req (returns (HandlerResult.result v) none) h p =
    (response_with_result req (or_null v), rw h refl, refl, refl, refl)
outcome_request rp req (returns _ (some e)) h p =
    (response_with_error req e, rw h refl, refl, error_response req e p, refl)
outcome_request rp req (panics v) h p =
    (response_with_error req (rpc internal_error), refl, refl, refl, refl)

-- A request with an ID is answered by one response with that ID. It is an error exactly if the handler
-- returned an error or panicked, and holds a result exactly if it did not. The handler builds
-- no response by itself, and its error is not the zero Error.
pub request-reply :
    (rp : RpcServer) (ctx : Context) (m : Bytes) (req : Request)
    → rp.decoder.unmarshal_request m ≡ ok req
    → is_notification req ≡ false
    → IsPlain (rp.handler ctx req)
    → Answers req (failed (rp.handler ctx req)) (handle_request rp ctx m).0
request-reply rp ctx m req d h p =
    rw (decoded-request rp ctx m req d) (outcome_request rp req (rp.handler ctx req) h p)

-- How often the handler is called.
abbrev pub handler_calls : List Event → ℕ
handler_calls [] = 0
handler_calls (handled _ ∷ es) = suc (handler_calls es)
handler_calls (_ ∷ es) = handler_calls es

abbrev pub decodes : Outcome Request → ℕ
decodes (ok _) = 1
decodes (fail _) = 0

outcome_calls :
    (rp : RpcServer) (req : Request) (o : HandlerOutcome)
    → handler_calls (handle_outcome rp req o).1 ≡ 1
unfolding handle_outcome
outcome_calls rp req (returns r e) = refl
outcome_calls rp req (panics v) = ground arith

handle_decoded-calls :
    (rp : RpcServer) (ctx : Context) (m : Bytes) (o : Outcome Request)
    → handler_calls (handle_decoded rp ctx m o).1 ≡ decodes o
unfolding handle_decoded
handle_decoded-calls rp ctx m (fail e) = ground arith
handle_decoded-calls rp ctx m (ok req) = outcome_calls rp req (rp.handler ctx req)

-- The handler is called once for a message that is decoded to a request, and never for another.
pub handle_request-calls :
    (rp : RpcServer) (ctx : Context) (m : Bytes)
    → handler_calls (handle_request rp ctx m).1 ≡ decodes (rp.decoder.unmarshal_request m)
unfolding handle_request
handle_request-calls rp ctx m = handle_decoded-calls rp ctx m (rp.decoder.unmarshal_request m)
