-- ===== src/Rpc/Handle.antt =====
-- handleRequest of rpcserver.go: the reply, if any, and the events on the way.
pub mod Laws
use jsonrpc.Base.{Bool, true, false, Option, none, some, List, [], ◌∷◌, ◌++◌, Bytes, codes}
use jsonrpc.Value.{Any, nil, raw, text, other, with_data, invalid_request, internal_error}
use jsonrpc.Failure.{GoError, Outcome, ok, fail, rpc, error_text}
use jsonrpc.Message.Id.{new_null_id}
use jsonrpc.Message.Request.{Request, is_notification, response_with_error, response_with_result}
use jsonrpc.Message.Response.{Response, zero_response}
use jsonrpc.Handler
use jsonrpc.Handler.{Context, HandlerResult, HandlerOutcome, returns, panics}
use jsonrpc.Rpc.{
  RpcServer, Reply, response, nil_response, raw_message, Event, handled, run_on_decoding_error,
  run_on_handler_panic,
}

-- jsonrpc2.go: nullValue
abbrev pub null_value : Any
null_value = raw (codes "null")

abbrev pub or_null : Any → Any
or_null nil = null_value
or_null (raw m) = raw m
or_null (text s) = text s
or_null (other n) = other n

-- The switch on the type of the result.
unfoldable pub reply_of_result : Request → HandlerResult → Reply
unfolding response_with_result
reply_of_result req (HandlerResult.response r) = response r
reply_of_result req HandlerResult.nil_response = nil_response
reply_of_result req (HandlerResult.raw_response b) = raw_message b
reply_of_result req (HandlerResult.result v) = response (response_with_result req (or_null v))

-- What stands behind the call of the handler.
unfoldable pub after_handler : Bool → Request → HandlerResult → Option GoError → Option Reply
unfolding reply_of_result response_with_error
after_handler true req r err = none
after_handler false req r (some e) = some (response (response_with_error req e))
after_handler false req r none = some (reply_of_result req r)

unfoldable pub handle_outcome : RpcServer → Request → HandlerOutcome → Option Reply × List Event
unfolding after_handler response_with_error run_on_handler_panic internal_error is_notification
handle_outcome rp req (returns r err) =
    (after_handler (is_notification req) req r err, handled req ∷ [])
handle_outcome rp req (panics v) = (
  some (response (response_with_error req (rpc internal_error))),
  handled req ∷ run_on_handler_panic rp.callbacks req v,
)

-- The response to what is no request object.
unfoldable pub invalid_request_response : GoError → Response
unfolding new_null_id with_data invalid_request error_text
invalid_request_response err = record zero_response {
  id = new_null_id;
  error = with_data invalid_request (text (error_text err));
}

unfoldable pub handle_decoded :
    RpcServer → Context → Bytes → Outcome Request → Option Reply × List Event
unfolding handle_outcome invalid_request_response run_on_decoding_error
handle_decoded rp ctx m (fail err) =
    (some (response (invalid_request_response err)), run_on_decoding_error rp.callbacks m err)
handle_decoded rp ctx m (ok req) = handle_outcome rp req (rp.handler ctx req)

-- handleRequest
unfoldable pub handle_request : RpcServer → Context → Bytes → Option Reply × List Event
unfolding handle_decoded
handle_request rp ctx m = handle_decoded rp ctx m (rp.decoder.unmarshal_request m)
