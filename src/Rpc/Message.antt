-- ===== src/Rpc/Message.antt =====
-- run, runRequest and runRequests of rpcserver.go: the events for one message.
pub mod Single
pub mod Batches
pub mod Answers
pub mod Handled
pub mod Starts
use jsonrpc.Base.{
  Bool, true, false, ◌||◌, Option, none, some, List, [], ◌∷◌, ◌++◌, Bytes, if◌then◌else◌,
}
use jsonrpc.Value.{parse_error, invalid_request}
use jsonrpc.Failure.{GoError, Outcome, ok, fail, rpc}
use jsonrpc.Hint.{TypeHint, hint_type}
use jsonrpc.Message.Id.{new_null_id}
use jsonrpc.Message.Response.{Response, zero_response, new_response_error}
use jsonrpc.Handler.{Context}
use jsonrpc.Rpc.{
  RpcServer, Reply, response, Payload, single, batch, Event, sent, run_on_decoding_error,
  run_on_encoding_error,
}
use jsonrpc.Rpc.Handle.{handle_request, invalid_request_response}

encoding_hook : RpcServer → Payload → Option GoError → List Event
unfolding run_on_encoding_error
encoding_hook rp p none = []
encoding_hook rp p (some e) = run_on_encoding_error rp.callbacks p e

-- `if err := rp.encoder.EncodeTo(ctx, resp, from); err != nil { … }`
unfoldable pub send : RpcServer → Payload → Option Bytes → List Event
unfolding encoding_hook
send rp p from = let err = rp.encoder.encode_to p from in sent p from err ∷ encoding_hook rp p err

-- `_ = rp.encoder.EncodeTo(ctx, resp, from)`
abbrev pub send_ignored : RpcServer → Payload → Option Bytes → List Event
send_ignored rp p from = sent p from (rp.encoder.encode_to p from) ∷ []

send_reply : RpcServer → Option Bytes → Option Reply × List Event → List Event
unfolding send
send_reply rp from (none, es) = es
send_reply rp from (some r, es) = es ++ send rp (single r) from

-- runRequest
unfoldable pub run_request : RpcServer → Context → Bytes → Option Bytes → List Event
unfolding send_reply
run_request rp ctx m from = send_reply rp from (handle_request rp ctx m)

-- `if resp != nil { resps = append(resps, resp) }`
abbrev pub append_some : List Reply → Option Reply → List Reply
append_some resps none = resps
append_some resps (some r) = resps ++ r ∷ []

-- The requests of a batch, one after the other: the replies and the events so far.
unfoldable pub handle_each :
    RpcServer → Context → List Bytes → List Reply → List Event → List Reply × List Event
handle_each rp ctx [] resps es = (resps, es)
handle_each rp ctx (m ∷ ms) resps es =
    let r = handle_request rp ctx m in handle_each rp ctx ms (append_some resps r.0) (es ++ r.1)

abbrev pub is_single : List Bytes → Bool
is_single (_ ∷ []) = true
is_single _ = false

send_batch : RpcServer → Option Bytes → List Reply × List Event → List Event
unfolding send
send_batch rp from ([], es) = es
send_batch rp from (r ∷ rs, es) = es ++ send rp (batch (r ∷ rs)) from

-- The order in which the requests of a batch are handled. The goroutines of a concurrent batch append
-- their replies under a lock, in the order in which they come to an end, which `schedule` chooses.
abbrev pub handling_order : RpcServer → (List Bytes → List Bytes) → List Bytes → List Bytes
handling_order rp schedule ms = if is_single ms || rp.serial_batch then ms else schedule ms

unfoldable pub run_split :
    RpcServer
    → (List Bytes → List Bytes)
    → Context
    → Bytes
    → Option Bytes
    → Outcome (List Bytes)
    → List Event
unfolding send send_batch handle_each invalid_request_response run_on_decoding_error
run_split rp schedule ctx m from (fail err) =
    run_on_decoding_error rp.callbacks m err
    ++ send_ignored rp (single (response (invalid_request_response err))) from
run_split rp schedule ctx m from (ok []) =
    send rp (single (response (record zero_response { id = new_null_id; error = invalid_request })))
      from
run_split rp schedule ctx m from (ok (x ∷ xs)) =
    send_batch rp from (handle_each rp ctx (handling_order rp schedule (x ∷ xs)) [] [])

-- runRequests
unfoldable pub run_requests :
    RpcServer → (List Bytes → List Bytes) → Context → Bytes → Option Bytes → List Event
unfolding run_split
run_requests rp schedule ctx m from =
    run_split rp schedule ctx m from (rp.decoder.unmarshal_batch m)

-- context.WithValue(ctx, CtxFromAddr, from), where there is an address.
abbrev pub with_addr : Context → Option Bytes → Context
with_addr ctx none = ctx
with_addr ctx (some a) = record ctx { from_addr = some a }

-- The default case of the switch of run.
unfoldable pub refuse_parse : RpcServer → Bytes → Option Bytes → List Event
refuse_parse rp m from =
    send rp (single (response (new_response_error (rpc parse_error)))) from
    ++ run_on_decoding_error rp.callbacks m (rpc parse_error)

unfoldable pub run_hinted :
    RpcServer → (List Bytes → List Bytes) → Context → Bytes → Option Bytes → TypeHint → List Event
unfolding run_request run_requests refuse_parse
run_hinted rp schedule ctx m from TypeHint.array = run_requests rp schedule ctx m from
run_hinted rp schedule ctx m from TypeHint.object = run_request rp ctx m from
run_hinted rp schedule ctx m from _ = refuse_parse rp m from

-- run
unfoldable pub run :
    RpcServer → (List Bytes → List Bytes) → Context → Bytes → Option Bytes → List Event
unfolding run_hinted hint_type
run rp schedule ctx m from = run_hinted rp schedule (with_addr ctx from) m from (hint_type m)
