-- ===== src/Rpc/Message/Starts.antt =====
-- The handling of one message starts nothing that the main loop has to wait for by itself: its events hold no
-- start of a goroutine.
use jsonrpc.Base.{ℕ, suc, ◌+◌, Option, none, some, List, [], ◌∷◌, ◌++◌, Bytes, ◌≡◌, refl, arith}
use jsonrpc.Value.{parse_error}
use jsonrpc.Failure.{GoError, rpc, Outcome, ok, fail}
use jsonrpc.Hint.{TypeHint, hint_type}
use jsonrpc.Message.Request.{Request}
use jsonrpc.Message.Response.{new_response_error}
use jsonrpc.Handler.{Context, HandlerOutcome, returns, panics}
use jsonrpc.Rpc.{
  RpcServer, Reply, response, Payload, batch, single, Event, spawned, run_on_decoding_error,
}
use jsonrpc.Rpc.Handle.{handle_request, handle_decoded, handle_outcome}
use jsonrpc.Rpc.Message.{
  send, send_reply, send_batch, append_some, handle_each, handling_order, run_request, run_split,
  run_requests, refuse_parse, run_hinted, run, with_addr,
}

-- How often a goroutine is started.
abbrev pub starts : List Event → ℕ
starts [] = 0
starts (spawned _ _ ∷ es) = suc (starts es)
starts (_ ∷ es) = starts es

pub starts-append : (es fs : List Event) → starts (es ++ fs) ≡ starts es + starts fs
starts-append [] fs = omega arith
starts-append (spawned m from ∷ es) fs = omega (arith, starts-append es fs)
starts-append (_ ∷ es) fs = starts-append es fs

append_quiet : (es fs : List Event) → starts es ≡ 0 → starts fs ≡ 0 → starts (es ++ fs) ≡ 0
append_quiet es fs e f = omega (arith, starts-append es fs, e, f)

module _ (rp : RpcServer) where
  pub starts-hook : (m : Bytes) (e : GoError) → starts (run_on_decoding_error rp.callbacks m e) ≡ 0
  unfolding run_on_decoding_error
  starts-hook m e = ground arith

  send_quiet : (p : Payload) (from : Option Bytes) → starts (send rp p from) ≡ 0
  unfolding send
  send_quiet p from = ground arith

  outcome_quiet : (req : Request) (o : HandlerOutcome) → starts (handle_outcome rp req o).1 ≡ 0
  unfolding handle_outcome
  outcome_quiet req (returns r e) = refl
  outcome_quiet req (panics v) = ground arith

  decoded_quiet :
      (ctx : Context) (m : Bytes) (o : Outcome Request) → starts (handle_decoded rp ctx m o).1 ≡ 0
  unfolding handle_decoded
  decoded_quiet ctx m (fail e) = starts-hook m e
  decoded_quiet ctx m (ok req) = outcome_quiet req (rp.handler ctx req)

  request_quiet : (ctx : Context) (m : Bytes) → starts (handle_request rp ctx m).1 ≡ 0
  unfolding handle_request
  request_quiet ctx m = decoded_quiet ctx m (rp.decoder.unmarshal_request m)

  reply_quiet :
      (from : Option Bytes) (r : Option Reply) (es : List Event)
      → starts es ≡ 0
      → starts (send_reply rp from (r, es)) ≡ 0
  unfolding send_reply
  reply_quiet from none es h = h
  reply_quiet from (some r) es h =
      append_quiet es (send rp (single r) from) h (send_quiet (single r) from)

  each_quiet :
      (ctx : Context) (ms : List Bytes) (resps : List Reply) (es : List Event)
      → starts es ≡ 0
      → starts (handle_each rp ctx ms resps es).1 ≡ 0
  unfolding handle_each
  each_quiet ctx [] resps es h = h
  each_quiet ctx (m ∷ ms) resps es h =
      each_quiet ctx ms (append_some resps (handle_request rp ctx m).0)
        (es ++ (handle_request rp ctx m).1)
        (append_quiet es (handle_request rp ctx m).1 h (request_quiet ctx m))

  batch_quiet :
      (from : Option Bytes) (rs : List Reply) (es : List Event)
      → starts es ≡ 0
      → starts (send_batch rp from (rs, es)) ≡ 0
  unfolding send_batch
  batch_quiet from [] es h = h
  batch_quiet from (r ∷ rs) es h =
      append_quiet es (send rp (batch (r ∷ rs)) from) h (send_quiet (batch (r ∷ rs)) from)

  module _ (schedule : List Bytes → List Bytes) (ctx : Context) where
    split_quiet :
        (m : Bytes) (from : Option Bytes) (o : Outcome (List Bytes))
        → starts (run_split rp schedule ctx m from o) ≡ 0
    unfolding run_split
    split_quiet m from (fail e) =
        append_quiet (run_on_decoding_error rp.callbacks m e) _ (starts-hook m e) refl
    split_quiet m from (ok []) = send_quiet _ from
    split_quiet m from (ok (x ∷ xs)) =
        let ms = handling_order rp schedule (x ∷ xs) in
        batch_quiet from (handle_each rp ctx ms [] []).0 (handle_each rp ctx ms [] []).1
          (each_quiet ctx ms [] [] refl)

    refuse_quiet : (m : Bytes) (from : Option Bytes) → starts (refuse_parse rp m from) ≡ 0
    unfolding refuse_parse
    refuse_quiet m from =
        let p = single (response (new_response_error (rpc parse_error))) in
        append_quiet (send rp p from) (run_on_decoding_error rp.callbacks m (rpc parse_error))
          (send_quiet p from) (starts-hook m (rpc parse_error))

    hinted_quiet :
        (m : Bytes) (from : Option Bytes) (t : TypeHint)
        → starts (run_hinted rp schedule ctx m from t) ≡ 0
    unfolding run_hinted run_requests run_request
    hinted_quiet m from TypeHint.array = split_quiet m from (rp.decoder.unmarshal_batch m)
    hinted_quiet m from TypeHint.object =
        reply_quiet from (handle_request rp ctx m).0 (handle_request rp ctx m).1
          (request_quiet ctx m)
    hinted_quiet m from _ = refuse_quiet m from

  pub starts-run :
      (schedule : List Bytes → List Bytes) (ctx : Context) (m : Bytes) (from : Option Bytes)
      → starts (run rp schedule ctx m from) ≡ 0
  unfolding run
  starts-run schedule ctx m from = hinted_quiet schedule (with_addr ctx from) m from (hint_type m)
