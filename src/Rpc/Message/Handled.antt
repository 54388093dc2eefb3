-- ===== src/Rpc/Message/Handled.antt =====
-- How often the handler is called for a batch.
use mathlib.Core.Logic.{∥∥₁_elim}
use mathlib.Core.List.{Perm, Permᴰ}
use native.Mathlib.Nat.{ℕ_set}
use jsonrpc.Base.{Option, List, [], ◌∷◌, Bytes, ◌≡◌, refl, ◌∙◌, arith}
use jsonrpc.Failure.{ok}
use jsonrpc.Handler.{Context}
use jsonrpc.Rpc.{RpcServer, Reply, Payload, batch, Event}
use jsonrpc.Rpc.Handle.Laws.{handler_calls}
use jsonrpc.Rpc.Message.{send, send_batch, handle_each, handling_order, run_split, run_requests}
use jsonrpc.Rpc.Message.Batches.{requests, handler_calls-append, handle_each-calls, order-perm}

requests-Permᴰ :
    (rp : RpcServer) {ms ns : List Bytes} → Permᴰ ms ns → requests rp ms ≡ requests rp ns
requests-Permᴰ rp Permᴰ.nil = refl
requests-Permᴰ rp (Permᴰ.cons e d) = rw (e, requests-Permᴰ rp d)
requests-Permᴰ rp (Permᴰ.swap e f) = rw (e, f) (omega arith)
requests-Permᴰ rp (Permᴰ.trans d e) = requests-Permᴰ rp d ∙ requests-Permᴰ rp e

requests-Perm : (rp : RpcServer) (ms ns : List Bytes) → Perm ms ns → requests rp ms ≡ requests rp ns
requests-Perm rp ms ns p = ∥∥₁_elim p (ℕ_set (requests rp ms) (requests rp ns)) (requests-Permᴰ rp)

send-calls :
    (rp : RpcServer) (p : Payload) (from : Option Bytes) → handler_calls (send rp p from) ≡ 0
unfolding send
send-calls rp p from = ground arith

send_batch-calls :
    (rp : RpcServer) (from : Option Bytes) (rs : List Reply) (es : List Event)
    → handler_calls (send_batch rp from (rs, es)) ≡ handler_calls es
unfolding send_batch
send_batch-calls rp from [] es = refl
send_batch-calls rp from (r ∷ rs) es = omega (
  arith,
  handler_calls-append es (send rp (batch (r ∷ rs)) from),
  send-calls rp (batch (r ∷ rs)) from,
)

-- For a batch that is split into messages the handler is called once for each message that is decoded
-- to a request, whatever order the goroutines end in.
pub run_requests-calls :
    (rp : RpcServer) (schedule : List Bytes → List Bytes) (ctx : Context) (m : Bytes)
    (from : Option Bytes) (x : Bytes) (xs : List Bytes)
    → rp.decoder.unmarshal_batch m ≡ ok (x ∷ xs)
    → Perm (schedule (x ∷ xs)) (x ∷ xs)
    → handler_calls (run_requests rp schedule ctx m from) ≡ requests rp (x ∷ xs)
unfolding run_requests run_split
run_requests-calls rp schedule ctx m from x xs d p =
    let ms = handling_order rp schedule (x ∷ xs) in
    rw d (
      send_batch-calls rp from (handle_each rp ctx ms [] []).0 (handle_each rp ctx ms [] []).1
      ∙ omega (
        arith,
        handle_each-calls rp ctx ms [] [],
        requests-Perm rp ms (x ∷ xs) (order-perm rp ctx schedule (x ∷ xs) p),
      ))
