-- ===== src/Rpc/Message/Single.antt =====
-- What one message leads to: the payloads that are sent.
use jsonrpc.Base.{Option, none, some, List, [], ◌∷◌, ◌++◌, Bytes, ◌≡◌, refl, ap, arith}
use jsonrpc.Failure.{GoError, Outcome, ok, fail}
use jsonrpc.Message.Request.{Request}
use jsonrpc.Handler.{Context, HandlerOutcome, returns, panics}
use jsonrpc.Rpc.{RpcServer, Reply, Payload, single, Event, sent, run_on_decoding_error, handled}
use jsonrpc.Rpc.Handle.{handle_request, handle_decoded, handle_outcome}
use jsonrpc.Rpc.Message.{send, run_request, send_reply}

-- The payloads that a list of events sends.
abbrev pub sends : List Event → List Payload
sends [] = []
sends (sent p _ _ ∷ es) = p ∷ sends es
sends (_ ∷ es) = sends es

pub sends-append : (es fs : List Event) → sends (es ++ fs) ≡ sends es ++ sends fs
sends-append [] fs = refl
sends-append (sent p a e ∷ es) fs = ap (◌∷◌ p) (sends-append es fs)
sends-append (handled _ ∷ es) fs = sends-append es fs
sends-append (_ ∷ es) fs = sends-append es fs

pub sends-send :
    (rp : RpcServer) (p : Payload) (from : Option Bytes) → sends (send rp p from) ≡ p ∷ []
unfolding send
sends-send rp p from = ground arith

pub sends-decoding_hook :
    (rp : RpcServer) (m : Bytes) (e : GoError) → sends (run_on_decoding_error rp.callbacks m e) ≡ []
unfolding run_on_decoding_error
sends-decoding_hook rp m e = ground arith

sends-outcome :
    (rp : RpcServer) (req : Request) (o : HandlerOutcome) → sends (handle_outcome rp req o).1 ≡ []
unfolding handle_outcome
sends-outcome rp req (returns r e) = refl
sends-outcome rp req (panics v) = ground arith

sends-decoded :
    (rp : RpcServer) (ctx : Context) (m : Bytes) (o : Outcome Request)
    → sends (handle_decoded rp ctx m o).1 ≡ []
unfolding handle_decoded
sends-decoded rp ctx m (fail e) = sends-decoding_hook rp m e
sends-decoded rp ctx m (ok req) = sends-outcome rp req (rp.handler ctx req)

-- Handling a request sends nothing by itself.
pub sends-handle_request :
    (rp : RpcServer) (ctx : Context) (m : Bytes) → sends (handle_request rp ctx m).1 ≡ []
unfolding handle_request
sends-handle_request rp ctx m = sends-decoded rp ctx m (rp.decoder.unmarshal_request m)

abbrev pub single_of : Option Reply → List Payload
single_of none = []
single_of (some r) = single r ∷ []

sends-send_reply :
    (rp : RpcServer) (from : Option Bytes) (r : Option Reply) (es : List Event)
    → sends es ≡ []
    → sends (send_reply rp from (r, es)) ≡ single_of r
unfolding send_reply
sends-send_reply rp from none es h = h
sends-send_reply rp from (some r) es h =
    rw (sends-append es (send rp (single r) from), h) (sends-send rp (single r) from)

-- A single request sends its reply and nothing else.
pub sends-run_request :
    (rp : RpcServer) (ctx : Context) (m : Bytes) (from : Option Bytes)
    → sends (run_request rp ctx m from) ≡ single_of (handle_request rp ctx m).0
unfolding run_request
sends-run_request rp ctx m from =
    sends-send_reply rp from (handle_request rp ctx m).0 (handle_request rp ctx m).1
      (sends-handle_request rp ctx m)
