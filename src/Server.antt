-- ===== src/Server.antt =====
-- server.go and binder.go: the server that accepts connections, and the one that reads packets. A
-- connection is a value of any type `C`; what its decoder returns, call after call, is a parameter, and so
-- is what the listener's Accept returns.
pub mod Accepting
pub mod PacketErrors
pub mod Listening
mod Examples
use jsonrpc.Base.{
  ℕ, ◌*◌, min, ℤ, pos, Bool, true, false, Option, none, some, List, [], ◌∷◌, ◌++◌, map, Bytes,
}
use jsonrpc.Failure.{GoError, Outcome, ok, fail, sentinel, canceled, errors_join}
use jsonrpc.Handler.{Handler, Context}
use jsonrpc.Rpc.{Decoder, Encoder, RpcServer, Event, new_rpc_server}
use jsonrpc.Rpc.Loop.{Input, run_server}

-- Server. A Binder is given the server for a connection, whose fields it may set. Durations are numbers of
-- nanoseconds.
pub record Server {ℓ} (C : Type ℓ) : Type ℓ where
  pub handler : Handler
  pub binder : Option (RpcServer → RpcServer)
  pub new_encoder : C → Encoder
  pub new_decoder : C → Decoder
  pub new_packet_encoder : C → Encoder
  pub new_packet_decoder : C → Decoder
  pub http_read_timeout : ℤ
  pub http_shutdown_timeout : ℤ
  pub packet_routines : ℤ

abbrev second : ℕ
second = 1000000000

-- DefaultHTTPReadTimeout and DefaultHTTPShutdownTimeout
abbrev pub default_http_read_timeout : ℕ
default_http_read_timeout = 5

abbrev pub default_http_shutdown_timeout : ℕ
default_http_shutdown_timeout = 30

-- NewStreamServer
unfoldable pub new_stream_server : Decoder → Encoder → Handler → RpcServer
unfolding new_rpc_server
new_stream_server d e handler = new_rpc_server d e handler

-- NewPacketServer
unfoldable pub new_packet_server : Decoder → Encoder → Handler → RpcServer
unfolding new_rpc_server
new_packet_server d e handler = new_rpc_server d e handler

-- NewFuncBinder
unfoldable pub new_func_binder : (RpcServer → RpcServer) → Option (RpcServer → RpcServer)
new_func_binder f = some f

abbrev pub bind : Option (RpcServer → RpcServer) → RpcServer → RpcServer
bind none rp = rp
bind (some f) rp = f rp

-- What happens on one connection: what its decoder returns, and what its context's Err gives when its
-- server ends.
pub record Life : Type 0 where
  pub inputs : List Input
  pub ctx_err : Option GoError

-- What Run has done so far, and the error that it has returned, if it has.
abbrev pub Ran : Type 0
Ran = List Event × Option GoError

module _ {ℓ} {C : Type ℓ} where
  -- NewServer. The default functions are arguments, and so are the numbers of runtime.NumCPU and
  -- runtime.GOMAXPROCS.
  unfoldable pub new_server :
      (C → Encoder) → (C → Decoder) → (C → Encoder) → (C → Decoder) → ℕ → ℕ → Handler → Server C
  new_server e d pe pd cpus procs handler = record {
    handler = handler;
    binder = none;
    new_encoder = e;
    new_decoder = d;
    new_packet_encoder = pe;
    new_packet_decoder = pd;
    http_read_timeout = pos (default_http_read_timeout * second);
    http_shutdown_timeout = pos (default_http_shutdown_timeout * second);
    packet_routines = pos (min cpus procs);
  }

  module _ (s : Server C) (schedule : List Bytes → List Bytes) (ctx : Context)
      (life : C → Life) where
    -- The server for a connection.
    unfoldable pub stream_server : C → RpcServer
    unfolding new_stream_server
    stream_server c =
        bind s.binder (new_stream_server (s.new_decoder c) (s.new_encoder c) s.handler)

    -- The goroutine that Serve starts for a connection.
    unfoldable pub serve_connection : C → Ran
    unfolding stream_server run_server
    serve_connection c = run_server (stream_server c) schedule ctx (life c).ctx_err (life c).inputs

    -- The loop of Serve, given what Accept returns: the goroutines started, and the error with which
    -- the loop ends, if it does. `ctx_err` is what the derived context's Err gives then.
    unfoldable pub accept_loop : Option GoError → List (Outcome C) → List Ran × Option GoError
    unfolding serve_connection errors_join
    accept_loop ctx_err [] = ([], none)
    accept_loop ctx_err (fail e ∷ accepts) = ([], errors_join (some e ∷ ctx_err ∷ []))
    accept_loop ctx_err (ok c ∷ accepts) =
        let rest = accept_loop ctx_err accepts in (serve_connection c ∷ rest.0, rest.1)

  -- The server for packets.
  unfoldable pub packet_server : Server C → C → RpcServer
  unfolding new_packet_server
  packet_server s c =
      bind s.binder (new_packet_server (s.new_packet_decoder c) (s.new_packet_encoder c) s.handler)

-- The deferred Wait: an error is returned once every goroutine has returned.
unfoldable pub wait : List Ran → Option GoError → Option GoError
wait [] err = err
wait ((es, none) ∷ rs) err = none
wait ((es, some e) ∷ rs) err = wait rs err

-- Serve: the goroutines, and the error, once it is returned.
unfoldable pub serve {ℓ} :
    {C : Type ℓ}
    → Server C
    → (List Bytes → List Bytes)
    → Context
    → (C → Life)
    → Option GoError
    → List (Outcome C)
    → List Ran × Option GoError
unfolding accept_loop wait
serve s schedule ctx life ctx_err accepts =
    let (runs, err) = accept_loop s schedule ctx life ctx_err accepts in (runs, wait runs err)

-- context.Cause: the calls of the cancel function with their causes, in order, count by the first.
unfoldable pub context_cause : List (Option GoError) → Option GoError
context_cause [] = none
context_cause (none ∷ cs) = some (sentinel canceled)
context_cause (some e ∷ cs) = some e

-- The loop over the errors that the goroutines of ServePacket have sent.
unfoldable pub join_errors : Option GoError → List (Option GoError) → Option GoError
unfolding errors_join
join_errors err [] = err
join_errors err (e ∷ es) = join_errors (errors_join (err ∷ e ∷ [])) es

-- The deferred call of `stop` in each goroutine.
abbrev pub stops : List (Option GoError) → List (Option GoError)
stops [] = []
stops (e ∷ es) = none ∷ stops es

-- ServePacket, once all its goroutines have returned: `sent` is what their Runs returned, in the order
-- in which the channel has it, and `causes` are the calls of `stop` by a Binder and the end of the given
-- context, as far as they come before the first goroutine has ended.
unfoldable pub serve_packet : List (Option GoError) → List (Option GoError) → Option GoError
unfolding join_errors context_cause errors_join
serve_packet causes sent =
    errors_join (join_errors none sent ∷ context_cause (causes ++ stops sent) ∷ [])
