-- ===== src/Rpc/Examples.antt =====
-- A concrete server, and what it does.
use mathlib.Core.List.{Perm}
use mathlib.Core.List.Perm
use jsonrpc.Base.{
  ◌≤◌, ◌+◌, pos, Bool, true, ◌||◌, none, some, is_some, List, [], ◌∷◌, ◌++◌, map, length, Bytes,
  codes, ◌==◌, ◌≡◌, refl, if◌then◌else◌,
}
use jsonrpc.Value.{other, text}
use jsonrpc.Failure.{Outcome, ok, fail, opaque, sentinel, eof, errors_is, error_any}
use jsonrpc.Failure.Laws.{is_opt}
use jsonrpc.Json.{int64}
use jsonrpc.Message.Request.{Request, zero_request, is_notification}
use jsonrpc.Handler.{Context, returns, result, panics}
use jsonrpc.Rpc.{
  RpcServer, Decoder, Encoder, new_rpc_server, Reply, Event, waited, canceled, closed, run_on_exit,
}
use jsonrpc.Rpc.Handle.{handle_request}
use jsonrpc.Rpc.Handle.Laws.{notification-reply, request-reply, Answers}
use jsonrpc.Rpc.Message.{run, run_requests}
use jsonrpc.Rpc.Message.Single.{sends}
use jsonrpc.Rpc.Message.Batches.{batch_of, replies, run_requests-sends}
use jsonrpc.Rpc.Message.Answers.{run-sends_bound}
use jsonrpc.Rpc.Loop.{Input, round, clean_up, close, run_server, exit_error}
use jsonrpc.Rpc.Loop.Execution.{Execution, execution, counted}
use jsonrpc.Rpc.Loop.Complete.{works, run_server_complete}
use jsonrpc.Rpc.Loop.Laws.{rounds, run_server-fatal}

abbrev a_request : Request
a_request = record zero_request {
  method = codes "m";
  id = record { value = int64 (pos 1); present = true };
}

abbrev a_notification : Request
a_notification = record zero_request { method = codes "m" }

-- A message that starts with `{` is a request, one that starts with `n` a notification.
abbrev read_request : Bytes → Outcome Request
read_request [] = fail (opaque (codes "empty"))
read_request (c ∷ m) =
    if c == b'{'
    then ok a_request
    else if c == b'n'
    then ok a_notification
    else fail (opaque (codes "no request"))

-- Behind the bracket each byte is a message.
abbrev read_batch : Bytes → Outcome (List Bytes)
read_batch [] = fail (opaque (codes "empty"))
read_batch (c ∷ m) = ok (map (λ b. b ∷ []) m)

abbrev decoder : Bool → Decoder
decoder stream = record {
  is_stream = stream;
  unmarshal_request = read_request;
  unmarshal_batch = read_batch;
  close = none;
}

abbrev encoder : Encoder
encoder = record { encode_to = λ p from. none; close = some none }

-- It answers every request with the number 7.
abbrev server : RpcServer
unfolding new_rpc_server
server = new_rpc_server (decoder true) encoder (λ ctx req. returns (result (other 7)) none)

abbrev panicking : RpcServer
unfolding new_rpc_server
panicking = new_rpc_server (decoder true) encoder (λ ctx req. panics (text (codes "boom")))

abbrev serial : RpcServer
unfolding new_rpc_server
serial = record server { serial_batch = true }

abbrev no_context : Context
no_context = record { from_addr = none }

notification-reply_example : is_some (handle_request panicking no_context (codes "n")).0 ≡ true
unfolding is_notification new_rpc_server
notification-reply_example =
    notification-reply panicking no_context (codes "n") a_notification refl refl

request-reply_example : Answers a_request true (handle_request panicking no_context (codes "{")).0
unfolding is_notification new_rpc_server
request-reply_example = request-reply panicking no_context (codes "{") a_request refl refl tt

-- The goroutines end in the opposite order.
abbrev swapped : List Bytes → List Bytes
swapped (x ∷ y ∷ []) = y ∷ x ∷ []
swapped ms = ms

run_requests-sends_example :
    (rs : List Reply) × Perm rs (replies server no_context (codes "{" ∷ codes "n" ∷ []))
    × (sends (run_requests server swapped no_context (codes "[{n") none) ≡ batch_of rs)
unfolding new_rpc_server
run_requests-sends_example =
    run_requests-sends server no_context swapped (codes "[{n") none (codes "{") (codes "n" ∷ [])
      refl (Perm.swap (codes "{") (codes "n") [])

run-sends_bound_example : length (sends (run server swapped no_context (codes "[{n") none)) ≤ 1
run-sends_bound_example = run-sends_bound server swapped no_context (codes "[{n") none

abbrev a_message : Input
a_message = record { from = none; buf = codes "{"; err = none }

abbrev at_end : Input
at_end = record { from = none; buf = []; err = some (sentinel eof) }

run_server-fatal_example :
    ((run_server server swapped no_context none (a_message ∷ at_end ∷ a_message ∷ [])).0
      ≡ (rounds server swapped no_context (a_message ∷ [])
          ++ (round server swapped no_context at_end).0)
        ++ clean_up server none (sentinel eof))
    × (is_opt eof
          (run_server server swapped no_context none (a_message ∷ at_end ∷ a_message ∷ [])).1
        ≡ (errors_is eof (sentinel eof) || is_opt eof none || is_opt eof (close server)))
unfolding error_any new_rpc_server
run_server-fatal_example =
    run_server-fatal server swapped no_context eof none (a_message ∷ []) (a_message ∷ []) at_end
      (sentinel eof) (refl, tt) refl

-- Two messages, each with its goroutine.
abbrev two_messages : List Event
two_messages = (run_server server swapped no_context none (a_message ∷ a_message ∷ at_end ∷ [])).0

abbrev in_turn : (trace : List Event) × Execution server swapped no_context two_messages [] trace
in_turn = execution server swapped no_context two_messages []

run_server_complete_example :
    (us : List Event) × (in_turn.0
      ≡ us ++ closed ∷ run_on_exit server.callbacks (exit_error server none (sentinel eof)))
    × ((p : Event → Bool)
        → counted p us
          ≡ counted p (works server swapped no_context (a_message ∷ a_message ∷ at_end ∷ []))
            + counted p (waited ∷ canceled ∷ []))
unfolding error_any new_rpc_server
run_server_complete_example =
    run_server_complete server swapped no_context none (a_message ∷ a_message ∷ []) [] at_end
      (sentinel eof) in_turn.0 (refl, (refl, tt)) refl in_turn.1
