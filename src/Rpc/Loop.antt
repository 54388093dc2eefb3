-- ===== src/Rpc/Loop.antt =====
-- Run and Close of rpcserver.go. What DecodeFrom returns, call after call, is a list; where the list
-- ends, the loop waits for the decoder. A goroutine that is started for a message is an event here,
-- and what it does is `run` of Rpc/Message.
pub mod Laws
pub mod Execution
pub mod Interleaved
pub mod Complete
use jsonrpc.Base.{Bool, true, false, Option, none, some, List, [], ◌∷◌, ◌++◌, Bytes, if◌then◌else◌}
use jsonrpc.Value.{Error, text, with_data, parse_error, invalid_request}
use jsonrpc.Failure.{
  GoError, rpc, error_text, error_any, is_syntax_error, is_type_error, errors_join,
}
use jsonrpc.Message.Response.{new_response_error}
use jsonrpc.Handler.{Context}
use jsonrpc.Rpc.{
  RpcServer, response, single, Event, spawned, waited, canceled, closed, run_on_decoding_error,
  run_on_exit,
}
use jsonrpc.Rpc.Message.{send_ignored, run}

-- What one call of DecodeFrom leaves in `from`, `buf` and `err`.
pub record Input : Type 0 where
  pub from : Option Bytes
  pub buf : Bytes
  pub err : Option GoError

-- The answer to a message that cannot be decoded.
unfoldable pub reject : RpcServer → Input → Error → GoError → List Event
unfolding new_response_error with_data error_text run_on_decoding_error
reject rp i e err =
    send_ignored rp
      (single (response (new_response_error (rpc (with_data e (text (error_text err))))))) i.from
    ++ run_on_decoding_error rp.callbacks i.buf err

-- A round with an error: the events, and the error with which the loop is left, if it is.
unfoldable pub round_error : RpcServer → Input → GoError → List Event × Option GoError
unfolding reject parse_error invalid_request
round_error rp i err =
    if error_any is_syntax_error err
    then (reject rp i parse_error err, if rp.decoder.is_stream then some err else none)
    else if error_any is_type_error err
    then (reject rp i invalid_request err, none)
    else ([], some err)

-- A round with a message.
unfoldable pub round_message :
    RpcServer → (List Bytes → List Bytes) → Context → Bytes → Option Bytes → List Event
unfolding run
round_message rp schedule ctx [] from = []
round_message rp schedule ctx (c ∷ m) from =
    if rp.no_routines then run rp schedule ctx (c ∷ m) from else spawned (c ∷ m) from ∷ []

round_of :
    RpcServer
    → (List Bytes → List Bytes)
    → Context
    → Input
    → Option GoError
    → List Event × Option GoError
unfolding round_error round_message
round_of rp schedule ctx i none = (round_message rp schedule ctx i.buf i.from, none)
round_of rp schedule ctx i (some err) = round_error rp i err

-- One round of the main loop.
unfoldable pub round :
    RpcServer → (List Bytes → List Bytes) → Context → Input → List Event × Option GoError
unfolding round_of
round rp schedule ctx i = round_of rp schedule ctx i i.err

abbrev pub after_round :
    List Event × Option GoError → List Event × Option GoError → List Event × Option GoError
after_round (es, some err) rest = (es, some err)
after_round (es, none) (fs, stop) = (es ++ fs, stop)

-- The main loop.
unfoldable pub main_loop :
    RpcServer → (List Bytes → List Bytes) → Context → List Input → List Event × Option GoError
main_loop rp schedule ctx [] = ([], none)
main_loop rp schedule ctx (i ∷ is) =
    let rest = main_loop rp schedule ctx is in after_round (round rp schedule ctx i) rest

closed_with : Option GoError → Option (Option GoError) → Option GoError
unfolding errors_join
closed_with err none = err
closed_with err (some e) = errors_join (err ∷ e ∷ [])

-- Close
unfoldable pub close : RpcServer → Option GoError
unfolding closed_with
close rp = closed_with rp.decoder.close rp.encoder.close

-- The error that Run returns.
unfoldable pub exit_error : RpcServer → Option GoError → GoError → Option GoError
unfolding errors_join close
exit_error rp ctx_err err = errors_join (some err ∷ ctx_err ∷ close rp ∷ [])

-- The deferred clean-up.
unfoldable pub clean_up : RpcServer → Option GoError → GoError → List Event
unfolding exit_error run_on_exit
clean_up rp ctx_err err =
    (if rp.wait_on_close then waited ∷ canceled ∷ [] else canceled ∷ waited ∷ [])
    ++ closed ∷ run_on_exit rp.callbacks (exit_error rp ctx_err err)

-- Run: the events, and the error that it returns once it has returned. `ctx_err` is what the
-- context's Err gives at that time.
finish : RpcServer → Option GoError → List Event × Option GoError → List Event × Option GoError
unfolding clean_up exit_error
finish rp ctx_err (es, none) = (es, none)
finish rp ctx_err (es, some err) = (es ++ clean_up rp ctx_err err, exit_error rp ctx_err err)

unfoldable pub run_server :
    RpcServer
    → (List Bytes → List Bytes)
    → Context
    → Option GoError
    → List Input
    → List Event × Option GoError
unfolding finish main_loop
run_server rp schedule ctx ctx_err is = finish rp ctx_err (main_loop rp schedule ctx is)
