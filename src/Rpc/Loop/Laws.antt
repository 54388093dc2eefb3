-- ===== src/Rpc/Loop/Laws.antt =====
-- When the main loop ends, and with which error.
use jsonrpc.Base.{
  Bool, not, ◌||◌, Option, none, some, List, [], ◌∷◌, ◌++◌, Bytes, All, append_assoc, ◌≡◌, refl,
  sym, ap, ◌∙◌, if◌then◌else◌, arith,
}
use jsonrpc.Failure.{
  errors_join, Sentinel, GoError, errors_is, error_any, is_syntax_error, is_type_error,
}
use jsonrpc.Failure.Laws.{is_opt, errors_is-join}
use jsonrpc.Handler.{Context}
use jsonrpc.Rpc.{RpcServer, Event}
use jsonrpc.Rpc.Loop.{
  Input, round, round_of, after_round, main_loop, close, clean_up, exit_error, run_server, finish,
}

-- Does this error end the loop? On a stream a syntax error does, on packets it does not; a type error
-- never does, and any other error does.
abbrev pub is_fatal : Bool → GoError → Bool
is_fatal stream err =
    if error_any is_syntax_error err then stream else not (error_any is_type_error err)

abbrev pub fatal_of : Bool → Option GoError → Option GoError
fatal_of stream none = none
fatal_of stream (some err) = if is_fatal stream err then some err else none

-- Run returns an error where it returns.
pub exit_error-some :
    (rp : RpcServer) (ctx_err : Option GoError) (err : GoError)
    → (e : GoError) × (exit_error rp ctx_err err ≡ some e)
unfolding exit_error errors_join
exit_error-some rp ctx_err err = (_, refl)

module _ (rp : RpcServer) (schedule : List Bytes → List Bytes) (ctx : Context) where
  round-stop : (i : Input) → (round rp schedule ctx i).1 ≡ fatal_of rp.decoder.is_stream i.err
  unfolding round
  round-stop i = go i.err
    where
      go : (e : Option GoError) → (round_of rp schedule ctx i e).1 ≡ fatal_of rp.decoder.is_stream e
      go none = refl
      go (some err) = ground arith

  -- The events of the rounds of these inputs, one after the other.
  abbrev pub rounds : List Input → List Event
  rounds [] = []
  rounds (i ∷ is) = (round rp schedule ctx i).0 ++ rounds is

  abbrev pub NotFatal : Input → Type 0
  NotFatal i = fatal_of rp.decoder.is_stream i.err ≡ none

  after_round-none :
      (r rest : List Event × Option GoError)
      → r.1 ≡ none
      → after_round r rest ≡ (r.0 ++ rest.0, rest.1)
  after_round-none (es, none) rest h = refl
  after_round-none (es, some e) rest h = cc

  after_round-some :
      (r rest : List Event × Option GoError) (e : GoError)
      → r.1 ≡ some e
      → after_round r rest ≡ (r.0, some e)
  after_round-some (es, none) rest e h = cc
  after_round-some (es, some d) rest e h = ground arith

  main_loop-fatal :
      (pre post : List Input) (i : Input) (err : GoError)
      → All NotFatal pre
      → fatal_of rp.decoder.is_stream i.err ≡ some err
      → main_loop rp schedule ctx (pre ++ i ∷ post)
        ≡ (rounds pre ++ (round rp schedule ctx i).0, some err)
  unfolding main_loop
  main_loop-fatal [] post i err h f =
      after_round-some (round rp schedule ctx i) _ err (round-stop i ∙ f)
  main_loop-fatal (j ∷ pre) post i err (h, hs) f =
      after_round-none (round rp schedule ctx j) _ (round-stop j ∙ h)
      ∙ rw (main_loop-fatal pre post i err hs f) (
          ap (λ es. (es, some err)) (sym (append_assoc (round rp schedule ctx j).0 (rounds pre) _)))

  main_loop-waits :
      (is : List Input) → All NotFatal is → main_loop rp schedule ctx is ≡ (rounds is, none)
  unfolding main_loop
  main_loop-waits [] h = refl
  main_loop-waits (j ∷ is) (h, hs) =
      after_round-none (round rp schedule ctx j) _ (round-stop j ∙ h) ∙ rw (main_loop-waits is hs)

  pub run_server-ends :
      (ctx_err : Option GoError) (pre post : List Input) (i : Input) (err : GoError)
      → All NotFatal pre
      → fatal_of rp.decoder.is_stream i.err ≡ some err
      → run_server rp schedule ctx ctx_err (pre ++ i ∷ post) ≡ (
        (rounds pre ++ (round rp schedule ctx i).0) ++ clean_up rp ctx_err err,
        exit_error rp ctx_err err,
      )
  unfolding run_server
  run_server-ends ctx_err pre post i err h f =
      ap (finish rp ctx_err) (main_loop-fatal pre post i err h f)

  -- Run ends at the first fatal error and reads nothing behind it: its events are those of the rounds up
  -- to there and of the clean-up, and the error that it returns is a given sentinel exactly if
  -- that error is, or the context's error, or an error of closing.
  pub run_server-fatal :
      (s : Sentinel) (ctx_err : Option GoError) (pre post : List Input) (i : Input) (err : GoError)
      → All NotFatal pre
      → fatal_of rp.decoder.is_stream i.err ≡ some err
      → ((run_server rp schedule ctx ctx_err (pre ++ i ∷ post)).0
          ≡ (rounds pre ++ (round rp schedule ctx i).0) ++ clean_up rp ctx_err err)
        × (is_opt s (run_server rp schedule ctx ctx_err (pre ++ i ∷ post)).1
            ≡ (errors_is s err || is_opt s ctx_err || is_opt s (close rp)))
  unfolding run_server
  run_server-fatal s ctx_err pre post i err h f =
      let e = main_loop-fatal pre post i err h f in
      (
        ap (λ r. (finish rp ctx_err r).0) e,
        ap (λ r. is_opt s (finish rp ctx_err r).1) e
            ∙ ground (arith, errors_is-join s (some err ∷ ctx_err ∷ close rp ∷ [])),
      )

  -- As long as no input is fatal, Run goes on.
  pub run_server-waits :
      (ctx_err : Option GoError) (is : List Input)
      → All NotFatal is
      → run_server rp schedule ctx ctx_err is ≡ (rounds is, none)
  unfolding run_server
  run_server-waits ctx_err is h = rw (main_loop-waits is h)
