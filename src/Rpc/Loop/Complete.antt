-- ===== src/Rpc/Loop/Complete.antt =====
-- The messages that Run of rpcserver.go has dealt with when it closes its decoder and its encoder.
use jsonrpc.Base.{
  ◌+◌, Bool, true, false, Option, none, some, List, [], ◌∷◌, ◌++◌, Bytes, All, append_assoc,
  append-nil, if◌then◌else◌, ◌≡◌, refl, sym, ap, subst, ◌∙◌, arith,
}
use jsonrpc.Failure.{GoError}
use jsonrpc.Handler.{Context}
use jsonrpc.Rpc.{
  RpcServer, Event, spawned, waited, canceled, closed, run_on_exit, run_on_decoding_error,
}
use jsonrpc.Rpc.Message.{run}
use jsonrpc.Rpc.Message.Starts.{starts, starts-run}
use jsonrpc.Rpc.Loop.{
  Input, reject, round, round_of, round_error, round_message, clean_up, exit_error, run_server,
}
use jsonrpc.Rpc.Loop.Laws.{NotFatal, fatal_of, rounds, run_server-ends}
use jsonrpc.Rpc.Loop.Execution.{is_plain, Execution, performed, does, counted, counted-append}
use jsonrpc.Rpc.Loop.Interleaved.{split, alone}

module _ (rp : RpcServer) (schedule : List Bytes → List Bytes) (ctx : Context) where
  performed-append :
      (es fs : List Event)
      → performed rp schedule ctx (es ++ fs)
        ≡ performed rp schedule ctx es ++ performed rp schedule ctx fs
  performed-append [] fs = refl
  performed-append (e ∷ es) fs =
      ap (◌++◌ (does rp schedule ctx e)) (performed-append es fs)
      ∙ sym (
          append_assoc (does rp schedule ctx e) (performed rp schedule ctx es)
            (performed rp schedule ctx fs))

  performed-quiet : (es : List Event) → starts es ≡ 0 → performed rp schedule ctx es ≡ es
  performed-quiet [] h = refl
  performed-quiet (spawned m from ∷ es) h = ground (arith, h)
  performed-quiet (e ∷ es) h = ap (◌∷◌ e) (performed-quiet es h)

  -- What an input calls for: a message what `run` does for it, an empty one nothing, and an error what the loop
  -- does for it.
  abbrev pub message_work : Bytes → Option Bytes → List Event
  message_work [] from = []
  message_work (c ∷ m) from = run rp schedule ctx (c ∷ m) from

  abbrev pub input_work : Input → Option GoError → List Event
  input_work i none = message_work i.buf i.from
  input_work i (some err) = (round_error rp i err).0

  abbrev pub works : List Input → List Event
  works [] = []
  works (i ∷ is) = input_work i i.err ++ works is

  started_or_run :
      (b : Bool) (m : Bytes) (from : Option Bytes)
      → performed rp schedule ctx (if b then run rp schedule ctx m from else spawned m from ∷ [])
        ≡ run rp schedule ctx m from
  started_or_run true m from =
      performed-quiet (run rp schedule ctx m from) (starts-run rp schedule ctx m from)
  started_or_run false m from = append-nil (run rp schedule ctx m from)

  performed-message :
      (m : Bytes) (from : Option Bytes)
      → performed rp schedule ctx (round_message rp schedule ctx m from) ≡ message_work m from
  unfolding round_message
  performed-message [] from = refl
  performed-message (c ∷ m) from = started_or_run rp.no_routines (c ∷ m) from

  error_quiet : (i : Input) (err : GoError) → starts (round_error rp i err).0 ≡ 0
  unfolding round_error reject run_on_decoding_error
  error_quiet i err = ground arith

  performed-round :
      (i : Input) (e : Option GoError)
      → performed rp schedule ctx (round_of rp schedule ctx i e).0 ≡ input_work i e
  unfolding round_of
  performed-round i none = performed-message i.buf i.from
  performed-round i (some err) = performed-quiet (round_error rp i err).0 (error_quiet i err)

  performed-rounds :
      (pre : List Input) (i : Input)
      → performed rp schedule ctx (rounds rp schedule ctx pre ++ (round rp schedule ctx i).0)
        ≡ works (pre ++ i ∷ [])
  unfolding round
  performed-rounds [] i = performed-round i i.err ∙ sym (append-nil (input_work i i.err))
  performed-rounds (k ∷ pre) i =
      let rs = rounds rp schedule ctx pre in
      let k_round = (round_of rp schedule ctx k k.err).0 in
      let i_round = (round_of rp schedule ctx i i.err).0 in
      rw
        (
          append_assoc k_round rs i_round,
          performed-append k_round (rs ++ i_round),
          performed-round k k.err,
          performed-rounds pre i,
        )
        refl

  -- The tests that the events pass, in whatever order they are.
  Complete : List Event → List Event → Type 0
  Complete pre us =
      (p : Event → Bool)
      → counted p us
        ≡ counted p (performed rp schedule ctx pre) + counted p (waited ∷ canceled ∷ [])

  closes_last :
      (b : Bool) (exit pre trace : List Event)
      → All (λ e. is_plain e ≡ true) exit
      → Execution rp schedule ctx
          (pre ++ ((if b then waited ∷ canceled ∷ [] else canceled ∷ waited ∷ []) ++ closed ∷ exit))
          []
          trace
      → (us : List Event) × (trace ≡ us ++ closed ∷ exit) × Complete pre us
  unfolding Complete
  closes_last true exit pre trace h x =
      let (us, vs, q, c, y) = split rp schedule ctx x pre (canceled ∷ closed ∷ exit) refl in
      let rest = alone rp schedule ctx y refl (refl, (refl, h)) in
      (
        us ++ waited ∷ canceled ∷ [],
        q ∙ rw rest (sym (append_assoc us (waited ∷ canceled ∷ []) (closed ∷ exit))),
        λ p. omega (arith, c p, counted-append p us (waited ∷ canceled ∷ [])),
      )
  closes_last false exit pre trace h x =
      let (us, vs, q, c, y) =
        split rp schedule ctx x (pre ++ canceled ∷ []) (closed ∷ exit)
          (sym (append_assoc pre (canceled ∷ []) (waited ∷ closed ∷ exit))) in
      let rest = alone rp schedule ctx y refl (refl, h) in
      (
        us ++ waited ∷ [],
        q ∙ rw rest (sym (append_assoc us (waited ∷ []) (closed ∷ exit))),
        λ p. omega (
          arith,
          c p,
          counted-append p us (waited ∷ []),
          ap (counted p) (performed-append pre (canceled ∷ [])),
          counted-append p (performed rp schedule ctx pre) (canceled ∷ []),
        ),
      )

  -- When Run has returned at the first fatal error, in whatever order the main loop and the goroutines of the
  -- messages took their steps, the last that it has done is closing its decoder and its encoder and calling
  -- OnExit. Before that stands, in some order, all that the inputs up to the fatal one call for, each
  -- message its run and each bad one its refusal, and nothing else but waiting for the goroutines and
  -- canceling their context.
  pub run_server_complete :
      (ctx_err : Option GoError) (pre post : List Input) (i : Input) (err : GoError)
      (trace : List Event)
      → All (NotFatal rp schedule ctx) pre
      → fatal_of rp.decoder.is_stream i.err ≡ some err
      → Execution rp schedule ctx (run_server rp schedule ctx ctx_err (pre ++ i ∷ post)).0 [] trace
      → (us : List Event) × (trace
          ≡ us ++ closed ∷ run_on_exit rp.callbacks (exit_error rp ctx_err err))
        × ((p : Event → Bool)
            → counted p us ≡ counted p (works (pre ++ i ∷ [])) + counted p (waited ∷ canceled ∷ []))
  unfolding Complete clean_up run_on_exit
  run_server_complete ctx_err pre post i err trace nf f x =
      let es = rounds rp schedule ctx pre ++ (round rp schedule ctx i).0 in
      let on_exit = run_on_exit rp.callbacks (exit_error rp ctx_err err) in
      let y =
        subst (λ e. Execution rp schedule ctx e [] trace)
          (ap (λ r. r.0) (run_server-ends rp schedule ctx ctx_err pre post i err nf f)) x in
      let (us, h, c) = closes_last rp.wait_on_close on_exit es trace (ground arith) y in
      (us, h, λ p. c p ∙ rw (performed-rounds pre i) refl)
