-- ===== src/Server/Accepting.antt =====
-- Which connections are served, and when Serve returns.
use jsonrpc.Base.{
  ◌||◌, Option, none, some, List, [], ◌∷◌, ◌++◌, map, Bytes, All, ◌≡◌, refl, ap, ◌∙◌,
}
use jsonrpc.Failure.{GoError, Sentinel, Outcome, ok, fail, errors_is, errors_join}
use jsonrpc.Failure.Laws.{is_opt, errors_join-some}
use jsonrpc.Handler.{Context}
use jsonrpc.Rpc.Loop.{Input}
use jsonrpc.Rpc.Loop.Laws.{exit_error-some, NotFatal, fatal_of, run_server-ends}
use jsonrpc.Server.{Server, Life, Ran, stream_server, serve_connection, accept_loop, wait, serve}

pub wait-ended :
    (runs : List Ran) (err : Option GoError)
    → All (λ r. (e : GoError) × (r.1 ≡ some e)) runs
    → wait runs err ≡ err
unfolding wait
wait-ended [] err h = refl
wait-ended ((es, none) ∷ rs) err ((e, q), hs) = cc
wait-ended ((es, some e) ∷ rs) err (h, hs) = wait-ended rs err hs

module _ {ℓ} {C : Type ℓ} (s : Server C) (schedule : List Bytes → List Bytes) (ctx : Context)
    (life : C → Life) where
  -- The decoder of a connection gives a first fatal error, as it does once the connection is closed.
  abbrev pub MeetsEnd : C → Type 0
  MeetsEnd c =
      let rp = stream_server s schedule ctx life c in
      (pre post : List Input) × (i : Input) × (err : GoError) × ((life c).inputs ≡ pre ++ i ∷ post)
      × All (NotFatal rp schedule ctx) pre
      × (fatal_of rp.decoder.is_stream i.err ≡ some err)

  serve_connection-ends :
      (c : C) → MeetsEnd c → (e : GoError) × ((serve_connection s schedule ctx life c).1 ≡ some e)
  unfolding serve_connection
  serve_connection-ends c (pre, post, i, err, p, h, f) =
      let rp = stream_server s schedule ctx life c in
      let (e, q) = exit_error-some rp (life c).ctx_err err in
      (
        e,
        rw p (
            ap (λ x. x.1) (run_server-ends rp schedule ctx (life c).ctx_err pre post i err h f)
            ∙ q),
      )

  accept_loop-connections :
      (ctx_err : Option GoError) (conns : List C) (e : GoError) (rest : List (Outcome C))
      → accept_loop s schedule ctx life ctx_err (map ok conns ++ fail e ∷ rest)
        ≡ (map (serve_connection s schedule ctx life) conns, errors_join (some e ∷ ctx_err ∷ []))
  unfolding accept_loop
  accept_loop-connections ctx_err [] e rest = refl
  accept_loop-connections ctx_err (c ∷ cs) e rest =
      rw (accept_loop-connections ctx_err cs e rest) refl

  pub every_connection_ends :
      (conns : List C)
      → All MeetsEnd conns
      → All (λ r. (e : GoError) × (r.1 ≡ some e)) (map (serve_connection s schedule ctx life) conns)
  every_connection_ends [] h = tt
  every_connection_ends (c ∷ cs) (h, hs) = (serve_connection-ends c h, every_connection_ends cs hs)

  -- Serve runs one server for each connection that is accepted before the first failure of Accept, and none
  -- behind it, and where the decoder of each connection gives a fatal error it returns: with an error
  -- that is any sentinel that the failure or the context's error is.
  pub serve-returns :
      (ctx_err : Option GoError) (conns : List C) (e : GoError) (rest : List (Outcome C))
      → All MeetsEnd conns
      → (x : GoError) × (serve s schedule ctx life ctx_err (map ok conns ++ fail e ∷ rest)
          ≡ (map (serve_connection s schedule ctx life) conns, some x))
        × ((k : Sentinel) → errors_is k x ≡ (errors_is k e || is_opt k ctx_err))
  unfolding serve
  serve-returns ctx_err conns e rest h =
      let (x, j, q) = errors_join-some e ctx_err in
      (
        x,
        rw (accept_loop-connections ctx_err conns e rest) (
            ap (λ y. (map (serve_connection s schedule ctx life) conns, y))
              (wait-ended (map (serve_connection s schedule ctx life) conns)
                  (errors_join (some e ∷ ctx_err ∷ [])) (every_connection_ends conns h)
                ∙ j)),
        q,
      )
