-- ===== src/Server/Listening/Returning.antt =====
-- ListenAndServe comes to an end.
use jsonrpc.Base.{
  ℕ, zero, suc, pos, true, false, Option, some, List, [], ◌∷◌, ◌++◌, map, Bytes, All, ◌≡◌, refl, ap,
  ◌∙◌,
}
use jsonrpc.Failure.{GoError, Outcome, ok, fail}
use jsonrpc.Handler.{Context}
use jsonrpc.Rpc.Loop.{Input}
use jsonrpc.Rpc.Loop.Laws.{exit_error-some, NotFatal, fatal_of, run_server-ends}
use jsonrpc.Schemes.{Uri, ListenCall, listen, listen_packet, listen_http, listen_and_serve}
use jsonrpc.Server.{Server, Life, packet_server, serve}
use jsonrpc.Server.Accepting.{MeetsEnd, wait-ended, serve-returns}
use jsonrpc.Server.PacketErrors.{serve_packet-errors}
use jsonrpc.Server.Listening.Waiting.{HasReturned}
use jsonrpc.Server.Listening.{
  Network, Listened, returned, packet_run, goroutines, packets_served, serve_packets, listened,
  packets_listened, listen_by, listen_and_serve_on, listen_and_serve_http,
}

-- An error is returned, without a panic.
abbrev pub Over {ℓ} : {C : Type ℓ} → Listened C → Type 0
Over x = ((e : GoError) × (x.err ≡ some e)) × (x.panicked ≡ false)

module _ {ℓ} {C : Type ℓ} (s : Server C) (schedule : List Bytes → List Bytes) (ctx : Context)
    (life : C → Life) (packet_lives : C → ℕ → Life) (ctx_err : Option GoError)
    (causes : List (Option GoError)) (net : Network C) where
  -- A listener whose Accept fails at last, as it does once it is closed, on connections whose decoders give a
  -- fatal error.
  abbrev pub Closes : List (Outcome C) → Type ℓ
  Closes accepts =
      (conns : List C) × (e : GoError) × (rest : List (Outcome C)) × (accepts
        ≡ map ok conns ++ fail e ∷ rest)
      × All (MeetsEnd s schedule ctx life) conns

  -- A goroutine for packets whose decoder gives a fatal error.
  abbrev pub PacketsEnd : C → Life → Type 0
  PacketsEnd c l =
      (pre post : List Input) × (i : Input) × (err : GoError) × (l.inputs ≡ pre ++ i ∷ post)
      × All (NotFatal (packet_server s c) schedule ctx) pre
      × (fatal_of (packet_server s c).decoder.is_stream i.err ≡ some err)

  -- At least one goroutine reads packets.
  abbrev pub HasRoutines : Type 0
  HasRoutines = (n : ℕ) × (s.packet_routines ≡ pos (suc n))

  packet_run-ends :
      (c : C) (l : Life) → PacketsEnd c l → HasReturned (packet_run s schedule ctx c l)
  packet_run-ends c l (pre, post, i, err, p, h, f) =
      let rp = packet_server s c in
      let (e, q) = exit_error-some rp l.ctx_err err in
      (
        e,
        unfold packet_run in
            rw p (ap (λ x. x.1) (run_server-ends rp schedule ctx l.ctx_err pre post i err h f) ∙ q),
      )

  packet_runs_end :
      (c : C) (ls : List Life)
      → All (PacketsEnd c) ls
      → All HasReturned (map (packet_run s schedule ctx c) ls)
  packet_runs_end c [] h = tt
  packet_runs_end c (l ∷ ls) (h, hs) = (packet_run-ends c l h, packet_runs_end c ls hs)

  goroutines-end :
      (c : C) (n : ℕ) (lives : ℕ → Life)
      → ((k : ℕ) → PacketsEnd c (lives k))
      → All (PacketsEnd c) (goroutines n lives)
  unfolding goroutines
  goroutines-end c zero lives h = tt
  goroutines-end c (suc n) lives h = (h 0, goroutines-end c n (λ k. lives (suc k)) (λ k. h (suc k)))

  packets_served-Over :
      (c : C) (n : ℕ)
      → ((k : ℕ) → PacketsEnd c (packet_lives c k))
      → Over (packets_served s schedule ctx life packet_lives ctx_err causes net (suc n) c)
  unfolding packets_served goroutines
  packets_served-Over c n h =
      let ls = goroutines n (λ k. packet_lives c (suc k)) in
      let ends =
        packet_runs_end c (packet_lives c 0 ∷ ls) (goroutines-end c (suc n) (packet_lives c) h) in
      let first = packet_run s schedule ctx c (packet_lives c 0) in
      let rest = map (packet_run s schedule ctx c) ls in
      let (e, r, _) = serve_packet-errors causes (returned first) (map returned rest) in
      ((e, wait-ended (first ∷ rest) _ ends ∙ r), refl)

  serve_packets-Over :
      (c : C) (n : ℕ)
      → s.packet_routines ≡ pos (suc n)
      → ((k : ℕ) → PacketsEnd c (packet_lives c k))
      → Over (serve_packets s schedule ctx life packet_lives ctx_err causes net c)
  unfolding serve_packets
  serve_packets-Over c n q h = rw q (packets_served-Over c n h)

  serve-Over :
      (accepts : List (Outcome C))
      → Closes accepts
      → (e : GoError) × ((serve s schedule ctx life ctx_err accepts).1 ≡ some e)
  serve-Over accepts (conns, e, rest, q, ends) =
      let (x, r, _) = serve-returns s schedule ctx life ctx_err conns e rest ends in
      (x, rw q (ap (λ z. z.1) r))

  listened-Over :
      (o : Outcome (List (Outcome C)))
      → ((accepts : List (Outcome C)) → o ≡ ok accepts → Closes accepts)
      → Over (listened s schedule ctx life packet_lives ctx_err causes net o)
  unfolding listened
  listened-Over (fail e) h = ((e, refl), refl)
  listened-Over (ok accepts) h = (serve-Over accepts (h accepts refl), refl)

  packets_listened-Over :
      (o : Outcome C)
      → HasRoutines
      → ((c : C) → o ≡ ok c → (k : ℕ) → PacketsEnd c (packet_lives c k))
      → Over (packets_listened s schedule ctx life packet_lives ctx_err causes net o)
  unfolding packets_listened
  packets_listened-Over (fail e) (n, q) h = ((e, refl), refl)
  packets_listened-Over (ok c) (n, q) h = serve_packets-Over c n q (h c refl)

  listen_by-Over :
      (o : Outcome ListenCall)
      → ((network addr : Bytes) (accepts : List (Outcome C))
          → net.listen network addr ≡ ok accepts
          → Closes accepts)
      → HasRoutines
      → ((network addr : Bytes) (c : C)
          → net.listen_packet network addr ≡ ok c
          → (k : ℕ) → PacketsEnd c (packet_lives c k))
      → ((host path : Bytes) → o ≡ ok (listen_http host path) → net.is_pattern path ≡ true)
      → Over (listen_by s schedule ctx life packet_lives ctx_err causes net o)
  unfolding listen_by listen_and_serve_http
  listen_by-Over (fail e) h routines k = λ m. ((e, refl), refl)
  listen_by-Over (ok (listen network addr)) h routines k =
      λ m. listened-Over (net.listen network addr) (h network addr)
  listen_by-Over (ok (listen_packet network addr)) h routines k =
      λ m. packets_listened-Over (net.listen_packet network addr) routines (k network addr)
  listen_by-Over (ok (listen_http host path)) h routines k =
      λ m. rw (m host path refl) ((net.run_http _, refl), refl)

  pub listen_and_serve_on-returns :
      (parse : Bytes → Outcome Uri) (uri_text : Bytes)
      → ((network addr : Bytes) (accepts : List (Outcome C))
          → net.listen network addr ≡ ok accepts
          → Closes accepts)
      → HasRoutines
      → ((network addr : Bytes) (c : C)
          → net.listen_packet network addr ≡ ok c
          → (k : ℕ) → PacketsEnd c (packet_lives c k))
      → ((host path : Bytes)
          → listen_and_serve parse uri_text ≡ ok (listen_http host path)
          → net.is_pattern path ≡ true)
      → Over
          (listen_and_serve_on s schedule ctx life packet_lives ctx_err causes net parse uri_text)
  unfolding listen_and_serve_on
  listen_and_serve_on-returns parse uri_text h routines k m =
      listen_by-Over (listen_and_serve parse uri_text) h routines k m
