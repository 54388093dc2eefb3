-- ===== src/Server/Listening/Waiting.antt =====
-- ListenAndServe waits for what it has started.
use jsonrpc.Base.{
  ℕ, pos, negsuc, ℤ, Bool-cases, inl, inr, Option, none, some, List, [], ◌∷◌, Bytes, All, ◌≡◌, refl,
}
use jsonrpc.Failure.{GoError, Outcome, ok, fail}
use jsonrpc.Handler.{Context}
use jsonrpc.Schemes.{Uri, ListenCall, listen, listen_packet, listen_http, listen_and_serve}
use jsonrpc.Server.{Server, Life, Ran, wait, serve}
use jsonrpc.Server.Listening.{
  Network, Listened, packets_served, serve_packets, listened, packets_listened, listen_by,
  listen_and_serve_on, listen_and_serve_http,
}

-- A Run that has returned an error.
abbrev pub HasReturned : Ran → Type 0
HasReturned r = (e : GoError) × (r.1 ≡ some e)

wait-some :
    (runs : List Ran) (err : Option GoError) (e : GoError)
    → wait runs err ≡ some e
    → All HasReturned runs
unfolding wait
wait-some [] err e h = tt
wait-some ((es, none) ∷ rs) err e h = cc
wait-some ((es, some x) ∷ rs) err e h = ((x, refl), wait-some rs err e h)

-- Nothing that was started is still running once there is an error.
abbrev Waits {ℓ} : {C : Type ℓ} → Listened C → GoError → Type 0
Waits x e = x.err ≡ some e → All HasReturned x.runs

module _ {ℓ} {C : Type ℓ} (s : Server C) (schedule : List Bytes → List Bytes) (ctx : Context)
    (life : C → Life) (packet_lives : C → ℕ → Life) (ctx_err : Option GoError)
    (causes : List (Option GoError)) (net : Network C) where
  serve_packets-Waits :
      (c : C) (e : GoError)
      → Waits (serve_packets s schedule ctx life packet_lives ctx_err causes net c) e
  unfolding serve_packets packets_served
  serve_packets-Waits c e = by_routines s.packet_routines refl
    where
      by_routines :
          (n : ℤ)
          → s.packet_routines ≡ n
          → Waits (serve_packets s schedule ctx life packet_lives ctx_err causes net c) e
      by_routines (pos n) q = rw q (wait-some _ _ e)
      by_routines (negsuc n) q = rw q (λ h. tt)

  listened-Waits :
      (o : Outcome (List (Outcome C))) (e : GoError)
      → Waits (listened s schedule ctx life packet_lives ctx_err causes net o) e
  unfolding listened serve
  listened-Waits (fail x) e = λ h. tt
  listened-Waits (ok accepts) e = wait-some _ _ e

  packets_listened-Waits :
      (o : Outcome C) (e : GoError)
      → Waits (packets_listened s schedule ctx life packet_lives ctx_err causes net o) e
  unfolding packets_listened
  packets_listened-Waits (fail x) e = λ h. tt
  packets_listened-Waits (ok c) e = serve_packets-Waits c e

  listen_and_serve_http-Waits :
      (host path : Bytes) (e : GoError)
      → Waits
          (listen_and_serve_http s schedule ctx life packet_lives ctx_err causes net host path)
          e
  unfolding listen_and_serve_http
  listen_and_serve_http-Waits host path e = elim (Bool-cases (net.is_pattern path)) [
    | inl h ↦ rw h (λ q. tt)
    | inr h ↦ rw h (λ q. tt)
  ]

  listen_by-Waits :
      (o : Outcome ListenCall) (e : GoError)
      → Waits (listen_by s schedule ctx life packet_lives ctx_err causes net o) e
  unfolding listen_by
  listen_by-Waits (fail x) e = λ h. tt
  listen_by-Waits (ok (listen network addr)) e = listened-Waits (net.listen network addr) e
  listen_by-Waits (ok (listen_packet network addr)) e =
      packets_listened-Waits (net.listen_packet network addr) e
  listen_by-Waits (ok (listen_http host path)) e = listen_and_serve_http-Waits host path e

  -- Where ListenAndServe returns an error, each server that it has started for a connection or for packets has
  -- returned.
  pub listen_and_serve_on-waits :
      (parse : Bytes → Outcome Uri) (uri_text : Bytes) (e : GoError)
      → (listen_and_serve_on s schedule ctx life packet_lives ctx_err causes net parse uri_text).err
        ≡ some e
      → All HasReturned
          (listen_and_serve_on s schedule ctx life packet_lives ctx_err causes net parse
            uri_text).runs
  unfolding listen_and_serve_on
  listen_and_serve_on-waits parse uri_text e h =
      listen_by-Waits (listen_and_serve parse uri_text) e h
