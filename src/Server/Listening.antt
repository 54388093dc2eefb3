-- ===== src/Server/Listening.antt =====
-- ListenAndServe of server.go as a whole: the listener or packet connection that package net opens for a URI,
-- and the server on it. What package net and an http.Server answer is a parameter.
pub mod Returning
pub mod Waiting
use jsonrpc.Base.{
  ℕ, zero, suc, ℤ, pos, negsuc, Bool, true, false, if◌then◌else◌, Option, none, some, List, [], ◌∷◌,
  map, Bytes,
}
use jsonrpc.Failure.{GoError, Outcome, ok, fail}
use jsonrpc.Handler.{Handler, Context}
use jsonrpc.Rpc.{Decoder, Encoder, RpcServer}
use jsonrpc.Rpc.Loop.{run_server}
use jsonrpc.Schemes
use jsonrpc.Schemes.{Uri, ListenCall, listen, listen_packet, listen_http, listen_and_serve}
use jsonrpc.Server.{Server, Life, Ran, packet_server, serve, serve_packet, wait}

-- The http.Server of listenAndServeHTTP, with the HTTPHandler that its mux has under the path.
pub record HttpServer {ℓ} (C : Type ℓ) : Type ℓ where
  pub addr : Bytes
  pub path : Bytes
  pub handler : Handler
  pub binder : Option (RpcServer → RpcServer)
  pub new_encoder : C → Encoder
  pub new_decoder : C → Decoder
  pub read_header_timeout : ℤ

-- Package net, with a listener as what its Accept returns, call after call; the paths that are patterns of
-- an http.ServeMux, whose Handle panics on any other; and a running http.Server. Documented behaviour of
-- the last: it always returns an error.
pub record Network {ℓ} (C : Type ℓ) : Type ℓ where
  pub listen : Bytes → Bytes → Outcome (List (Outcome C))
  pub listen_packet : Bytes → Bytes → Outcome C
  pub is_pattern : Bytes → Bool
  pub run_http : HttpServer C → GoError

-- What a call of ListenAndServe leads to: what the goroutines for connections or for packets have done, the
-- HTTP server that is run, the error, once it is returned, and whether the call panics instead.
pub record Listened {ℓ} (C : Type ℓ) : Type ℓ where
  pub runs : List Ran
  pub http : Option (HttpServer C)
  pub err : Option GoError
  pub panicked : Bool

abbrev pub not_listening {ℓ} : {C : Type ℓ} → GoError → Listened C
not_listening e = record { runs = []; http = none; err = some e; panicked = false }

abbrev pub panics {ℓ} : {C : Type ℓ} → Listened C
panics = record { runs = []; http = none; err = none; panicked = true }

abbrev with_runs {ℓ} : {C : Type ℓ} → List Ran × Option GoError → Listened C
with_runs (runs, err) = record { runs = runs; http = none; err = err; panicked = false }

-- The shutdown goroutine of listenAndServeHTTP, once its context is done: Shutdown, and Close where that gives
-- an error.
pub data Shutdown : Type 0 where
  shut_down : ℤ → Shutdown
  force_close : Shutdown

unfoldable pub shutdown_calls {ℓ} : {C : Type ℓ} → Server C → Option GoError → List Shutdown
shutdown_calls s none = shut_down s.http_shutdown_timeout ∷ []
shutdown_calls s (some e) = shut_down s.http_shutdown_timeout ∷ force_close ∷ []

-- The http.Server of listenAndServeHTTP.
unfoldable pub http_server_of {ℓ} : {C : Type ℓ} → Server C → Bytes → Bytes → HttpServer C
http_server_of s host path = record {
  addr = host;
  path = path;
  handler = s.handler;
  binder = s.binder;
  new_encoder = s.new_encoder;
  new_decoder = s.new_decoder;
  read_header_timeout = s.http_read_timeout;
}

-- One goroutine of ServePacket.
unfoldable pub packet_run {ℓ} :
    {C : Type ℓ} → Server C → (List Bytes → List Bytes) → Context → C → Life → Ran
unfolding run_server packet_server
packet_run s schedule ctx c l = run_server (packet_server s c) schedule ctx l.ctx_err l.inputs

abbrev pub returned : Ran → Option GoError
returned (es, err) = err

-- What happens in so many goroutines.
unfoldable pub goroutines : ℕ → (ℕ → Life) → List Life
goroutines zero lives = []
goroutines (suc n) lives = lives 0 ∷ goroutines n (λ k. lives (suc k))

-- `life` is what happens on a connection, and `packet_lives` what happens in the goroutine for packets that is
-- the first, the second and so on to end. `ctx_err` and `causes` are as for Serve and ServePacket.
module _ {ℓ} {C : Type ℓ} (s : Server C) (schedule : List Bytes → List Bytes) (ctx : Context)
    (life : C → Life) (packet_lives : C → ℕ → Life) (ctx_err : Option GoError)
    (causes : List (Option GoError)) (net : Network C) where
  -- What ServePacket's goroutines come to, where it starts `n` of them.
  packets_served : ℕ → C → Listened C
  unfolding packet_run serve_packet wait goroutines
  packets_served n c =
      let runs = map (packet_run s schedule ctx c) (goroutines n (packet_lives c)) in
      with_runs (runs, wait runs (serve_packet causes (map returned runs)))

  -- ServePacket, which makes a channel for the errors of its goroutines: make panics on a size below 0.
  unfoldable pub serve_packets : C → Listened C
  unfolding packets_served
  serve_packets c = by_routines s.packet_routines c
    where
      by_routines : ℤ → C → Listened C
      by_routines (pos n) c = packets_served n c
      by_routines (negsuc n) c = panics

  -- listenAndServe, behind net.Listen
  listened : Outcome (List (Outcome C)) → Listened C
  unfolding serve
  listened (fail e) = not_listening e
  listened (ok accepts) = with_runs (serve s schedule ctx life ctx_err accepts)

  -- listenAndServePacket, behind net.ListenPacket
  packets_listened : Outcome C → Listened C
  unfolding serve_packets
  packets_listened (fail e) = not_listening e
  packets_listened (ok c) = serve_packets c

  -- listenAndServeHTTP
  unfoldable pub listen_and_serve_http : Bytes → Bytes → Listened C
  unfolding http_server_of
  listen_and_serve_http host path =
      let http = http_server_of s host path in
      if net.is_pattern path
      then record { runs = []; http = some http; err = some (net.run_http http); panicked = false }
      else panics

  -- The call that ListenAndServe ends in.
  unfoldable pub listen_by : Outcome ListenCall → Listened C
  unfolding listened packets_listened listen_and_serve_http
  listen_by (fail e) = not_listening e
  listen_by (ok (listen network addr)) = listened (net.listen network addr)
  listen_by (ok (listen_packet network addr)) = packets_listened (net.listen_packet network addr)
  listen_by (ok (listen_http host path)) = listen_and_serve_http host path

  -- ListenAndServe
  unfoldable pub listen_and_serve_on : (Bytes → Outcome Uri) → Bytes → Listened C
  unfolding listen_by listen_and_serve
  listen_and_serve_on parse uri_text = listen_by (listen_and_serve parse uri_text)
