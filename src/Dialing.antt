-- ===== src/Dialing.antt =====
-- dial.go, transportclient.go and httpbridge.go: the client that DialTransport gives, for what package net answers.
pub mod HttpCall
mod Examples
use jsonrpc.Base.{Option, none, some, List, [], Bytes, false}
use jsonrpc.Failure.{GoError, Outcome, ok, fail}
use jsonrpc.Message.Response.{Response}
use jsonrpc.Transport.{Outgoing, TransportClient}
use jsonrpc.Http
use jsonrpc.Http.{HttpBridge, HttpResponse}
use jsonrpc.Schemes
use jsonrpc.Schemes.{Uri, DialCall, dial, dial_tls, dial_http}

-- An Encoder and a Decoder on a state, as a TransportClient uses them.
pub record Sender {ℓ} (S : Type ℓ) : Type ℓ where
  pub encode : S → Outgoing → S × Option GoError
  pub close : Option (Option GoError)

pub record Receiver {ℓ} (S : Type ℓ) : Type ℓ where
  pub decode : S → S × Outcome Bytes
  pub unmarshal_response : Bytes → Outcome Response
  pub unmarshal_responses : Bytes → Outcome (List Response)
  pub close : Option (Option GoError)

-- NewTransportClient
unfoldable pub new_transport_client {ℓ} : {S : Type ℓ} → Sender S → Receiver S → TransportClient S
new_transport_client e d = record {
  encode = e.encode;
  decode = d.decode;
  unmarshal_response = d.unmarshal_response;
  unmarshal_responses = d.unmarshal_responses;
  close_encoder = e.close;
  close_decoder = d.close;
}

-- NewTransportClientIO, with NewEncoder and NewDecoder as arguments.
unfoldable pub new_transport_client_io {ℓ κ} :
    {S : Type ℓ} {C : Type κ} → (C → Sender S) → (C → Receiver S) → C → TransportClient S
unfolding new_transport_client
new_transport_client_io new_encoder new_decoder rw_conn =
    new_transport_client (new_encoder rw_conn) (new_decoder rw_conn)

-- NewHTTPBridge. The client and the URL are arguments of the calls.
unfoldable pub new_http_bridge : HttpBridge
new_http_bridge = record {
  resp_status = [];
  resp_buffer = [];
  resp_code = 0;
  closed = false;
  resp_json = false;
}

-- The bridge in the place of the encoder. `marshal` is Marshal, and `do_post` posts to a URL.
unfoldable pub bridge_sender :
    (Outgoing → Outcome Bytes) → (Bytes → Bytes → Outcome HttpResponse) → Bytes → Sender HttpBridge
unfolding Http.encode
bridge_sender marshal do_post url = record {
  encode = λ h x. Http.encode h (marshal x) (do_post url);
  close = some none;
}

-- The bridge in the place of the decoder. `unmarshal` is Unmarshal into a raw message, and `ctx_err` what the
-- context's Err gives when Decode is called.
unfoldable pub bridge_receiver :
    (Bytes → Outcome Bytes)
    → (Bytes → Outcome Response)
    → (Bytes → Outcome (List Response))
    → Option GoError
    → Receiver HttpBridge
unfolding Http.decode
bridge_receiver unmarshal read_response read_responses ctx_err = record {
  decode = λ h. (h, Http.decode h ctx_err unmarshal);
  unmarshal_response = read_response;
  unmarshal_responses = read_responses;
  close = some none;
}

-- What a dialed client works on: the connection's stream, or a bridge, with its state at first.
pub data Dialed {ℓ} (S : Type ℓ) : Type ℓ where
  on_stream : TransportClient S → Dialed S
  on_http : TransportClient HttpBridge → HttpBridge → Dialed S

-- Package net, package tls and the functions that put an encoder and a decoder on a connection; the bridge with
-- package net/http below it, for a URL.
pub record Dialer {ℓ κ} (S : Type ℓ) (C : Type κ) : Type (ℓ ⊔ κ) where
  pub net_dial : Bytes → Bytes → Outcome C
  pub tls_dial : Bytes → Bytes → Outcome C
  pub new_encoder : C → Sender S
  pub new_decoder : C → Receiver S
  pub bridge_encoder : Bytes → Sender HttpBridge
  pub bridge_decoder : Receiver HttpBridge

module _ {ℓ κ} {S : Type ℓ} {C : Type κ} (d : Dialer S C) where
  -- Behind DialContext, in dial and in dialTLS.
  connected : Outcome C → Outcome (Dialed S)
  unfolding new_transport_client_io
  connected (fail e) = fail e
  connected (ok c) = ok (on_stream (new_transport_client_io d.new_encoder d.new_decoder c))

  -- dial
  unfoldable pub dial_net : Bytes → Bytes → Outcome (Dialed S)
  unfolding connected
  dial_net network addr = connected (d.net_dial network addr)

  -- dialTLS
  unfoldable pub dial_tls_net : Bytes → Bytes → Outcome (Dialed S)
  unfolding connected
  dial_tls_net network addr = connected (d.tls_dial network addr)

  -- dialHTTP
  unfoldable pub dial_http_bridge : Option GoError → Bytes → Outcome (Dialed S)
  unfolding new_transport_client new_http_bridge
  dial_http_bridge (some e) url = fail e
  dial_http_bridge none url =
      ok (on_http (new_transport_client (d.bridge_encoder url) d.bridge_decoder) new_http_bridge)

  -- The call that DialTransport ends in. `ctx_err` is what the context's Err gives.
  unfoldable pub dial_by : Option GoError → Outcome DialCall → Outcome (Dialed S)
  unfolding dial_net dial_tls_net dial_http_bridge
  dial_by ctx_err (fail e) = fail e
  dial_by ctx_err (ok (dial network addr)) = dial_net network addr
  dial_by ctx_err (ok (dial_tls network addr)) = dial_tls_net network addr
  dial_by ctx_err (ok (dial_http url)) = dial_http_bridge ctx_err url

  -- DialTransport
  unfoldable pub dial_transport_on :
      Option GoError → (Bytes → Outcome Uri) → Bytes → Outcome (Dialed S)
  unfolding dial_by Schemes.dial_transport
  dial_transport_on ctx_err parse dest = dial_by ctx_err (Schemes.dial_transport parse dest)
