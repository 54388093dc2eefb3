-- ===== src/Rpc.antt =====
-- rpcserver.go and callbacks.go: the server, its parts, and what it does to the world outside, which is
-- kept as a list of events. The children model handleRequest, the handling of one message and the
-- main loop.
pub mod Handle
pub mod Message
pub mod Loop
mod Examples
use jsonrpc.Base.{Bool, true, false, Option, none, some, List, [], ◌∷◌, Bytes}
use jsonrpc.Value.{Any}
use jsonrpc.Failure.{GoError, Outcome}
use jsonrpc.Message.Request.{Request}
use jsonrpc.Message.Response.{Response}
use jsonrpc.Handler.{Handler}

-- What handleRequest returns, where it is not nil. A nil `*Response` is passed on as a value of its type,
-- which is not nil.
pub data Reply : Type 0 where
  response : Response → Reply
  nil_response : Reply
  raw_message : Bytes → Reply

-- What is passed to EncodeTo.
pub data Payload : Type 0 where
  single : Reply → Payload
  batch : List Reply → Payload

-- A call of the encoder with its error, a call of the handler, calls of the hooks, the start of a
-- goroutine for a message, and the steps of the clean-up.
pub data Event : Type 0 where
  sent : Payload → Option Bytes → Option GoError → Event
  handled : Request → Event
  on_decoding_error : Bytes → GoError → Event
  on_encoding_error : Payload → GoError → Event
  on_handler_panic : Request → Any → Event
  on_exit : Option GoError → Event
  spawned : Bytes → Option Bytes → Event
  waited canceled closed : Event

-- Which hooks of `Callbacks` are set.
pub record Callbacks : Type 0 where
  pub has_on_exit : Bool
  pub has_on_decoding_error : Bool
  pub has_on_encoding_error : Bool
  pub has_on_handler_panic : Bool

-- PacketDecoder, and Decoder behind decoderShim: `is_stream` tells the second. Decoding a request and
-- splitting a batch are the calls of its Unmarshal. `close` is what closing gives, nil for no io.Closer.
pub record Decoder : Type 0 where
  pub is_stream : Bool
  pub unmarshal_request : Bytes → Outcome Request
  pub unmarshal_batch : Bytes → Outcome (List Bytes)
  pub close : Option GoError

-- PacketEncoder, and Encoder behind encoderShim. `close` is nothing for an encoder that is no io.Closer.
pub record Encoder : Type 0 where
  pub encode_to : Payload → Option Bytes → Option GoError
  pub close : Option (Option GoError)

pub record RpcServer : Type 0 where
  pub callbacks : Callbacks
  pub decoder : Decoder
  pub handler : Handler
  pub encoder : Encoder
  pub serial_batch : Bool
  pub no_routines : Bool
  pub wait_on_close : Bool

-- newRPCServer: the hook for panics is set to the default one.
unfoldable pub new_rpc_server : Decoder → Encoder → Handler → RpcServer
new_rpc_server d e handler = record {
  callbacks = record {
    has_on_exit = false;
    has_on_decoding_error = false;
    has_on_encoding_error = false;
    has_on_handler_panic = true;
  };
  decoder = d;
  handler = handler;
  encoder = e;
  serial_batch = false;
  no_routines = false;
  wait_on_close = false;
}

-- runOnX: the hook is called if it is set.
abbrev pub if_set : Bool → Event → List Event
if_set true e = e ∷ []
if_set false e = []

unfoldable pub run_on_exit : Callbacks → Option GoError → List Event
run_on_exit c e = if_set c.has_on_exit (on_exit e)

unfoldable pub run_on_decoding_error : Callbacks → Bytes → GoError → List Event
run_on_decoding_error c m e = if_set c.has_on_decoding_error (on_decoding_error m e)

unfoldable pub run_on_encoding_error : Callbacks → Payload → GoError → List Event
run_on_encoding_error c p e = if_set c.has_on_encoding_error (on_encoding_error p e)

unfoldable pub run_on_handler_panic : Callbacks → Request → Any → List Event
run_on_handler_panic c r v = if_set c.has_on_handler_panic (on_handler_panic r v)
