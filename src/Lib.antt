-- ===== src/Lib.antt =====
-- Verification of jsonrpc2, a JSON-RPC 2.0 library in Go: the message objects, batches, the server
-- that turns incoming messages into replies, the method mux and the client pool.
--
-- The parts and how they interact. A server (rpcserver.go) reads messages with a decoder, guesses the
-- type of each by its first byte (typehint.go), lets a handler (handler.go) answer the requests of it, and
-- sends the replies with an encoder. Requests, responses and what they hold (request.go,
-- notification.go, response.go, id.go, params.go, data.go, error.go, version.go) are records. A batch
-- (batch.go) is a list of them. A client pool (clientpool.go) repeats a call that failed on a broken
-- connection with another connection. A client (client.go, batchbuilder.go) numbers requests and hands
-- them to the pool, whose connections are transport clients (transportclient.go).
-- A listening server (server.go) runs a server for each connection, and dialing (dial.go) gives a
-- transport client, for the scheme of a URI; over HTTP a handler (httphandler.go) runs a server for each
-- request, and a bridge (httpbridge.go) stands for the client's connection.
--
-- Which file models which part:
--   Base        shared names, Boolean tests, lists, texts and integers; no code of the repository
--   Value       `any`, Data, Result, ErrorData and Error with their constructors (data.go,
--               errordata.go, result.go, error.go)
--   Failure     Go errors as trees: errors.Is, errors.As, errors.Join, asError, Is (error.go)
--   ParseInt    strconv.ParseInt, behind json.Number
--   Hint        HintType (typehint.go)
--   Json        the JSON library (jsonrpc2.go), a parameter, and what it promises
--   Message     Id (id.go), Data (data.go), Params (params.go), Version (version.go), Response
--               (response.go), Request (request.go and notification.go)
--               Message/Wire: the JSON objects of requests, responses and errors; Message/Codec: what
--               encoding/json does with objects, a parameter
--   Batch       the methods of Batch; Batch/Correlate: BatchCorrelate (batch.go)
--   Handler     handlers and contexts; Mux: MethodMux (handler.go);
--               Mux/Refinement: a table from names to handlers, its specification
--   Rpc         RPCServer and Callbacks (rpcserver.go, callbacks.go); Rpc/Handle: handleRequest;
--               Rpc/Message: run, runRequest, runRequests; Rpc/Loop: Run and Close;
--               Rpc/Loop/Execution: Run interleaved with its goroutines
--   Exchange    a request over the wire and its response back; Exchange/Refused: the response of a failing
--               handler; Exchange/Connection: a client on a connection to a server
--   Pool        the retry loop, the defaults, the idle sweep and Close; Pool/Timed: the variants with a
--               timeout; Pool/Creation: the constructor, Dial and DialWithConfig (clientpool.go, dial.go)
--   Client      Client and BatchBuilder (client.go, batchbuilder.go)
--   Transport   TransportClient; Transport/Timed: the variants with a timeout (transportclient.go)
--   Stream      the frame of an interrupted call; Stream/Decoder (decoder.go), Stream/Encoder (encoder.go),
--               Stream/Packets (packetdecoder.go, packetencoder.go), Stream/Shims (shims.go);
--               Stream/Limited: io.LimitedReader; Stream/Serving: the main loop of rpcserver.go on a stream;
--               Stream/Ending: the same on a stream that ends
--   Schemes     the choice of transport by a URI's scheme (dial.go, server.go)
--   Dialing     DialTransport as a whole, with the constructors of its clients (dial.go,
--               transportclient.go, httpbridge.go); Dialing/HttpCall: a call to a server behind ServeHTTP
--   Server      NewServer, Serve and ServePacket (server.go, binder.go); Server/Listening: ListenAndServe as a
--               whole
--   Http        ServeHTTP (httphandler.go) and HTTPBridge (httpbridge.go); Http/Loopback: the one posting to the
--               other; Http/Body and Http/TooLarge: http.MaxBytesReader; Http/Ending: a request body
--               that ends
--
-- How state and operations correspond. A method with a pointer receiver that assigns returns the new
-- value. A pair of a value and an error is an `Outcome`, a pointer that may be nil an `Option`. Texts and
-- raw messages are lists of bytes. What the server does to the world outside (calls of the
-- encoder, of the handler and of the hooks, goroutines started, steps of the clean-up) is a list of
-- events, beside what the function returns. The goroutines of a concurrent batch append their replies
-- under a lock: the order in which they end is the parameter `schedule`. A goroutine that
-- the main loop starts for a message is one event, and what it does is `run`; in Rpc/Loop/Execution the
-- goroutines take their steps in any order with the main loop, which waits for them where the code calls Wait. The
-- inputs of the main loop are a list of what the decoder returns; the context's error and the errors of
-- closing are parameters. The pool's connections, its context and its clock are parameters: an
-- environment says what each attempt meets, and the sweep is given the idle times. The client's
-- pool and the transport client's connection are interfaces, records of functions that take a
-- state and give the new one.
--
-- A call on a stream may be interrupted by a context: each call is given whether the context fires while
-- it runs. The JSON decoder of a stream is given as the reads that it makes, one after the other. Texts
-- are of valid UTF-8, since encoding/json writes others with U+FFFD.
--
-- Bounds and fuel. The loops recurse on their lists; the retry loop recurses on the number of attempts
-- that the code has, an int of 64 bits that wraps; the default size of the pool is an int32 that wraps. An
-- int64 is read by ParseInt with its bounds of 64 bits, and the counter of IDs wraps at 2 ^ 32. Nothing runs on fuel; the calls in which a stream is read are a list, and
-- Stream/Ending says how long a list is enough.
--
-- Not modelled: HTTP headers other than the types of request and answer; package net and the HTTP server and
-- client of net/http, whose answers are parameters; package puddle; the JSON library, a parameter; a read
-- that blocks forever.
pub mod Base
pub mod Value
pub mod Failure
pub mod ParseInt
pub mod Hint
pub mod Json
pub mod Message
pub mod Batch
pub mod Handler
pub mod Mux
pub mod Rpc
pub mod Pool
pub mod Client
pub mod Transport
pub mod Http
pub mod Schemes
pub mod Stream
pub mod Server
pub mod Exchange
pub mod Dialing
