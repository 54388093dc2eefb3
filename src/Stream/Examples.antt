-- ===== src/Stream/Examples.antt =====
-- A stream of bytes with a decoder that reads twice, and a connection with one packet.
use jsonrpc.Base.{
  ℕ, zero, suc, ◌≤◌, pos, true, Option, none, some, List, [], ◌∷◌, ◌++◌, Bytes, codes, length, ◌≡◌,
  ◌⊎◌, inl, inr, refl, arith,
}
use jsonrpc.Failure.{GoError, fail, sentinel, eof, canceled, json_too_large, opaque, errors_is}
use jsonrpc.Stream.{neither, closes, deadlines, clear_deadline, Interruption, prepare}
use jsonrpc.Stream.Frame.{Joined}
use jsonrpc.Value.{nil}
use jsonrpc.Handler.{HandlerResult, returns}
use jsonrpc.Failure.Laws.{is_opt}
use jsonrpc.Rpc.{RpcServer, new_rpc_server}
use jsonrpc.Rpc.Loop.{run_server}
use jsonrpc.Stream.Serving.{after, stream_inputs, run_server-too_large}
use jsonrpc.Stream.Limited.{done, read, Reader, IsReader, run}
use jsonrpc.Stream.Decoder.{
  JsonDecoder, StreamDecoder, untouched, plain_decode, at_end, rewind, decode,
}
use jsonrpc.Stream.Decoder.Laws.{
  translated, IsWellFormed, decode-drawn, decode-outcome, plain_decode-error,
}
use jsonrpc.Stream.Decoder.History.{Method, limit, decoding, history, history-IsWellFormed}
use jsonrpc.Stream.Encoder.{StreamEncoder, JsonEncoder}
use jsonrpc.Stream.Packets.{PacketConn, PacketConnDecoder, decode_from}
use jsonrpc.Stream.Packets.Laws.{ReceiveCases, decode_from-outcome}

abbrev take : ℕ → Bytes → Bytes
take zero s = []
take (suc n) [] = []
take (suc n) (c ∷ s) = c ∷ take n s

abbrev drop : ℕ → Bytes → Bytes
drop zero s = s
drop (suc n) [] = []
drop (suc n) (c ∷ s) = drop n s

abbrev read_bytes : Reader Bytes
read_bytes [] len = ([], [], some (sentinel eof))
read_bytes (c ∷ s) len = (drop len (c ∷ s), take len (c ∷ s), none)

length-take : (n : ℕ) (s : Bytes) → length (take n s) ≤ n
length-take zero s = omega arith
length-take (suc n) [] = omega arith
length-take (suc n) (c ∷ s) = omega (arith, length-take n s)

read_bytes-IsReader : IsReader read_bytes
read_bytes-IsReader [] len = omega arith
read_bytes-IsReader (c ∷ s) len = length-take len (c ∷ s)

abbrev reads_twice : JsonDecoder ℕ Bytes
reads_twice = record {
  fresh = 0;
  decode = λ d. read 8 (λ a e. read 8 (λ b f. done (d, some (a ++ b), f)));
}

-- The limit is 4.
abbrev limited : StreamDecoder ℕ
limited = record { lr = some 4; d = 0; n = pos 4; t = pos 0 }

limited-IsWellFormed : IsWellFormed limited
limited-IsWellFormed = inr (4, refl, refl, omega arith)

-- A context that is canceled while a call runs.
abbrev fires : Interruption
fires = record { reset = none; fired = true; ctx_err = some (sentinel canceled) }

six_bytes_are_too_large :
    (decode read_bytes reads_twice neither fires limited (codes "abcdef")).1
    ≡ some (sentinel json_too_large)
unfolding decode plain_decode run rewind errors_is
six_bytes_are_too_large = refl

decode-drawn_example :
    (decode read_bytes reads_twice closes fires limited (codes "abcdef")).0.drawn ≤ 4
decode-drawn_example =
    decode-drawn read_bytes reads_twice read_bytes-IsReader closes fires limited (codes "abcdef")
      limited-IsWellFormed refl

plain_decode-error_example :
    (plain_decode read_bytes reads_twice (rewind limited) (codes "abcdef")).1
    ≡ some (sentinel json_too_large)
unfolding run errors_is translated at_end
plain_decode-error_example =
    plain_decode-error read_bytes reads_twice read_bytes-IsReader limited (codes "abcdef")
      limited-IsWellFormed refl

decode-outcome_example :
    let q = plain_decode read_bytes reads_twice (rewind limited) (codes "abcdef") in
    let x = decode read_bytes reads_twice deadlines fires limited (codes "abcdef") in
    ((prepare deadlines fires ≡ none) × (x.0 ≡ q.0) × Joined q.1 (some (sentinel canceled)) x.1)
    ⊎ ((e : GoError) × (prepare deadlines fires ≡ some e)
        × (x ≡ (untouched (rewind limited) (codes "abcdef"), some e, clear_deadline ∷ [])))
decode-outcome_example =
    decode-outcome read_bytes reads_twice read_bytes-IsReader deadlines fires limited
      (codes "abcdef")

abbrev two_steps : List Method
two_steps = decoding closes fires ∷ limit (pos 4) ∷ []

history-IsWellFormed_example :
    IsWellFormed (history read_bytes reads_twice two_steps (codes "abcdef")).0
history-IsWellFormed_example =
    history-IsWellFormed read_bytes reads_twice read_bytes-IsReader two_steps (codes "abcdef")

abbrev append_text : JsonEncoder Bytes Bytes
append_text s v = (s ++ v, none)

abbrev encoder : StreamEncoder
encoder = record { t = pos 5 }

-- The packets on their way, and what was sent.
abbrev one_packet : PacketConn (List Bytes)
one_packet = record {
  read_from = λ ps len. elim ps [
    | [] ↦ ([], [], none, some (sentinel eof))
    | p ∷ qs ↦ (qs, take len p, some (codes "peer"), none)
  ];
  write_to = λ ps buf addr. (ps ++ buf ∷ [], none);
}

abbrev packet_decoder : PacketConnDecoder
packet_decoder = record { n = pos 0; t = pos 0 }

abbrev unmarshal_any : Bytes → Option Bytes × Option GoError
unmarshal_any m = (some m, none)

decode_from-outcome_example :
    ReceiveCases one_packet unmarshal_any fires packet_decoder
      (codes "{}" ∷ [])
      none
      (decode_from one_packet unmarshal_any fires packet_decoder (codes "{}" ∷ []))
decode_from-outcome_example =
    decode_from-outcome one_packet unmarshal_any fires packet_decoder (codes "{}" ∷ [])
      (inr (sentinel canceled, refl))

-- A server on the stream of six bytes: no value is complete within four.
abbrev server : RpcServer
unfolding new_rpc_server
server =
    new_rpc_server
      (record {
        is_stream = true;
        unmarshal_request = λ m. fail (opaque (codes "no request"));
        unmarshal_batch = λ m. fail (opaque (codes "no batch"));
        close = none;
      })
      (record { encode_to = λ p from. none; close = none })
      (λ ctx q. returns (HandlerResult.result nil) none)

run_server-too_large_example :
    is_opt json_too_large
      (run_server server
        (λ ms. ms)
        (record { from_addr = none })
        none
        (stream_inputs read_bytes reads_twice closes
          (fires ∷ fires ∷ [])
          (limited, codes "abcdef"))).1
    ≡ true
unfolding new_rpc_server run at_end errors_is after stream_inputs
run_server-too_large_example =
    run_server-too_large read_bytes reads_twice read_bytes-IsReader server (λ ms. ms)
      (record { from_addr = none }) none closes [] fires (fires ∷ []) (limited, codes "abcdef")
      (sentinel eof) refl limited-IsWellFormed tt refl (inr (inl refl)) refl refl refl refl
