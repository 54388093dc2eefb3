-- ===== src/Stream/EndingExamples.antt =====
-- A stream that ends, with a decoder that reads up to eight bytes for each message.
use jsonrpc.Base.{
  ℕ, zero, suc, ◌≤◌, pos, true, none, some, List, [], ◌∷◌, Bytes, codes, length, ◌≡◌, inl, inr,
  refl, arith,
}
use jsonrpc.Value.{nil}
use jsonrpc.Failure.{GoError, fail, sentinel, eof, canceled, opaque, error_any}
use jsonrpc.Handler.{HandlerResult, returns}
use jsonrpc.Rpc.{RpcServer, new_rpc_server}
use jsonrpc.Rpc.Loop.{run_server}
use jsonrpc.Stream.{deadlines, Interruption}
use jsonrpc.Stream.Limited.{read, done, Reader, run}
use jsonrpc.Stream.Decoder.{JsonDecoder, StreamDecoder}
use jsonrpc.Stream.Serving.{stream_inputs}
use jsonrpc.Stream.Ending.{IsProgressing, run_server-returns}

abbrev first : ℕ → Bytes → Bytes
first zero s = []
first (suc n) [] = []
first (suc n) (c ∷ s) = c ∷ first n s

abbrev behind : ℕ → Bytes → Bytes
behind zero s = s
behind (suc n) [] = []
behind (suc n) (c ∷ s) = behind n s

length-behind : (n : ℕ) (s : Bytes) → length (behind n s) ≤ length s
length-behind zero s = omega arith
length-behind (suc n) [] = omega arith
length-behind (suc n) (c ∷ s) = omega (arith, length-behind n s)

abbrev pub read_bytes : Reader Bytes
read_bytes [] len = ([], [], some (sentinel eof))
read_bytes (c ∷ s) len = (behind len (c ∷ s), first len (c ∷ s), none)

-- The state of the decoder is not used.
abbrev pub reads_once : JsonDecoder ℕ Bytes
reads_once = record { fresh = 0; decode = λ d. read 8 (λ a e. done (d, some a, e)) }

abbrev pub unread : ℕ → Bytes → ℕ
unread d s = length s

pub reads_once-IsProgressing : IsProgressing read_bytes reads_once unread
unfolding run error_any
reads_once-IsProgressing d [] = inl (sentinel eof, refl, refl)
reads_once-IsProgressing d (c ∷ s) = inr (omega (arith, length-behind 7 s))

abbrev pub unlimited : StreamDecoder ℕ
unlimited = record { lr = none; d = 0; n = pos 0; t = pos 0 }

-- A context that is canceled while a call runs.
abbrev pub fires : Interruption
fires = record { reset = none; fired = true; ctx_err = some (sentinel canceled) }

abbrev pub four_calls : List Interruption
four_calls = fires ∷ fires ∷ fires ∷ fires ∷ []

abbrev server : RpcServer
unfolding new_rpc_server
server =
    new_rpc_server
      (record {
        is_stream = true;
        unmarshal_request = λ m. fail (opaque (codes "no request"));
        unmarshal_batch = λ m. fail (opaque (codes "no batch"));
        close = none;
      })
      (record { encode_to = λ p from. none; close = none })
      (λ ctx q. returns (HandlerResult.result nil) none)

run_server-returns_example :
    (e : GoError) × ((run_server server
        (λ ms. ms)
        (record { from_addr = none })
        none
        (stream_inputs read_bytes reads_once deadlines four_calls (unlimited, codes "abc"))).1
      ≡ some e)
unfolding new_rpc_server
run_server-returns_example =
    run_server-returns read_bytes reads_once deadlines server (λ ms. ms)
      (record { from_addr = none }) none unread four_calls (unlimited, codes "abc") refl
      reads_once-IsProgressing
      (
        (refl, inr (inl refl)),
        ((refl, inr (inl refl)), ((refl, inr (inl refl)), ((refl, inr (inl refl)), tt))),
      )
      refl (omega arith)
