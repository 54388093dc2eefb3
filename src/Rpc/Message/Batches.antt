-- ===== src/Rpc/Message/Batches.antt =====
-- What a batch leads to.
use mathlib.Core.List.{Perm, filter_map}
use mathlib.Core.List.Perm
use jsonrpc.Base.{
  ℕ, ◌+◌, true, ◌||◌, Bool-cases, Option, none, some, List, [], ◌∷◌, ◌++◌, Bytes, append-nil,
  append_assoc, ◌≡◌, inl, inr, refl, sym, ap, ◌∙◌, arith,
}
use jsonrpc.Failure.{ok}
use jsonrpc.Handler.{Context}
use jsonrpc.Rpc.{RpcServer, Reply, Payload, batch, Event, sent, handled}
use jsonrpc.Rpc.Handle.{handle_request}
use jsonrpc.Rpc.Handle.Laws.{handler_calls, decodes, handle_request-calls}
use jsonrpc.Rpc.Message.{
  send, send_batch, handle_each, append_some, handling_order, is_single, run_split, run_requests,
}
use jsonrpc.Rpc.Message.Single.{sends, sends-append, sends-send, sends-handle_request}

-- The payloads for the replies of a batch.
abbrev pub batch_of : List Reply → List Payload
batch_of [] = []
batch_of (r ∷ rs) = batch (r ∷ rs) ∷ []

-- How many of the messages are decoded to requests.
abbrev pub requests : RpcServer → List Bytes → ℕ
requests rp [] = 0
requests rp (m ∷ ms) = decodes (rp.decoder.unmarshal_request m) + requests rp ms

pub handler_calls-append :
    (es fs : List Event) → handler_calls (es ++ fs) ≡ handler_calls es + handler_calls fs
handler_calls-append [] fs = omega arith
handler_calls-append (handled r ∷ es) fs = omega (arith, handler_calls-append es fs)
handler_calls-append (sent p a e ∷ es) fs = handler_calls-append es fs
handler_calls-append (_ ∷ es) fs = handler_calls-append es fs

module _ (rp : RpcServer) (ctx : Context) where
  -- The replies that the messages get, each handled alone, in the order of the messages.
  pub replies : List Bytes → List Reply
  unfolding filter_map
  replies ms = filter_map (λ m. (handle_request rp ctx m).0) ms

  append_some-replies :
      (m : Bytes) (ms : List Bytes) (resps : List Reply)
      → append_some resps (handle_request rp ctx m).0 ++ replies ms ≡ resps ++ replies (m ∷ ms)
  unfolding replies
  append_some-replies m ms resps = go (handle_request rp ctx m).0 refl
    where
      go :
          (r : Option Reply)
          → (handle_request rp ctx m).0 ≡ r
          → append_some resps (handle_request rp ctx m).0 ++ replies ms ≡ resps ++ replies (m ∷ ms)
      go none e = rw e refl
      go (some r) e = rw e (append_assoc resps (r ∷ []) _)

  handle_each-replies :
      (ms : List Bytes) (resps : List Reply) (es : List Event)
      → (handle_each rp ctx ms resps es).0 ≡ resps ++ replies ms
  unfolding handle_each replies
  handle_each-replies [] resps es = sym (append-nil resps)
  handle_each-replies (m ∷ ms) resps es =
      handle_each-replies ms (append_some resps (handle_request rp ctx m).0)
        (es ++ (handle_request rp ctx m).1)
      ∙ append_some-replies m ms resps

  handle_each-sends :
      (ms : List Bytes) (resps : List Reply) (es : List Event)
      → sends (handle_each rp ctx ms resps es).1 ≡ sends es
  unfolding handle_each
  handle_each-sends [] resps es = refl
  handle_each-sends (m ∷ ms) resps es =
      handle_each-sends ms _ (es ++ (handle_request rp ctx m).1)
      ∙ sends-append es (handle_request rp ctx m).1
      ∙ rw (sends-handle_request rp ctx m) (append-nil (sends es))

  pub handle_each-calls :
      (ms : List Bytes) (resps : List Reply) (es : List Event)
      → handler_calls (handle_each rp ctx ms resps es).1 ≡ handler_calls es + requests rp ms
  unfolding handle_each
  handle_each-calls [] resps es = omega arith
  handle_each-calls (m ∷ ms) resps es = omega (
    arith,
    handle_each-calls ms (append_some resps (handle_request rp ctx m).0)
        (es ++ (handle_request rp ctx m).1),
    handler_calls-append es (handle_request rp ctx m).1,
    handle_request-calls rp ctx m,
  )

  send_batch-sends :
      (from : Option Bytes) (rs : List Reply) (es : List Event)
      → sends es ≡ []
      → sends (send_batch rp from (rs, es)) ≡ batch_of rs
  unfolding send_batch
  send_batch-sends from [] es h = h
  send_batch-sends from (r ∷ rs) es h =
      rw (sends-append es (send rp (batch (r ∷ rs)) from), h) (sends-send rp (batch (r ∷ rs)) from)

  pub run_split-sends :
      (schedule : List Bytes → List Bytes) (m : Bytes) (from : Option Bytes) (x : Bytes)
      (xs : List Bytes)
      → sends (run_split rp schedule ctx m from (ok (x ∷ xs)))
        ≡ batch_of (replies (handling_order rp schedule (x ∷ xs)))
  unfolding run_split
  run_split-sends schedule m from x xs =
      let ms = handling_order rp schedule (x ∷ xs) in
      send_batch-sends from (handle_each rp ctx ms [] []).0 (handle_each rp ctx ms [] []).1
        (handle_each-sends ms [] [])
      ∙ ap batch_of (handle_each-replies ms [] [])

  pub order-perm :
      (schedule : List Bytes → List Bytes) (ms : List Bytes)
      → Perm (schedule ms) ms
      → Perm (handling_order rp schedule ms) ms
  order-perm schedule ms p = elim (Bool-cases (is_single ms || rp.serial_batch)) [
    | inl h ↦ rw h (Perm.refl ms)
    | inr h ↦ rw h p
  ]

  -- A batch that is split into messages is answered by one payload with the replies that each message
  -- gets alone, in some order, and by nothing if there is no reply, whatever order
  -- the goroutines end in.
  pub run_requests-sends :
      (schedule : List Bytes → List Bytes) (m : Bytes) (from : Option Bytes) (x : Bytes)
      (xs : List Bytes)
      → rp.decoder.unmarshal_batch m ≡ ok (x ∷ xs)
      → Perm (schedule (x ∷ xs)) (x ∷ xs)
      → (rs : List Reply) × Perm rs (replies (x ∷ xs))
        × (sends (run_requests rp schedule ctx m from) ≡ batch_of rs)
  unfolding run_requests
  run_requests-sends schedule m from x xs d p = (
    replies (handling_order rp schedule (x ∷ xs)),
    unfold replies in Perm.filter_map _ (order-perm schedule (x ∷ xs) p),
    rw d (run_split-sends schedule m from x xs),
  )

  -- With SerialBatch the replies stand in the order of the messages.
  pub run_requests-serial :
      (schedule : List Bytes → List Bytes) (m : Bytes) (from : Option Bytes) (x : Bytes)
      (xs : List Bytes)
      → rp.decoder.unmarshal_batch m ≡ ok (x ∷ xs)
      → rp.serial_batch ≡ true
      → sends (run_requests rp schedule ctx m from) ≡ batch_of (replies (x ∷ xs))
  unfolding run_requests
  run_requests-serial schedule m from x xs d s =
      rw d (run_split-sends schedule m from x xs ∙ ap (λ ms. batch_of (replies ms)) (ground arith))
