-- ===== src/Transport.antt =====
-- transportclient.go: the client on one connection. The connection is an interface: its encoder and
-- decoder take its state and give the new one, and `ctx_err` is what the context's Err gives when a call
-- has the lock. A lock holds each call together, so the calls are steps in sequence.
pub mod InStep
pub mod Timed
mod Examples
use jsonrpc.Base.{Bool, true, false, Option, none, some, List, [], ◌∷◌, Bytes}
use jsonrpc.Failure.{GoError, Outcome, ok, fail, errors_join}
use jsonrpc.Hint.{TypeHint, hint_type}
use jsonrpc.Message.Request.{Request, Notification}
use jsonrpc.Message.Response.{Response}
use jsonrpc.Batch.{add, new_batch}

-- What is passed to Encode.
pub data Outgoing : Type 0 where
  request : Request → Outgoing
  requests : List Request → Outgoing
  raw_message : Bytes → Outgoing

-- TransportClient. A `close` is nothing for a part that is no io.Closer.
pub record TransportClient {ℓ} (S : Type ℓ) : Type ℓ where
  pub encode : S → Outgoing → S × Option GoError
  pub decode : S → S × Outcome Bytes
  pub unmarshal_response : Bytes → Outcome Response
  pub unmarshal_responses : Bytes → Outcome (List Response)
  pub close_encoder : Option (Option GoError)
  pub close_decoder : Option (Option GoError)

abbrev or_nil : Option (Option GoError) → Option GoError
or_nil none = none
or_nil (some e) = e

closed : Option GoError → Option (Option GoError) → Option GoError
unfolding errors_join
closed err none = err
closed err (some e) = errors_join (err ∷ e ∷ [])

module _ {ℓ} {S : Type ℓ} (c : TransportClient S) where
  -- Close
  unfoldable pub close : Option GoError
  unfolding closed
  close = closed (or_nil c.close_encoder) c.close_decoder

  -- Behind Encode. The nil message of a notification is the empty list of bytes.
  unfoldable pub after_encode : Bool → S × Option GoError → S × Outcome Bytes
  after_encode is_notify (s, some e) = (s, fail e)
  after_encode true (s, none) = (s, ok [])
  after_encode false (s, none) = c.decode s

  -- call
  unfoldable pub call : Option GoError → S → Outgoing → Bool → S × Outcome Bytes
  unfolding after_encode
  call (some e) s rpc is_notify = (s, fail e)
  call none s rpc is_notify = after_encode is_notify (c.encode s rpc)

  read_response : S × Outcome Bytes → S × Outcome Response
  read_response (s, fail e) = (s, fail e)
  read_response (s, ok m) = (s, c.unmarshal_response m)

  -- Call
  unfoldable pub call_request : Option GoError → S → Request → S × Outcome Response
  unfolding call read_response
  call_request ctx_err s r = read_response (call ctx_err s (request r) false)

  -- CallRaw
  unfoldable pub call_raw : Option GoError → S → Bytes → S × Outcome Response
  unfolding call read_response
  call_raw ctx_err s r = read_response (call ctx_err s (raw_message r) false)

  one_response : Outcome Response → Outcome (List Response)
  unfolding add
  one_response (fail e) = fail e
  one_response (ok r) = ok (add (new_batch 1) (r ∷ []))

  responses_of : TypeHint → Bytes → Outcome (List Response)
  unfolding one_response
  responses_of TypeHint.object m = one_response (c.unmarshal_response m)
  responses_of _ m = c.unmarshal_responses m

  read_responses : S × Outcome Bytes → S × Outcome (List Response)
  unfolding responses_of hint_type
  read_responses (s, fail e) = (s, fail e)
  read_responses (s, ok m) = (s, responses_of (hint_type m) m)

  -- CallBatch
  unfoldable pub call_batch : Option GoError → S → List Request → S × Outcome (List Response)
  unfolding call read_responses
  call_batch ctx_err s r = read_responses (call ctx_err s (requests r) false)

  error_only : S × Outcome Bytes → S × Option GoError
  error_only (s, fail e) = (s, some e)
  error_only (s, ok m) = (s, none)

  -- Notify
  unfoldable pub notify : Option GoError → S → Notification → S × Option GoError
  unfolding call error_only
  notify ctx_err s n = error_only (call ctx_err s (request n) true)

  -- NotifyBatch
  unfoldable pub notify_batch : Option GoError → S → List Notification → S × Option GoError
  unfolding call error_only
  notify_batch ctx_err s n = error_only (call ctx_err s (requests n) true)

  -- NotifyRaw
  unfoldable pub notify_raw : Option GoError → S → Bytes → S × Option GoError
  unfolding call error_only
  notify_raw ctx_err s n = error_only (call ctx_err s (raw_message n) true)
