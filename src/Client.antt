-- ===== src/Client.antt =====
-- client.go and batchbuilder.go: the client that numbers its requests, and the builder of batches. The
-- pool below it is an interface (poolClientInterface): each method takes its state and gives the new one.
pub mod Ids
pub mod Arguments
mod Examples
use jsonrpc.Base.{
  is_positive, ℕ, ◌+◌, ◌%◌, ◌^◌, ℤ, pos, negsuc, Bool, true, false, Option, none, some, List, [],
  ◌∷◌, Bytes, codes, if◌then◌else◌, ltb, ◌++◌,
}
use jsonrpc.Value.{Any, nil, raw, text, other}
use jsonrpc.Failure.{
  GoError, Outcome, ok, fail, sentinel, invalid_params_type, wrap_before, wrap_after,
}
use jsonrpc.Hint.{TypeHint, hint_type}
use jsonrpc.Json.{Json, int64}
use jsonrpc.Message.Params.{Params, no_params, new_params_raw}
use jsonrpc.Message.Request.{
  Request, Notification, new_request_with_params, new_notification_with_params,
}
use jsonrpc.Message.Response.{Response}
use jsonrpc.Batch
use jsonrpc.Batch.{new_batch}

-- The `params any` of a call: a `Params`, or any other value.
pub data Argument : Type 0 where
  given : Params → Argument
  any_value : Any → Argument

-- `type_name` is the text of a value's type, which `%T` writes.
params_of_raw : (Any → Bytes) → Any → Bytes → TypeHint → Outcome Params
unfolding wrap_before new_params_raw
params_of_raw type_name v m TypeHint.object = ok (new_params_raw m)
params_of_raw type_name v m TypeHint.array = ok (new_params_raw m)
params_of_raw type_name v m _ =
    fail (wrap_before (sentinel invalid_params_type) (codes ": got " ++ type_name v))

params_of_marshaled : (Any → Bytes) → Any → Outcome Bytes → Outcome Params
unfolding params_of_raw wrap_after hint_type
params_of_marshaled type_name v (fail e) =
    fail (wrap_after (codes "jsonrpc2: failed to marshal params: ") e)
params_of_marshaled type_name v (ok m) = params_of_raw type_name v m (hint_type m)

-- makeParamsFromAny
unfoldable pub make_params_from_any : Json → (Any → Bytes) → Argument → Outcome Params
unfolding params_of_marshaled
make_params_from_any j type_name (given p) = ok p
make_params_from_any j type_name (any_value nil) = ok no_params
make_params_from_any j type_name (any_value (raw m)) =
    params_of_marshaled type_name (raw m) (j.marshal (raw m))
make_params_from_any j type_name (any_value (text s)) =
    params_of_marshaled type_name (text s) (j.marshal (text s))
make_params_from_any j type_name (any_value (other n)) =
    params_of_marshaled type_name (other n) (j.marshal (other n))

-- poolClientInterface
pub record PoolClient {ℓ} (S : Type ℓ) : Type ℓ where
  pub call : S → Request → S × Outcome Response
  pub call_with_timeout : S → ℤ → Request → S × Outcome Response
  pub notify : S → Notification → S × Option GoError
  pub notify_with_timeout : S → ℤ → Notification → S × Option GoError
  pub call_batch : S → List Request → S × Outcome (List Response)
  pub call_batch_with_timeout : S → ℤ → List Request → S × Outcome (List Response)
  pub notify_batch : S → List Notification → S × Option GoError
  pub notify_batch_with_timeout : S → ℤ → List Notification → S × Option GoError
  pub close : S → S

-- Client: the counter of IDs is a uint32, and the timeout is in nanoseconds.
pub record Client {ℓ} (S : Type ℓ) : Type ℓ where
  pub pool : S
  pub id : ℕ
  pub default_timeout : ℤ

add_notification_params :
    List Notification → Bytes → Outcome Params → List Notification × Option GoError
unfolding new_notification_with_params Batch.add
add_notification_params b method (fail e) = (b, some e)
add_notification_params b method (ok p) =
    (Batch.add b (new_notification_with_params method p ∷ []), none)

-- Add of a builder of notifications.
unfoldable pub add_notification :
    Json → (Any → Bytes) → List Notification → Bytes → Argument → List Notification × Option GoError
unfolding add_notification_params make_params_from_any
add_notification j type_name b method params =
    add_notification_params b method (make_params_from_any j type_name params)

module _ {ℓ} {S : Type ℓ} where
  -- nextID: the value that the counter has afterwards is the ID.
  unfoldable pub next_id : Client S → Client S × ℕ
  next_id c = let n = (c.id + 1) % 2 ^ 32 in (record c { id = n }, n)

  -- SetDefaultTimeout
  unfoldable pub set_default_timeout : Client S → ℤ → Client S
  set_default_timeout c d = record c { default_timeout = d }

  abbrev pub with_pool {κ} : {R : Type κ} → Client S → S × R → Client S × R
  with_pool c (s, r) = (record c { pool = s }, r)

  module _ (pool : PoolClient S) where
    -- Close
    unfoldable pub close : Client S → Client S
    close c = record c { pool = pool.close c.pool }

    call_request : Client S × ℕ → Bytes → Params → Client S × Outcome Response
    unfolding new_request_with_params
    call_request (c, n) method p =
        let req = new_request_with_params (int64 (pos n)) method p in
        if is_positive c.default_timeout
        then with_pool c (pool.call_with_timeout c.pool c.default_timeout req)
        else with_pool c (pool.call c.pool req)

    call_params : Client S → Bytes → Outcome Params → Client S × Outcome Response
    unfolding call_request next_id
    call_params c method (fail e) = (c, fail e)
    call_params c method (ok p) = call_request (next_id c) method p

    -- Call
    unfoldable pub call :
        Json → (Any → Bytes) → Client S → Bytes → Argument → Client S × Outcome Response
    unfolding call_params make_params_from_any
    call j type_name c method params =
        call_params c method (make_params_from_any j type_name params)

    notify_params : Client S → Bytes → Outcome Params → Client S × Option GoError
    unfolding new_notification_with_params
    notify_params c method (fail e) = (c, some e)
    notify_params c method (ok p) =
        let notif = new_notification_with_params method p in
        if is_positive c.default_timeout
        then with_pool c (pool.notify_with_timeout c.pool c.default_timeout notif)
        else with_pool c (pool.notify c.pool notif)

    -- Notify
    unfoldable pub notify :
        Json → (Any → Bytes) → Client S → Bytes → Argument → Client S × Option GoError
    unfolding notify_params make_params_from_any
    notify j type_name c method params =
        notify_params c method (make_params_from_any j type_name params)

    -- callBatch
    unfoldable pub call_batch : Client S → List Request → Client S × Outcome (List Response)
    call_batch c batch =
        if is_positive c.default_timeout
        then with_pool c (pool.call_batch_with_timeout c.pool c.default_timeout batch)
        else with_pool c (pool.call_batch c.pool batch)

    -- notifyBatch
    unfoldable pub notify_batch : Client S → List Notification → Client S × Option GoError
    notify_batch c batch =
        if is_positive c.default_timeout
        then with_pool c (pool.notify_batch_with_timeout c.pool c.default_timeout batch)
        else with_pool c (pool.notify_batch c.pool batch)

  -- NewRequestBatch and NewNotificationBatch. A builder is its batch; its parent, which other builders
  -- share, is passed to each method.
  unfoldable pub new_request_batch : Client S → ℕ → List Request
  new_request_batch c size = new_batch size

  unfoldable pub new_notification_batch : Client S → ℕ → List Notification
  new_notification_batch c size = new_batch size

  add_numbered :
      Client S × ℕ → List Request → Bytes → Params → Client S × List Request × Option GoError
  unfolding new_request_with_params Batch.add
  add_numbered (c, n) b method p =
      (c, Batch.add b (new_request_with_params (int64 (pos n)) method p ∷ []), none)

  add_params :
      Client S → List Request → Bytes → Outcome Params → Client S × List Request × Option GoError
  unfolding add_numbered next_id
  add_params c b method (fail e) = (c, b, some e)
  add_params c b method (ok p) = add_numbered (next_id c) b method p

  -- Add of a builder of requests.
  unfoldable pub add_request :
      Json
      → (Any → Bytes)
      → Client S
      → List Request
      → Bytes
      → Argument
      → Client S × List Request × Option GoError
  unfolding add_params make_params_from_any
  add_request j type_name c b method params =
      add_params c b method (make_params_from_any j type_name params)

  nothing_returned : Client S × Option GoError → Client S × List Response × Option GoError
  nothing_returned (c, e) = (c, [], e)

  -- Call of a builder of requests, and of one of notifications, which gives a nil batch.
  unfoldable pub call_requests :
      PoolClient S → Client S → List Request → Client S × Outcome (List Response)
  unfolding call_batch
  call_requests pool c b = call_batch pool c b

  unfoldable pub call_notifications :
      PoolClient S → Client S → List Notification → Client S × List Response × Option GoError
  unfolding notify_batch nothing_returned
  call_notifications pool c b = nothing_returned (notify_batch pool c b)
