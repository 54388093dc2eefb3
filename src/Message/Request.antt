-- ===== src/Message/Request.antt =====
-- request.go and notification.go. `Notification` is defined as `Request` in Go, and the unsafe casts
-- between the two pointers are the identity here; a pointer that may be nil is an `Option`.
use jsonrpc.Base.{[], Bool, false, Option, none, some, Bytes, if◌then◌else◌}
use jsonrpc.Value.{Any, new_result}
use jsonrpc.Failure.{GoError, as_error}
use jsonrpc.Json.{IdValue}
use jsonrpc.Message.Id.{MessageId, new_id, zero_id, is_zero}
use jsonrpc.Message.Params.{Params, no_params}
use jsonrpc.Message.Version.{Version}
use jsonrpc.Message.Response.{Response, zero_response}

pub record Request : Type 0 where
  pub jsonrpc_version : Version
  pub method : Bytes
  pub params : Params
  pub id : MessageId

abbrev pub Notification : Type 0
Notification = Request

-- The zero value of a `Request`.
abbrev pub zero_request : Request
zero_request = record {
  jsonrpc_version = record { present = false };
  method = [];
  params = no_params;
  id = zero_id;
}

-- NewRequest
unfoldable pub new_request : IdValue → Bytes → Request
unfolding new_id
new_request id method = record zero_request { method = method; id = new_id id }

-- NewRequestWithParams
unfoldable pub new_request_with_params : IdValue → Bytes → Params → Request
unfolding new_id
new_request_with_params id method p = record zero_request {
  method = method;
  params = p;
  id = new_id id;
}

-- NewNotification
unfoldable pub new_notification : Bytes → Notification
new_notification method = record zero_request { method = method }

-- NewNotificationWithParams
unfoldable pub new_notification_with_params : Bytes → Params → Notification
new_notification_with_params method p = record zero_request { method = method; params = p }

-- ResponseWithError
unfoldable pub response_with_error : Request → GoError → Response
response_with_error r e = record zero_response { id = r.id; error = as_error e }

-- ResponseWithResult
unfoldable pub response_with_result : Request → Any → Response
unfolding new_result
response_with_result r v = record zero_response { id = r.id; result = new_result v }

-- IsNotification
unfoldable pub is_notification : Request → Bool
unfolding is_zero
is_notification r = is_zero r.id

-- AsNotification
unfoldable pub as_notification : Option Request → Option Notification
unfolding is_notification
as_notification none = none
as_notification (some r) = if is_notification r then some r else none

-- AsRequest
unfoldable pub as_request : Option Notification → Option Request
as_request n = n

-- id, by which a batch finds its elements.
unfoldable pub request_id : Request → MessageId
request_id r = r.id
