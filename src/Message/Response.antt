-- ===== src/Message/Response.antt =====
-- response.go
pub mod Laws
use jsonrpc.Base.{Bool, true, false, not, Bytes}
use jsonrpc.Value.{Any, Data, Error, no_data, no_error, new_result}
use jsonrpc.Failure.{
  GoError, Outcome, fail, sentinel, response_is_error, response_not_error, as_error, error_is_zero,
}
use jsonrpc.Json.{IdValue}
use jsonrpc.Message.Id.{MessageId, new_id, new_null_id, zero_id}
use jsonrpc.Message.Data.{unmarshal_data}
use jsonrpc.Message.Version.{Version}

pub record Response : Type 0 where
  pub jsonrpc_version : Version
  pub result : Data
  pub error : Error
  pub id : MessageId

-- The zero value of a `Response`.
abbrev pub zero_response : Response
zero_response = record {
  jsonrpc_version = record { present = false };
  result = no_data;
  error = no_error;
  id = zero_id;
}

-- NewResponseWithResult
unfoldable pub new_response_with_result : IdValue → Any → Response
unfolding new_id new_result
new_response_with_result id r = record zero_response { id = new_id id; result = new_result r }

-- NewResponseWithError
unfoldable pub new_response_with_error : IdValue → GoError → Response
unfolding new_id
new_response_with_error id e = record zero_response { id = new_id id; error = as_error e }

-- NewResponseError
unfoldable pub new_response_error : GoError → Response
unfolding new_null_id
new_response_error e = record zero_response { id = new_null_id; error = as_error e }

unmarshal_if {ℓ} : {V : Type ℓ} → Bool → (Bytes → Outcome V) → Data → Outcome V
unmarshal_if true into d = unmarshal_data into d
unmarshal_if false into d = fail (sentinel response_is_error)

-- Unmarshal
unfoldable pub unmarshal {ℓ} : {V : Type ℓ} → (Bytes → Outcome V) → Response → Outcome V
unfolding unmarshal_if error_is_zero
unmarshal into r = unmarshal_if (error_is_zero r.error) into r.result

unmarshal_error_if {ℓ} : {V : Type ℓ} → Bool → (Bytes → Outcome V) → Data → Outcome V
unmarshal_error_if true into d = fail (sentinel response_not_error)
unmarshal_error_if false into d = unmarshal_data into d

-- UnmarshalError
unfoldable pub unmarshal_error {ℓ} : {V : Type ℓ} → (Bytes → Outcome V) → Response → Outcome V
unfolding unmarshal_error_if error_is_zero
unmarshal_error into r = unmarshal_error_if (error_is_zero r.error) into r.error.data_field

-- IsError
unfoldable pub is_error : Response → Bool
unfolding error_is_zero
is_error r = not (error_is_zero r.error)

-- id, by which a batch finds its elements.
unfoldable pub response_id : Response → MessageId
response_id r = r.id
