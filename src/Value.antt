-- ===== src/Value.antt =====
-- The data that every message carries: Go's `any`, the container of data.go (which errordata.go and
-- result.go alias), the error object of error.go, and their constructors.
use jsonrpc.Base.{ℕ, ℤ, [], pos, negsuc, Bool, true, false, Bytes, codes}

-- A value of type `any`, by the dynamic types that the package tells apart. `other` stands for a value
-- of any other type, and its number for the value's identity.
pub data Any : Type 0 where
  nil : Any
  raw : Bytes → Any  -- json.RawMessage
  text : Bytes → Any  -- string
  other : ℕ → Any

pub record Data : Type 0 where
  pub value : Any
  pub present : Bool

-- The zero value of a `Data`.
abbrev pub no_data : Data
no_data = record { value = nil; present = false }

-- NewErrorData
unfoldable pub new_error_data : Any → Data
new_error_data v = record { present = true; value = v }

-- NewResult
unfoldable pub new_result : Any → Data
new_result v = record { present = true; value = v }

pub record Error : Type 0 where
  pub present : Bool
  pub code : ℤ
  pub message : Bytes
  pub data_field : Data

abbrev pub no_error : Error
no_error = record { present = false; code = pos 0; message = []; data_field = no_data }

-- NewError
unfoldable pub new_error : ℤ → Bytes → Error
new_error code msg = record { present = true; code = code; message = msg; data_field = no_data }

-- NewErrorWithData
unfoldable pub new_error_with_data : ℤ → Bytes → Any → Error
unfolding new_error_data
new_error_with_data code msg v = record {
  present = true;
  code = code;
  message = msg;
  data_field = new_error_data v;
}

-- WithData
unfoldable pub with_data : Error → Any → Error
unfolding new_error_with_data
with_data e v = new_error_with_data e.code e.message v

-- The predefined errors. A negative code -n is `negsuc (n - 1)`.
unfoldable pub parse_error : Error
unfolding new_error
parse_error = new_error (negsuc 32699) (codes "Parse error")

unfoldable pub invalid_request : Error
unfolding new_error
invalid_request = new_error (negsuc 32599) (codes "Invalid Request")

unfoldable pub method_not_found : Error
unfolding new_error
method_not_found = new_error (negsuc 32600) (codes "Method not found")

unfoldable pub invalid_params : Error
unfolding new_error
invalid_params = new_error (negsuc 32601) (codes "Invalid params")

unfoldable pub internal_error : Error
unfolding new_error
internal_error = new_error (negsuc 32602) (codes "Internal error")

unfoldable pub server_overloaded : Error
unfolding new_error
server_overloaded = new_error (negsuc 31999) (codes "Server overloaded")
