-- ===== src/Failure.antt =====
-- Go errors as trees: the sentinel values of the package and of the standard library that the code
-- compares with, wrapping, the functions of package errors that the code calls, and `asError`, `Is` and
-- `Error` of error.go.
pub mod Laws
use jsonrpc.Base.{
  ℤ, int_eq, Bool, true, false, ◌&&◌, ◌||◌, Option, none, some, List, [], ◌∷◌, ◌++◌, Bytes, codes,
  not,
}
use mathlib.Core.Bool.{decide}
use mathlib.Core.Option.{get_or, or_else}
use jsonrpc.Value.{Error, text, with_data, internal_error}

-- Errors that are compared by identity: those of the package, then those of the standard library.
pub data Sentinel : Type 0 where
  id_not_a_number invalid_parameters not_raw_message empty_data wrong_protocol_version : Sentinel
  response_is_error response_not_error method_already_exists unknown_scheme : Sentinel
  invalid_params_type json_too_large retries_exceeded decoding encoding unreachable : Sentinel
  http_empty_response http_response http_not_json : Sentinel
  eof unexpected_eof net_closed os_closed canceled deadline_exceeded : Sentinel

pub Sentinel-discrete : Discrete Sentinel
Sentinel-discrete = hlevel

-- An error value. `wrap` is what fmt.Errorf with `%w` and errors.Join build: a text and the wrapped
-- errors. `opaque` is an error of other code. `rpc_pointer` is a `*Error`.
mutual
  pub data GoError : Type 0 where
    sentinel : Sentinel → GoError
    rpc : Error → GoError
    rpc_pointer : Error → GoError
    syntax_error : Bytes → GoError
    type_error : Bytes → GoError
    max_bytes : GoError
    opaque : Bytes → GoError
    wrap : Bytes → GoErrors → GoError

  pub data GoErrors : Type 0 where
    none_left : GoErrors
    and : GoError → GoErrors → GoErrors

-- What a function that returns `(value, error)` returns.
pub data Outcome {ℓ} (A : Type ℓ) : Type ℓ where
  ok : A → Outcome A
  fail : GoError → Outcome A

-- Does a test hold at the error or at one that it wraps? errors.Is and errors.As walk so.
unfoldable mutual
  pub error_any : (GoError → Bool) → GoError → Bool
  error_any p (wrap t es) = p (wrap t es) || error_any_list p es
  error_any p (sentinel s) = p (sentinel s)
  error_any p (rpc e) = p (rpc e)
  error_any p (rpc_pointer e) = p (rpc_pointer e)
  error_any p (syntax_error t) = p (syntax_error t)
  error_any p (type_error t) = p (type_error t)
  error_any p max_bytes = p max_bytes
  error_any p (opaque t) = p (opaque t)

  pub error_any_list : (GoError → Bool) → GoErrors → Bool
  error_any_list p none_left = false
  error_any_list p (and e es) = error_any p e || error_any_list p es

is_sentinel : Sentinel → GoError → Bool
unfolding Sentinel-discrete decide
is_sentinel s (sentinel r) = decide (Sentinel-discrete s r)
is_sentinel s _ = false

-- errors.Is(e, s) for a sentinel `s`. The `Is` method of an `Error` answers false for those.
unfoldable pub errors_is : Sentinel → GoError → Bool
unfolding is_sentinel error_any
errors_is s e = error_any (is_sentinel s) e

abbrev pub is_syntax_error : GoError → Bool
is_syntax_error (syntax_error _) = true
is_syntax_error _ = false

abbrev pub is_type_error : GoError → Bool
is_type_error (type_error _) = true
is_type_error _ = false

abbrev pub is_max_bytes : GoError → Bool
is_max_bytes max_bytes = true
is_max_bytes _ = false

-- errors.As(e, &je) for the type `Error`: the first one met on the walk. A `*Error` is another type.
unfoldable mutual
  pub errors_as : GoError → Option Error
  errors_as (rpc e) = some e
  errors_as (wrap t es) = errors_as_list es
  errors_as (sentinel s) = none
  errors_as (rpc_pointer e) = none
  errors_as (syntax_error t) = none
  errors_as (type_error t) = none
  errors_as max_bytes = none
  errors_as (opaque t) = none

  pub errors_as_list : GoErrors → Option Error
  errors_as_list none_left = none
  errors_as_list (and e es) = or_else (errors_as e) (errors_as_list es)

-- The text of a sentinel.
abbrev pub sentinel_text : Sentinel → Bytes
sentinel_text id_not_a_number = codes "ID is not a number"
sentinel_text invalid_parameters = codes "invalid parameters"
sentinel_text not_raw_message = codes "value is it not a raw message"
sentinel_text empty_data = codes "data is empty"
sentinel_text wrong_protocol_version = codes "wrong protocol version for jsonrpc2"
sentinel_text response_is_error = codes "response is an error"
sentinel_text response_not_error = codes "response is a response"
sentinel_text method_already_exists = codes "method already exists in mux"
sentinel_text unknown_scheme = codes "jsonrpc2: unknown scheme in uri"
sentinel_text invalid_params_type = codes "jsonrpc2: params must marshal to a JSON object or array"
sentinel_text json_too_large = codes "jsonrpc2: JSON payload larger than configured read limit"
sentinel_text retries_exceeded = codes "retries exceeded"
sentinel_text decoding = codes "jsonrpc2: decoding error"
sentinel_text encoding = codes "jsonrpc2: encoding error"
sentinel_text unreachable = codes "jsonrpc2: bad type for BatchBuilder, should be unreachable"
sentinel_text http_empty_response = codes "jsonrpc2/httpbridge: empty JSON response body"
sentinel_text http_response = codes "jsonrpc2/httpbridge: HTTP response error"
sentinel_text http_not_json =
    codes "jsonrpc2/httpbridge: response Content-Type was not application/json"
sentinel_text eof = codes "EOF"
sentinel_text unexpected_eof = codes "unexpected EOF"
sentinel_text net_closed = codes "use of closed network connection"
sentinel_text os_closed = codes "file already closed"
sentinel_text canceled = codes "context canceled"
sentinel_text deadline_exceeded = codes "context deadline exceeded"

-- The `Error` method of an error value.
unfoldable pub error_text : GoError → Bytes
error_text (sentinel s) = sentinel_text s
error_text (rpc e) = e.message
error_text (rpc_pointer e) = e.message
error_text (syntax_error t) = t
error_text (type_error t) = t
error_text max_bytes = codes "http: request body too large"
error_text (opaque t) = t
error_text (wrap t es) = t

-- asError
unfoldable pub as_error : GoError → Error
unfolding errors_as error_text with_data internal_error
as_error e = get_or (errors_as e) (with_data internal_error (text (error_text e)))

-- Is: the method of `Error` that errors.Is consults. Only the target itself is looked at.
unfoldable pub error_is : Error → GoError → Bool
error_is e (rpc t) = e.present && t.present && int_eq e.code t.code
error_is e (rpc_pointer t) = e.present && t.present && int_eq e.code t.code
error_is e _ = false

-- IsZero of an `Error`.
unfoldable pub error_is_zero : Error → Bool
error_is_zero e = not e.present

-- errors.Join: nil errors are dropped, and the join of none is nil. The text has a line for each.
abbrev pub joined : List (Option GoError) → GoErrors
joined [] = none_left
joined (none ∷ es) = joined es
joined (some e ∷ es) = and e (joined es)

abbrev pub lines : GoErrors → Bytes
unfolding error_text
lines none_left = []
lines (and e none_left) = error_text e
lines (and e (and f es)) = error_text e ++ 10 ∷ lines (and f es)

abbrev pub join_of : GoErrors → Option GoError
unfolding lines
join_of none_left = none
join_of (and e es) = some (wrap (lines (and e es)) (and e es))

unfoldable pub errors_join : List (Option GoError) → Option GoError
unfolding join_of
errors_join es = join_of (joined es)

-- fmt.Errorf("%w: %w", a, b)
unfoldable pub wrap_colon : GoError → GoError → GoError
unfolding error_text
wrap_colon a b = wrap (error_text a ++ codes ": " ++ error_text b) (and a (and b none_left))

-- fmt.Errorf("%w (%w)", a, b)
unfoldable pub wrap_paren : GoError → GoError → GoError
unfolding error_text
wrap_paren a b =
    wrap (error_text a ++ codes " (" ++ error_text b ++ codes ")") (and a (and b none_left))

-- fmt.Errorf with one `%w` at the front of a fixed text, and at its end.
unfoldable pub wrap_before : GoError → Bytes → GoError
unfolding error_text
wrap_before e t = wrap (error_text e ++ t) (and e none_left)

unfoldable pub wrap_after : Bytes → GoError → GoError
unfolding error_text
wrap_after t e = wrap (t ++ error_text e) (and e none_left)
