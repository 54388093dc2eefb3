-- ===== src/Message/Response/Laws.antt =====
-- What a response carries.
use jsonrpc.Base.{true, false, ◌≡◌, ◌⊎◌, inl, inr, Option-cases, some, none, Bytes, arith}
use jsonrpc.Value.{Error, text, with_data, internal_error}
use jsonrpc.Failure.{
  GoError, Outcome, fail, sentinel, response_is_error, response_not_error, errors_as, as_error,
  error_text,
}
use jsonrpc.Message.Response.{Response, is_error, unmarshal, unmarshal_error}
use jsonrpc.Message.Data.{unmarshal_data}

pub as_error-cases :
    (e : GoError)
    → ((x : Error) × (errors_as e ≡ some x) × (as_error e ≡ x))
      ⊎ ((errors_as e ≡ none) × (as_error e ≡ with_data internal_error (text (error_text e))))
unfolding as_error
as_error-cases e = elim (Option-cases (errors_as e)) [
  | inl h ↦ inr (h, rw h)
  | inr (x, h) ↦ inl (x, h, rw h)
]

-- Of the two ways to read a response exactly one is open: an error response refuses `Unmarshal` and
-- reads its error's data, and any other refuses `UnmarshalError` and reads its result, whatever the
-- decoder does.
pub unmarshal-or_error {ℓ} :
    {V : Type ℓ} (into : Bytes → Outcome V) (r : Response)
    → ((is_error r ≡ true)
        × (unmarshal into r ≡ fail (sentinel response_is_error))
        × (unmarshal_error into r ≡ unmarshal_data into r.error.data_field))
      ⊎ ((is_error r ≡ false)
          × (unmarshal_error into r ≡ fail (sentinel response_not_error))
          × (unmarshal into r ≡ unmarshal_data into r.result))
unfolding is_error unmarshal unmarshal_error
unmarshal-or_error into r = ground arith
