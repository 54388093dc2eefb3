-- ===== src/Client/Arguments.antt =====
-- What the parameters of a request of a client are.
use jsonrpc.Base.{true, Bytes, ◌≡◌, ◌⊎◌, inl, inr, refl, arith}
use jsonrpc.Value.{Any, nil, raw, text, other}
use jsonrpc.Failure.{
  GoError, Outcome, ok, fail, errors_is, error_any, invalid_params_type, wrap_before, wrap_after,
}
use jsonrpc.Hint.{TypeHint, hint_type}
use jsonrpc.Json.{Json}
use jsonrpc.Message.Params.{Params, no_params, new_params_raw}
use jsonrpc.Message.Params.Laws.{IsStructured}
use jsonrpc.Client.{given, any_value, params_of_raw, params_of_marshaled, make_params_from_any}

-- What a value is made to: the parameters that are a structured message that the JSON library wrote for
-- it, or an error that passes the library's error on or is ErrInvalidParamsType.
abbrev pub Made : Any → Outcome Bytes → Outcome Params → Type 0
Made v (ok m) p =
    (IsStructured (hint_type m) × (p ≡ ok (record { value = raw m })))
    ⊎ ((e : GoError) × (p ≡ fail e) × (errors_is invalid_params_type e ≡ true))
Made v (fail d) p =
    (e : GoError) × (p ≡ fail e)
    × (errors_is invalid_params_type e ≡ errors_is invalid_params_type d)

raw-Made :
    (type_name : Any → Bytes) (v : Any) (m : Bytes) (t : TypeHint)
    → (IsStructured t × (params_of_raw type_name v m t ≡ ok (record { value = raw m })))
      ⊎ ((e : GoError) × (params_of_raw type_name v m t ≡ fail e)
          × (errors_is invalid_params_type e ≡ true))
unfolding params_of_raw new_params_raw wrap_before errors_is
raw-Made type_name v m TypeHint.object = inl (inl refl, refl)
raw-Made type_name v m TypeHint.array = inl (inr refl, refl)
raw-Made type_name v m _ = inr (_, refl, refl)

marshaled-Made :
    (type_name : Any → Bytes) (v : Any) (o : Outcome Bytes)
    → Made v o (params_of_marshaled type_name v o)
unfolding params_of_marshaled wrap_after errors_is error_any
marshaled-Made type_name v (ok m) = raw-Made type_name v m (hint_type m)
marshaled-Made type_name v (fail d) = (_, refl, ground arith)

-- The three cases of an argument: a Params is taken as it is, nil gives no parameters, and any other
-- value gives the message that the JSON library writes for it if that is an object or an array, and an
-- error otherwise.
pub make_params-cases :
    (j : Json) (type_name : Any → Bytes) (v : Any) (p : Params)
    → (make_params_from_any j type_name (given p) ≡ ok p)
      × (make_params_from_any j type_name (any_value nil) ≡ ok no_params)
      × ((v ≡ nil) ⊎ Made v (j.marshal v) (make_params_from_any j type_name (any_value v)))
unfolding make_params_from_any
make_params-cases j type_name nil p = (refl, refl, inl refl)
make_params-cases j type_name (raw m) p = (refl, refl, inr (marshaled-Made type_name (raw m) _))
make_params-cases j type_name (text s) p = (refl, refl, inr (marshaled-Made type_name (text s) _))
make_params-cases j type_name (other n) p = (refl, refl, inr (marshaled-Made type_name (other n) _))
