-- ===== src/Message/Params.antt =====
-- params.go
pub mod Laws
use jsonrpc.Base.{ℕ, Bool, true, false, Option, none, some, [], ◌∷◌, Bytes}
use jsonrpc.Value.{Any, nil, raw, text, other}
use jsonrpc.Failure.{
  GoError, Outcome, ok, fail, sentinel, decoding, invalid_parameters, not_raw_message, wrap_paren,
}
use jsonrpc.Hint.{TypeHint, hint_type}
use jsonrpc.Json.{Json}
use jsonrpc.Message.Data.{raw_of, hint_of}

pub record Params : Type 0 where
  pub value : Any

-- The zero value of a `Params`.
abbrev pub no_params : Params
no_params = record { value = nil }

-- NewParamsArray and NewParamsObject: the slice or map is kept as it is.
unfoldable pub new_params_array : Any → Params
new_params_array v = record { value = v }

unfoldable pub new_params_object : Any → Params
new_params_object v = record { value = v }

-- NewParamsRaw
unfoldable pub new_params_raw : Bytes → Params
unfolding new_params_array
new_params_raw m = new_params_array (raw m)

-- RawMessage
unfoldable pub raw_message : Params → Option Bytes
raw_message p = raw_of p.value

-- TypeHint
unfoldable pub type_hint : Params → TypeHint
unfolding hint_of
type_hint p = hint_of p.value

unmarshal_value {ℓ} : {V : Type ℓ} → (Bytes → Outcome V) → Any → Outcome V
unmarshal_value into (raw m) = into m
unmarshal_value into _ = fail (sentinel not_raw_message)

-- Unmarshal, with the decoder for the type that the caller wants.
unfoldable pub unmarshal {ℓ} : {V : Type ℓ} → (Bytes → Outcome V) → Params → Outcome V
unfolding unmarshal_value
unmarshal into p = unmarshal_value into p.value

abbrev pub is_empty_message : Any → Bool
is_empty_message nil = true
is_empty_message (raw []) = true
is_empty_message (raw (_ ∷ _)) = false
is_empty_message (text _) = false
is_empty_message (other _) = false

-- IsZero
unfoldable pub params_is_zero : Params → Bool
params_is_zero p = is_empty_message p.value

abbrev pub invalid_param_decode : GoError
unfolding wrap_paren
invalid_param_decode = wrap_paren (sentinel decoding) (sentinel invalid_parameters)

decoded_raw : Outcome Bytes → Outcome Params
decoded_raw (ok m) = ok (record { value = raw m })
decoded_raw (fail e) = fail (wrap_paren (sentinel decoding) e)

unmarshal_as : Json → TypeHint → Bytes → Outcome Params
unfolding decoded_raw
unmarshal_as j TypeHint.object d = decoded_raw (j.unmarshal_raw d)
unmarshal_as j TypeHint.array d = decoded_raw (j.unmarshal_raw d)
unmarshal_as j _ d = fail invalid_param_decode

-- UnmarshalJSON
unfoldable pub unmarshal_json : Json → Bytes → Outcome Params
unfolding unmarshal_as
unmarshal_json j d = unmarshal_as j (hint_type d) d

-- MarshalJSON
unfoldable pub marshal_json : Json → Params → Outcome Bytes
marshal_json j p = j.marshal p.value
