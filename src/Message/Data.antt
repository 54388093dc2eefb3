-- ===== src/Message/Data.antt =====
-- data.go: the methods of `Data`, which `ErrorData` and `Result` name too.
use jsonrpc.Base.{Bool, true, false, not, Option, none, some, Bytes, codes}
use jsonrpc.Value.{Any, nil, raw, text, other, Data}
use jsonrpc.Failure.{Outcome, ok, fail, sentinel, not_raw_message, empty_data, wrap_after}
use jsonrpc.Hint.{TypeHint, hint_type}
use jsonrpc.Json.{Json}

abbrev pub raw_of : Any → Option Bytes
raw_of (raw m) = some m
raw_of _ = none

-- RawMessage of a Data: nothing stands for nil.
unfoldable pub raw_message : Data → Option Bytes
raw_message d = raw_of d.value

unfoldable pub hint_of : Any → TypeHint
unfolding hint_type
hint_of (raw m) = hint_type m
hint_of _ = TypeHint.not_json

-- TypeHint of a Data.
unfoldable pub data_type_hint : Data → TypeHint
unfolding hint_of
data_type_hint d = hint_of d.value

-- Unmarshal of a Data, with the decoder for the type that the caller wants.
unmarshal_value {ℓ} : {V : Type ℓ} → (Bytes → Outcome V) → Any → Outcome V
unmarshal_value into (raw m) = into m
unmarshal_value into nil = fail (sentinel empty_data)
unmarshal_value into (text _) = fail (sentinel not_raw_message)
unmarshal_value into (other _) = fail (sentinel not_raw_message)

unfoldable pub unmarshal_data {ℓ} : {V : Type ℓ} → (Bytes → Outcome V) → Data → Outcome V
unfolding unmarshal_value
unmarshal_data into d = unmarshal_value into d.value

-- IsZero of a Data.
unfoldable pub data_is_zero : Data → Bool
data_is_zero d = not d.present

decoded_raw : Outcome Bytes → Outcome Data
decoded_raw (ok m) = ok (record { value = raw m; present = true })
decoded_raw (fail e) = fail (wrap_after (codes "failed to unmarshal into raw message: ") e)

-- UnmarshalJSON of a Data.
unfoldable pub unmarshal_json_data : Json → Bytes → Outcome Data
unfolding decoded_raw
unmarshal_json_data j d = decoded_raw (j.unmarshal_raw d)

marshal_present : Json → Bool → Any → Outcome Bytes
marshal_present j false v = ok (codes "null")
marshal_present j true v = j.marshal v

-- MarshalJSON of a Data.
unfoldable pub marshal_json_data : Json → Data → Outcome Bytes
unfolding marshal_present
marshal_json_data j d = marshal_present j d.present d.value
