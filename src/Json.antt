-- ===== src/Json.antt =====
-- jsonrpc2.go: `Marshal` and `Unmarshal`, package variables that an application may replace. The model
-- takes them as an argument, one field for each type that the code calls them at.
use jsonrpc.Base.{ℤ, Bytes, [], ◌≡◌, ◌≢◌}
use jsonrpc.Value.{Any}
use jsonrpc.Failure.{Outcome, ok}
use jsonrpc.ParseInt.{parse_int}
use jsonrpc.Hint.{TypeHint, hint_type}

-- The dynamic values of an ID (id.go): nil, int64, json.Number and string.
pub data IdValue : Type 0 where
  nil : IdValue
  int64 : ℤ → IdValue
  number : Bytes → IdValue
  str : Bytes → IdValue

pub record Json : Type 0 where
  pub marshal : Any → Outcome Bytes
  pub marshal_id : IdValue → Outcome Bytes
  pub unmarshal_string : Bytes → Outcome Bytes
  pub unmarshal_number : Bytes → Outcome Bytes
  pub unmarshal_raw : Bytes → Outcome Bytes

-- Documented behaviour of encoding/json on strings and numbers: what is encoded is decoded to the
-- same text, and begins as its type does; an int64 is written in decimal. An empty json.Number is
-- encoded as 0.
pub record IsLossless (j : Json) : Type 0 where
  pub int64_back : (i : ℤ) (d : Bytes) → j.marshal_id (int64 i) ≡ ok d → j.unmarshal_number d ≡ ok d
  pub int64_value : (i : ℤ) (d : Bytes) → j.marshal_id (int64 i) ≡ ok d → parse_int d ≡ ok i
  pub int64_hint :
      (i : ℤ) (d : Bytes) → j.marshal_id (int64 i) ≡ ok d → hint_type d ≡ TypeHint.number
  pub string_back : (s d : Bytes) → j.marshal_id (str s) ≡ ok d → j.unmarshal_string d ≡ ok s
  pub string_hint : (s d : Bytes) → j.marshal_id (str s) ≡ ok d → hint_type d ≡ TypeHint.string
  pub number_back :
      (n d : Bytes) → n ≢ [] → j.marshal_id (number n) ≡ ok d → j.unmarshal_number d ≡ ok n
  pub number_hint : (n d : Bytes) → j.marshal_id (number n) ≡ ok d → hint_type d ≡ TypeHint.number
