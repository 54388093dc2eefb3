-- ===== src/Message/Id.antt =====
-- id.go. A method with a pointer receiver that assigns returns the new ID.
pub mod Equal
pub mod Coding
pub mod Wire
use jsonrpc.Base.{
  ℤ, pos, negsuc, int_eq, Bool, true, false, not, ◌&&◌, ◌||◌, Option, none, some, [], ◌∷◌, ◌≡◌,
  refl, Bytes, codes, bytes_eq, if◌then◌else◌,
}
use jsonrpc.Failure.{
  Outcome, ok, fail, sentinel, id_not_a_number, decoding, encoding, wrap_colon, wrap_before,
}
use jsonrpc.ParseInt.{parse_int, out_of_range}
use jsonrpc.Hint.{TypeHint, hint_type}
use jsonrpc.Json.{Json, IdValue, nil, int64, number, str}

pub record MessageId : Type 0 where
  pub value : IdValue
  pub present : Bool

-- NewID
unfoldable pub new_id : IdValue → MessageId
new_id v = record { present = true; value = v }

-- NewNullID
unfoldable pub new_null_id : MessageId
new_null_id = record { present = true; value = nil }

-- The zero value of an `ID`.
abbrev pub zero_id : MessageId
zero_id = record { present = false; value = nil }

-- IsZero
unfoldable pub is_zero : MessageId → Bool
is_zero id = not id.present

abbrev is_nil : IdValue → Bool
is_nil nil = true
is_nil _ = false

-- IsNull
unfoldable pub is_null : MessageId → Bool
is_null id = id.present && is_nil id.value

abbrev value_of : Bool → IdValue → IdValue
value_of false _ = nil
value_of true v = v

-- Value
unfoldable pub value : MessageId → IdValue
value id = value_of id.present id.value

abbrev string_of : IdValue → Option Bytes
string_of (str s) = some s
string_of _ = none

-- String: the text, or nothing for `("", false)`.
unfoldable pub string : MessageId → Option Bytes
string id = if id.present then string_of id.value else none

abbrev number_of : IdValue → Option Bytes
number_of (number n) = some n
number_of _ = none

-- Number
unfoldable pub number_value : MessageId → Option Bytes
number_value id = if id.present then number_of id.value else none

abbrev int64_of : IdValue → Outcome ℤ
unfolding parse_int
int64_of (int64 v) = ok v
int64_of (number n) = parse_int n
int64_of _ = fail (sentinel id_not_a_number)

-- Int64
unfoldable pub int64_value : MessageId → Outcome ℤ
unfolding int64_of
int64_value id = if id.present then int64_of id.value else fail (sentinel id_not_a_number)

-- The cases of Equal's switch on the receiver's value, against the target.
abbrev same_int : Outcome ℤ → Outcome ℤ → Bool
same_int (ok a) (ok b) = int_eq a b
same_int _ _ = false

abbrev equal_number : Bytes → Option Bytes → Outcome ℤ → Outcome ℤ → Bool
equal_number v (some jn) own target = bytes_eq v jn
equal_number v none own target = same_int own target

abbrev equal_string : Bytes → Option Bytes → Bool
equal_string v (some s) = bytes_eq v s
equal_string v none = false

equal_value : IdValue → MessageId → Bool
unfolding number_value int64_value parse_int string
equal_value nil t = false
equal_value (number v) t = equal_number v (number_value t) (parse_int v) (int64_value t)
equal_value (int64 v) t = same_int (ok v) (int64_value t)
equal_value (str v) t = equal_string v (string t)

-- Equal
unfoldable pub equal : MessageId → MessageId → Bool
unfolding is_zero is_null equal_value
equal id t =
    if is_zero id || is_zero t
    then false
    else if is_null id
    then is_null t
    else equal_value id.value t

-- UnmarshalJSON. The case of a JSON null sets `present` alone.
abbrev decoded : Outcome Bytes → (Bytes → IdValue) → Outcome MessageId
unfolding wrap_colon
decoded (ok s) make = ok (record { value = make s; present = true })
decoded (fail e) make = fail (wrap_colon (sentinel decoding) e)

unmarshal_as : Json → TypeHint → MessageId → Bytes → Outcome MessageId
unmarshal_as j TypeHint.null id d = ok (record id { present = true })
unmarshal_as j TypeHint.string id d = decoded (j.unmarshal_string d) str
unmarshal_as j TypeHint.number id d = decoded (j.unmarshal_number d) number
unmarshal_as j _ id d = fail (wrap_before (sentinel decoding) (codes ": invalid type for ID"))

unfoldable pub unmarshal_json : Json → MessageId → Bytes → Outcome MessageId
unfolding unmarshal_as decoded hint_type wrap_before
unmarshal_json j id d = unmarshal_as j (hint_type d) id d

-- MarshalJSON
abbrev encoded : Outcome Bytes → Outcome Bytes
unfolding wrap_colon
encoded (ok d) = ok d
encoded (fail e) = fail (wrap_colon (sentinel encoding) e)

unfoldable pub marshal_json : Json → MessageId → Outcome Bytes
unfolding encoded
marshal_json j id =
    if not id.present || is_nil id.value then ok (codes "null") else encoded (j.marshal_id id.value)

samples :
    (equal (new_id (int64 (pos 1))) (new_id (number (codes "+1"))) ≡ true)
    × (equal (new_id (int64 (pos 1))) (new_id (str (codes "1"))) ≡ false)
    × (parse_int (codes "-9223372036854775808") ≡ ok (negsuc 9223372036854775807))
    × (parse_int (codes "9223372036854775808") ≡ fail out_of_range)
unfolding equal new_id bytes_eq
samples = (refl, refl, refl, refl)
