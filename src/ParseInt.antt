-- ===== src/ParseInt.antt =====
-- strconv.ParseInt, by which a json.Number is read as an int64.
use jsonrpc.Base.{
  ℕ, ◌+◌, ◌*◌, ◌-◌, ◌^◌, ℤ, pos, negsuc, Option, none, some, [], ◌∷◌, Bytes, codes, ltb, leb, ◌==◌,
  ◌&&◌, if◌then◌else◌,
}
use jsonrpc.Failure.{GoError, Outcome, ok, fail, opaque}

-- strconv.ParseInt in base 10 for 64 bits, which json.Number.Int64 calls.
unfoldable pub parse_digits : Bytes → ℕ → Option ℕ
parse_digits [] n = some n
parse_digits (c ∷ s) n =
    if leb b'0' c && leb c b'9' then parse_digits s (n * 10 + (c - b'0')) else none

abbrev pub out_of_syntax : GoError
out_of_syntax = opaque (codes "invalid syntax")

abbrev pub out_of_range : GoError
out_of_range = opaque (codes "value out of range")

abbrev pub non_negative : Option ℕ → Outcome ℤ
non_negative none = fail out_of_syntax
non_negative (some n) = if ltb n (2 ^ 63) then ok (pos n) else fail out_of_range

abbrev pub negative : Option ℕ → Outcome ℤ
negative none = fail out_of_syntax
negative (some n) =
    if n == 0 then ok (pos 0) else if leb n (2 ^ 63) then ok (negsuc (n - 1)) else fail out_of_range

abbrev pub digits : Bytes → Option ℕ
unfolding parse_digits
digits [] = none
digits (c ∷ s) = parse_digits (c ∷ s) 0

unfoldable pub parse_int : Bytes → Outcome ℤ
unfolding digits
parse_int [] = fail out_of_syntax
parse_int (c ∷ s) =
    if c == b'-'
    then negative (digits s)
    else if c == b'+'
    then non_negative (digits s)
    else non_negative (digits (c ∷ s))
