-- ===== src/Message/SmallJson.antt =====
-- A small JSON library, for texts without escapes and numbers of one digit.
use jsonrpc.Base.{
  ℕ, ◌+◌, ◌<◌, ℤ, pos, negsuc, ltb, leb, ◌&&◌, if◌then◌else◌, Bool, true, false, [], ◌∷◌, ◌++◌, ◌≡◌,
  refl, ap, sym, subst, Bytes, codes, arith,
}
use jsonrpc.Value.{Any, nil, raw, text, other}
use jsonrpc.Failure.{GoError, Outcome, ok, fail, opaque}
use jsonrpc.ParseInt.{parse_int}
use jsonrpc.Hint.{TypeHint, hint_type, first_byte_hint, is_space, is_space₂, is_space₃}
use jsonrpc.Json.{Json, IsLossless, IdValue, int64, number, str}

abbrev unsupported : GoError
unsupported = opaque (codes "unsupported")

abbrev is_digit : ℕ → Bool
is_digit c = leb b'0' c && leb c b'9'

abbrev quote : Bytes → Bytes
quote s = b'"' ∷ s ++ b'"' ∷ []

abbrev without_last : Bytes → Bytes
without_last [] = []
without_last (c ∷ []) = []
without_last (c ∷ d ∷ s) = c ∷ without_last (d ∷ s)

abbrev pub unquote : Bytes → Outcome Bytes
unquote [] = fail unsupported
unquote (c ∷ s) = ok (without_last s)

abbrev small_number : Bytes → Outcome Bytes
small_number [] = fail unsupported
small_number (c ∷ s) = if is_digit c then ok (c ∷ s) else fail unsupported

abbrev write_id : IdValue → Outcome Bytes
write_id IdValue.nil = ok (codes "null")
write_id (int64 (pos n)) = if ltb n 10 then ok ((b'0' + n) ∷ []) else fail unsupported
write_id (int64 (negsuc n)) = fail unsupported
write_id (number n) = small_number n
write_id (str s) = ok (quote s)

abbrev write : Any → Outcome Bytes
write nil = ok (codes "null")
write (raw m) = ok m
write (text s) = ok (quote s)
write (other n) = fail unsupported

abbrev pub small_json : Json
small_json = record {
  marshal = write;
  marshal_id = write_id;
  unmarshal_string = unquote;
  unmarshal_number = ok;
  unmarshal_raw = ok;
}

ok_inj : {a b : Bytes} → ok a ≡ ok b → a ≡ b
ok_inj h = cc

without_last-append : (s : Bytes) (c : ℕ) → without_last (s ++ c ∷ []) ≡ s
without_last-append [] c = refl
without_last-append (a ∷ []) c = refl
without_last-append (a ∷ b ∷ s) c = ap (◌∷◌ a) (without_last-append (b ∷ s) c)

quote_hint : (s : Bytes) → hint_type (quote s) ≡ TypeHint.string
unfolding hint_type
quote_hint [] = refl
quote_hint (a ∷ []) = refl
quote_hint (a ∷ b ∷ s) = refl

digit_hint : (c : ℕ) → is_digit c ≡ true → first_byte_hint c ≡ TypeHint.number
unfolding first_byte_hint
digit_hint c h = ground arith

digit_space : (c : ℕ) → is_digit c ≡ true → is_space c ≡ false
digit_space c h = ground arith

digit_space₂ : (c a : ℕ) → is_digit c ≡ true → is_space₂ c a ≡ false
digit_space₂ c a h = ground arith

digit_space₃ : (c a b : ℕ) → is_digit c ≡ true → is_space₃ c a b ≡ false
digit_space₃ c a b h = ground arith

number_hint : (c : ℕ) (s : Bytes) → is_digit c ≡ true → hint_type (c ∷ s) ≡ TypeHint.number
unfolding hint_type
number_hint c [] h = rw (digit_space c h) (digit_hint c h)
number_hint c (a ∷ []) h = rw (digit_space c h, digit_space₂ c a h) (digit_hint c h)
number_hint c (a ∷ b ∷ s) h =
    rw (digit_space c h, digit_space₂ c a h, digit_space₃ c a b h) (digit_hint c h)

small_number-back : (n d : Bytes) → small_number n ≡ ok d → n ≡ d
small_number-back [] d h = ground arith
small_number-back (c ∷ s) d h = ground arith

small_number-hint : (n d : Bytes) → small_number n ≡ ok d → hint_type d ≡ TypeHint.number
small_number-hint [] d h = cc
small_number-hint (c ∷ s) d h = ground (arith, number_hint c s)

small_int_value : (n : ℕ) → n < 10 → parse_int ((b'0' + n) ∷ []) ≡ ok (pos n)
unfolding parse_int
small_int_value n h = ground arith

small_int_hint : (n : ℕ) → n < 10 → hint_type ((b'0' + n) ∷ []) ≡ TypeHint.number
small_int_hint n h = number_hint (b'0' + n) [] (ground arith)

write_int-value : (i : ℤ) (d : Bytes) → write_id (int64 i) ≡ ok d → parse_int d ≡ ok i
write_int-value (pos n) d h = ground (arith, small_int_value n)
write_int-value (negsuc n) d h = cc

write_int-hint : (i : ℤ) (d : Bytes) → write_id (int64 i) ≡ ok d → hint_type d ≡ TypeHint.number
write_int-hint (pos n) d h = ground (arith, small_int_hint n)
write_int-hint (negsuc n) d h = cc

unquote-quote : (s : Bytes) → unquote (quote s) ≡ ok s
unquote-quote s = ap ok (without_last-append s b'"')

pub small_json-IsLossless : IsLossless small_json
small_json-IsLossless = record {
  int64_back = λ i d h. refl;
  int64_value = write_int-value;
  int64_hint = write_int-hint;
  string_back = λ s d h. subst (λ x. unquote x ≡ ok s) (ok_inj h) (unquote-quote s);
  string_hint = λ s d h. subst (λ x. hint_type x ≡ TypeHint.string) (ok_inj h) (quote_hint s);
  number_back = λ n d ne h. ap ok (sym (small_number-back n d h));
  number_hint = small_number-hint;
}
