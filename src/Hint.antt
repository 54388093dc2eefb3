-- ===== src/Hint.antt =====
-- typehint.go: the guess at the JSON type of a raw message by its first byte behind white space.
pub mod Laws
use jsonrpc.Base.{
  ℕ, Bool, true, false, ◌&&◌, ◌||◌, [], ◌∷◌, Bytes, leb, ◌==◌, if◌then◌else◌, ◌≡◌, refl,
}

-- The constants of type TypeHint.
pub data TypeHint : Type 0 where
  unknown array object bool number string null empty not_json : TypeHint

pub TypeHint-discrete : Discrete TypeHint
TypeHint-discrete = hlevel

-- The white space that is one byte: tab, line feed, vertical tab, form feed, return and space.
abbrev pub is_space : ℕ → Bool
is_space c = leb 9 c && leb c 13 || c == 32

-- U+0085 and U+00A0 in UTF-8.
abbrev pub is_space₂ : ℕ → ℕ → Bool
is_space₂ a b = a == 0xc2 && (b == 0x85 || b == 0xa0)

-- U+1680, U+2000 to U+200A, U+2028, U+2029, U+202F, U+205F and U+3000 in UTF-8.
abbrev pub is_space₃ : ℕ → ℕ → ℕ → Bool
is_space₃ a b c =
    a == 0xe1 && b == 0x9a && c == 0x80
    || a == 0xe2 && b == 0x80 && (leb 0x80 c && leb c 0x8a || c == 0xa8 || c == 0xa9 || c == 0xaf)
    || a == 0xe2 && b == 0x81 && c == 0x9f
    || a == 0xe3 && b == 0x80 && c == 0x80

-- bytes.TrimSpace, at the front. What it trims at the back changes neither the first byte of the
-- rest nor whether the rest is empty, which is all that HintType reads.
unfoldable pub trim_space : Bytes → Bytes
trim_space [] = []
trim_space (a ∷ []) = if is_space a then [] else a ∷ []
trim_space (a ∷ b ∷ []) =
    let one = trim_space (b ∷ []) in
    if is_space a then one else if is_space₂ a b then [] else a ∷ b ∷ []
trim_space (a ∷ b ∷ c ∷ s) =
    let one = trim_space (b ∷ c ∷ s) in
    let two = trim_space (c ∷ s) in
    let three = trim_space s in
    if is_space a
    then one
    else if is_space₂ a b
    then two
    else if is_space₃ a b c
    then three
    else a ∷ b ∷ c ∷ s

-- The switch on the first byte.
unfoldable pub first_byte_hint : ℕ → TypeHint
first_byte_hint c =
    if c == b'['
    then TypeHint.array
    else if c == b'{'
    then TypeHint.object
    else if c == b't' || c == b'f'
    then TypeHint.bool
    else if c == b'-' || leb b'0' c && leb c b'9'
    then TypeHint.number
    else if c == b'"'
    then TypeHint.string
    else if c == b'n'
    then TypeHint.null
    else TypeHint.unknown

abbrev hint_of_trimmed : Bytes → TypeHint
unfolding first_byte_hint
hint_of_trimmed [] = TypeHint.empty
hint_of_trimmed (c ∷ _) = first_byte_hint c

-- HintType
unfoldable pub hint_type : Bytes → TypeHint
unfolding hint_of_trimmed trim_space
hint_type m = hint_of_trimmed (trim_space m)

brace_behind_space : hint_type (10 ∷ 0xc2 ∷ 0xa0 ∷ b'{' ∷ []) ≡ TypeHint.object
unfolding hint_type
brace_behind_space = refl
