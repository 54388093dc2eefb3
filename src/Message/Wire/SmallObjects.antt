-- ===== src/Message/Wire/SmallObjects.antt =====
-- Objects in a small format that can be read back, and a request in it.
use jsonrpc.Base.{
  ℕ, ℤ, pos, negsuc, Bool, true, false, ◌==◌, if◌then◌else◌, List, [], ◌∷◌, ◌++◌, Bytes, codes,
  bytes_eq, ◌≡◌, refl, ap, subst, inr, append_assoc,
}
use jsonrpc.Value.{raw, text}
use jsonrpc.Failure.{Outcome, ok, fail, opaque}
use jsonrpc.Hint.{TypeHint, hint_type}
use jsonrpc.Json.{int64}
use jsonrpc.Message.Id.{new_id}
use jsonrpc.Message.Codec.{Objects, Member, IsFaithful, ok_inj}
use jsonrpc.Message.Params.Laws.{IsStructured}
use jsonrpc.Message.Request.{Request, zero_request}
use jsonrpc.Message.SmallJson.{small_json, small_json-IsLossless}

-- Each byte of a name or a value has a 1 before it, and two zeros end them.
abbrev pub put : Bytes → Bytes
put [] = 0 ∷ 0 ∷ []
put (c ∷ s) = 1 ∷ c ∷ put s

abbrev push : Bool → ℕ → List Bytes → List Bytes
push true c ts = [] ∷ ts
push false c [] = []
push false c (t ∷ ts) = (c ∷ t) ∷ ts

abbrev tokens : Bytes → List Bytes
tokens [] = []
tokens (m ∷ []) = []
tokens (m ∷ c ∷ s) = push (m == 0) c (tokens s)

abbrev pairs : List Bytes → List Member
pairs [] = []
pairs (a ∷ []) = []
pairs (a ∷ b ∷ ts) = (a, b) ∷ pairs ts

abbrev put_members : List Member → Bytes
put_members [] = []
put_members ((a, b) ∷ ms) = put a ++ put b ++ put_members ms

abbrev read_object : Bytes → Outcome (List Member)
read_object [] = fail (opaque (codes "no value"))
read_object (c ∷ s) = if c == b'{' then ok (pairs (tokens s)) else ok []

-- A zero in front makes the integer's text a number.
abbrev pub put_int : ℤ → Bytes
put_int (pos n) = b'0' ∷ 0 ∷ n ∷ []
put_int (negsuc n) = b'0' ∷ 1 ∷ n ∷ []

abbrev get_int : Bytes → Outcome ℤ
get_int (a ∷ sign ∷ n ∷ s) = if sign == 0 then ok (pos n) else ok (negsuc n)
get_int _ = fail (opaque (codes "no integer"))

abbrev pub small_objects : Objects
small_objects = record {
  write = λ ms. b'{' ∷ put_members ms;
  read = read_object;
  matches = bytes_eq;
  write_int = put_int;
  read_int = get_int;
}

tokens-put : (s r : Bytes) → tokens (put s ++ r) ≡ s ∷ tokens r
tokens-put [] r = refl
tokens-put (c ∷ s) r = ap (push false c) (tokens-put s r)

pairs-tokens : (ms : List Member) → pairs (tokens (put_members ms)) ≡ ms
pairs-tokens [] = refl
pairs-tokens ((a, b) ∷ ms) =
    rw (append_assoc, tokens-put a (put b ++ put_members ms), tokens-put b (put_members ms))
      (ap (◌∷◌ (a, b)) (pairs-tokens ms))

text_back :
    (s d : Bytes) → small_json.marshal (text s) ≡ ok d → small_json.unmarshal_string d ≡ ok s
text_back s d h = small_json-IsLossless.string_back s d h

int_back : (i : ℤ) → get_int (put_int i) ≡ ok i
int_back (pos n) = refl
int_back (negsuc n) = refl

int_hint : (i : ℤ) → hint_type (put_int i) ≡ TypeHint.number
unfolding hint_type
int_hint (pos n) = refl
int_hint (negsuc n) = refl

pub small_objects-IsFaithful : IsFaithful small_json small_objects
small_objects-IsFaithful = record {
  members_back = λ ms. ap ok (pairs-tokens ms);
  matches_name = λ a b p q. refl;
  text_back = text_back;
  text_hint = λ s d h. small_json-IsLossless.string_hint s d h;
  int_back = int_back;
  int_hint = int_hint;
  raw_back = λ v d h. refl;
}

abbrev pub get_seven : Request
get_seven = record zero_request {
  method = codes "get";
  params = record { value = raw (codes "[]") };
  id = new_id (int64 (pos 7));
}

abbrev pub put_all : List Bytes → Bytes
put_all [] = []
put_all (t ∷ ts) = put t ++ put_all ts

abbrev pub get_seven_object : Bytes
get_seven_object =
    b'{'
    ∷ put_all (
        codes "jsonrpc"
        ∷ codes "\"2.0\""
        ∷ codes "method"
        ∷ codes "\"get\""
        ∷ codes "params"
        ∷ codes "[]"
        ∷ codes "id"
        ∷ codes "7"
        ∷ [])

pub array_written : (d : Bytes) → ok (codes "[]") ≡ ok d → IsStructured (hint_type d)
unfolding hint_type
array_written d h = subst (λ x. IsStructured (hint_type x)) (ok_inj h) (inr refl)
