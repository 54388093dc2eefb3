-- ===== src/Message/Codec.antt =====
-- What encoding/json does with the members of an object.
use jsonrpc.Base.{
  ℤ, Bool, true, false, ◌||◌, Option, none, some, List, [], ◌∷◌, Bytes, codes, bytes_eq, ◌≡◌, refl,
  ap,
}
use jsonrpc.Value.{Any, text}
use jsonrpc.Failure.{GoError, Outcome, ok, fail}
use jsonrpc.Hint.{TypeHint, hint_type}
use jsonrpc.Json.{Json}

-- A name and a raw value.
abbrev pub Member : Type 0
Member = Bytes × Bytes

-- Objects as text: written from their members and read back, null being an object without members; the
-- test by which a member's name stands for a field; and integers.
pub record Objects : Type 0 where
  pub write : List Member → Bytes
  pub read : Bytes → Outcome (List Member)
  pub matches : Bytes → Bytes → Bool
  pub write_int : ℤ → Bytes
  pub read_int : Bytes → Outcome ℤ

-- The names of the fields.
abbrev pub field_names : List Bytes
field_names =
    codes "jsonrpc"
    ∷ codes "method"
    ∷ codes "params"
    ∷ codes "id"
    ∷ codes "result"
    ∷ codes "error"
    ∷ codes "code"
    ∷ codes "message"
    ∷ codes "data"
    ∷ []

abbrev pub is_field : List Bytes → Bytes → Bool
is_field [] n = false
is_field (f ∷ fs) n = bytes_eq f n || is_field fs n

-- Documented behaviour: an object is read as it was written, a name stands for a field of the same
-- name and for no other of the fields above, and texts and integers are read back.
pub record IsFaithful (j : Json) (o : Objects) : Type 0 where
  pub members_back : (ms : List Member) → o.read (o.write ms) ≡ ok ms
  pub matches_name :
      (a b : Bytes)
      → is_field field_names a ≡ true
      → is_field field_names b ≡ true
      → o.matches a b ≡ bytes_eq a b
  pub text_back : (s d : Bytes) → j.marshal (text s) ≡ ok d → j.unmarshal_string d ≡ ok s
  pub text_hint : (s d : Bytes) → j.marshal (text s) ≡ ok d → hint_type d ≡ TypeHint.string
  pub int_back : (i : ℤ) → o.read_int (o.write_int i) ≡ ok i
  pub int_hint : (i : ℤ) → hint_type (o.write_int i) ≡ TypeHint.number
  pub raw_back : (v : Any) (d : Bytes) → j.marshal v ≡ ok d → j.unmarshal_raw d ≡ ok d

infixl 5 ◌>>=◌
abbrev pub ◌>>=◌ {ℓ κ} : {A : Type ℓ} {B : Type κ} → Outcome A → (A → Outcome B) → Outcome B
ok a >>= k = k a
fail e >>= k = fail e

-- The value so far, and the first type error of a basic field, which does not end the reading.
abbrev pub Reading {ℓ} : Type ℓ → Type ℓ
Reading A = A × Option GoError

abbrev pub save : Option GoError → GoError → Option GoError
save none e = some e
save (some d) e = some d

unfoldable pub read_members {ℓ} :
    {A : Type ℓ}
    → (Member → Reading A → Outcome (Reading A))
    → List Member
    → Reading A
    → Outcome (Reading A)
read_members f [] s = ok s
read_members f (m ∷ ms) s = f m s >>= read_members f ms

abbrev pub finish {ℓ} : {A : Type ℓ} → Reading A → Outcome A
finish (a, none) = ok a
finish (a, some e) = fail e

abbrev pub set_or_save {ℓ κ} :
    {A : Type ℓ} {B : Type κ} → Outcome B → (B → A) → Reading A → Reading A
set_or_save (ok b) set (a, saved) = (set b, saved)
set_or_save (fail e) set (a, saved) = (a, save saved e)

abbrev pub unless_null {ℓ} : {A : Type ℓ} → TypeHint → A → A → A
unless_null TypeHint.null a b = a
unless_null _ a b = b

-- A member of a string field, and of an integer field: null leaves the field as it is.
unfoldable pub read_text {ℓ} : {A : Type ℓ} → Json → Bytes → (Bytes → A) → Reading A → Reading A
unfolding hint_type
read_text j d set s = unless_null (hint_type d) s (set_or_save (j.unmarshal_string d) set s)

unfoldable pub read_code {ℓ} : {A : Type ℓ} → Objects → Bytes → (ℤ → A) → Reading A → Reading A
unfolding hint_type
read_code o d set s = unless_null (hint_type d) s (set_or_save (o.read_int d) set s)

-- A chain of results has succeeded only if each part has.
pub bind-ok {ℓ κ} :
    {A : Type ℓ} {B : Type κ} (x : Outcome A) (k : A → Outcome B) (b : B)
    → (x >>= k) ≡ ok b
    → (a : A) × (x ≡ ok a) × (k a ≡ ok b)
bind-ok (ok a) k b h = (a, refl, h)
bind-ok (fail e) k b h = cc

abbrev result_or {ℓ} : {A : Type ℓ} → A → Outcome A → A
result_or a (ok b) = b
result_or a (fail e) = a

pub ok_inj {ℓ} : {A : Type ℓ} {a b : A} → ok a ≡ ok b → a ≡ b
ok_inj {a} h = ap (result_or a) h

pub chain-ok {ℓ} :
    {A B C D : Type 0} {E : Type ℓ} (a : Outcome A) (b : Outcome B) (c : Outcome C) (d : Outcome D)
    (k : A → B → C → D → E) (r : E)
    → (a >>= λ v. b >>= λ w. c >>= λ x. d >>= λ y. ok (k v w x y)) ≡ ok r
    → (v : A) × (w : B) × (x : C) × (y : D) × (a ≡ ok v)
      × (b ≡ ok w)
      × (c ≡ ok x)
      × (d ≡ ok y)
      × (k v w x y ≡ r)
chain-ok (ok v) (ok w) (ok x) (ok y) k r h = (v, w, x, y, refl, refl, refl, refl, ok_inj h)
chain-ok (fail e) b c d k r h = cc
chain-ok (ok v) (fail e) c d k r h = cc
chain-ok (ok v) (ok w) (fail e) d k r h = cc
chain-ok (ok v) (ok w) (ok x) (fail e) k r h = cc
