-- ===== src/Message/Id/Equal.antt =====
-- Equality of IDs: what relation the `Equal` method is.
use jsonrpc.Base.{
  ℤ, int_eq, int_eq_comm, int_eq_iff, Bool, true, false, ◌&&◌, ◌≡◌, ◌≢◌, refl, Bytes, bytes_eq,
  bytes_eq_comm, bytes_eq_refl, bytes_eq_iff, arith,
}
use jsonrpc.Failure.{Outcome, ok, fail}
use jsonrpc.ParseInt.{parse_int}
use jsonrpc.Json.{IdValue, nil, int64, number, str}
use jsonrpc.Message.Id.{MessageId, new_id, equal, same_int}

-- The rules of the protocol for two values, in either order.
abbrev pub same_value : IdValue → IdValue → Bool
same_value nil nil = true
same_value (int64 a) (int64 b) = int_eq a b
same_value (int64 a) (number n) = same_int (ok a) (parse_int n)
same_value (number n) (int64 b) = same_int (parse_int n) (ok b)
same_value (number m) (number n) = bytes_eq m n
same_value (str s) (str t) = bytes_eq s t
same_value _ _ = false

equal_fields :
    (p q : Bool) (u v : IdValue)
    → equal (record { value = u; present = p }) (record { value = v; present = q })
      ≡ (p && q && same_value u v)
unfolding equal
equal_fields false _ u v = refl
equal_fields true false u v = refl
equal_fields true true nil nil = refl
equal_fields true true nil (int64 _) = refl
equal_fields true true nil (number _) = refl
equal_fields true true nil (str _) = refl
equal_fields true true (int64 _) nil = refl
equal_fields true true (int64 _) (int64 _) = refl
equal_fields true true (int64 _) (number _) = refl
equal_fields true true (int64 _) (str _) = refl
equal_fields true true (number _) nil = ground arith
equal_fields true true (number _) (int64 _) = refl
equal_fields true true (number _) (number _) = refl
equal_fields true true (number _) (str _) = ground arith
equal_fields true true (str _) nil = refl
equal_fields true true (str _) (int64 _) = refl
equal_fields true true (str _) (number _) = refl
equal_fields true true (str _) (str _) = refl

-- `Equal` decides the documented rules: both IDs are set, and the two values are both null, equal
-- texts, equal json.Numbers as texts, or an int64 and what stands for that integer.
pub equal_lem :
    (a b : MessageId) → equal a b ≡ (a.present && b.present && same_value a.value b.value)
equal_lem a b = equal_fields a.present b.present a.value b.value

same_int_comm : (a b : Outcome ℤ) → same_int a b ≡ same_int b a
same_int_comm (ok a) (ok b) = int_eq_comm a b
same_int_comm (ok a) (fail e) = refl
same_int_comm (fail d) (ok b) = refl
same_int_comm (fail d) (fail e) = refl

same_value_comm : (u v : IdValue) → same_value u v ≡ same_value v u
same_value_comm nil nil = refl
same_value_comm (int64 a) (int64 b) = int_eq_comm a b
same_value_comm (int64 a) (number n) = same_int_comm (ok a) (parse_int n)
same_value_comm (number n) (int64 b) = same_int_comm (parse_int n) (ok b)
same_value_comm (number m) (number n) = bytes_eq_comm m n
same_value_comm (str s) (str t) = bytes_eq_comm s t
same_value_comm _ _ = refl

-- `Equal` gives the same answer from either side.
pub equal_comm : (a b : MessageId) → equal a b ≡ equal b a
equal_comm a b = ground (arith, equal_lem a b, equal_lem b a, same_value_comm a.value b.value)

same_value_refl : (u : IdValue) → same_value u u ≡ true
same_value_refl nil = refl
same_value_refl (int64 a) = (int_eq_iff a a).1 refl
same_value_refl (number n) = bytes_eq_refl n
same_value_refl (str s) = bytes_eq_refl s

-- An ID equals itself exactly when it is set.
pub equal_refl : (a : MessageId) → equal a a ≡ a.present
equal_refl a = ground (arith, equal_lem a a, same_value_refl a.value)

-- `Equal` is not transitive: two different json.Numbers of one integer both equal the int64, and
-- not one another.
pub equal-not_transitive :
    (m n : Bytes) (v : ℤ)
    → parse_int m ≡ ok v
    → parse_int n ≡ ok v
    → m ≢ n
    → (equal (new_id (number m)) (new_id (int64 v)) ≡ true)
      × (equal (new_id (int64 v)) (new_id (number n)) ≡ true)
      × (equal (new_id (number m)) (new_id (number n)) ≡ false)
unfolding new_id
equal-not_transitive m n v em en ne = (
  rw (equal_lem, em) ((int_eq_iff v v).1 refl),
  rw (equal_lem, en) ((int_eq_iff v v).1 refl),
  rw equal_lem (ground (arith, bytes_eq_iff m n)),
)
