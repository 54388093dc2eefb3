-- ===== src/Message/Id/Wire.antt =====
-- IDs that come from JSON.
use jsonrpc.Base.{Bool, true, false, [], Bytes, bytes_eq_iff, ◌≡◌, ◌≢◌, subst, arith}
use jsonrpc.Failure.{ok}
use jsonrpc.ParseInt.{parse_int}
use jsonrpc.Hint.{TypeHint, hint_type}
use jsonrpc.Json.{Json, IdValue, nil, int64, number, str}
use jsonrpc.Message.Id.{MessageId, zero_id, equal, unmarshal_json, unmarshal_as, decoded}
use jsonrpc.Message.Id.Equal.{equal_lem, same_value}
use jsonrpc.Message.Id.Coding.{IsEncodable}

-- JSON gives no int64.
abbrev pub is_wire : IdValue → Bool
is_wire nil = true
is_wire (int64 i) = false
is_wire (number n) = true
is_wire (str s) = true

unmarshal_as-wire :
    (j : Json) (t : TypeHint) (d : Bytes) (k : MessageId)
    → unmarshal_as j t zero_id d ≡ ok k
    → is_wire k.value ≡ true
unfolding unmarshal_as decoded
unmarshal_as-wire j t d k h = ground arith

pub unmarshal_json-wire :
    (j : Json) (d : Bytes) (k : MessageId)
    → unmarshal_json j zero_id d ≡ ok k
    → is_wire k.value ≡ true
unfolding unmarshal_json
unmarshal_json-wire j d k h = unmarshal_as-wire j (hint_type d) d k h

same_value-wire :
    (u v w : IdValue)
    → is_wire v ≡ true
    → is_wire w ≡ true
    → same_value u v ≡ true
    → same_value v w ≡ true
    → same_value u w ≡ true
same_value-wire u nil nil p q g h = g
same_value-wire u (number m) (number n) p q g h =
    subst (λ x. same_value u (number x) ≡ true) ((bytes_eq_iff m n).0 h) g
same_value-wire u (str m) (str n) p q g h =
    subst (λ x. same_value u (str x) ≡ true) ((bytes_eq_iff m n).0 h) g
same_value-wire u (int64 i) w p q g h = cc
same_value-wire u nil (int64 i) p q g h = cc
same_value-wire u nil (number n) p q g h = cc
same_value-wire u nil (str n) p q g h = cc
same_value-wire u (number m) nil p q g h = cc
same_value-wire u (number m) (int64 i) p q g h = cc
same_value-wire u (number m) (str n) p q g h = cc
same_value-wire u (str m) nil p q g h = cc
same_value-wire u (str m) (int64 i) p q g h = cc
same_value-wire u (str m) (number n) p q g h = cc

-- Between IDs that come from JSON `Equal` is transitive, whatever the first one is.
pub equal-wire :
    (a b c : MessageId)
    → is_wire b.value ≡ true
    → is_wire c.value ≡ true
    → equal a b ≡ true
    → equal b c ≡ true
    → equal a c ≡ true
equal-wire a b c p q g h = ground (
  arith,
  equal_lem a b,
  equal_lem b c,
  equal_lem a c,
  same_value-wire a.value b.value c.value p q,
)

-- What equals an ID that can be encoded can be encoded.
pub IsEncodable-wire :
    (u v : IdValue) → IsEncodable u → is_wire v ≡ true → same_value u v ≡ true → IsEncodable v
IsEncodable-wire u nil e w h = tt
IsEncodable-wire u (str s) e w h = tt
IsEncodable-wire u (int64 i) e w h = tt
IsEncodable-wire (number m) (number n) e w h = subst (λ x. x ≢ []) ((bytes_eq_iff m n).0 h) e
IsEncodable-wire (int64 i) (number n) e w h = λ q. unfold parse_int in cc
IsEncodable-wire nil (number n) e w h = cc
IsEncodable-wire (str s) (number n) e w h = cc
