-- ===== src/Message/Id/Coding.antt =====
-- IDs to JSON and back.
use jsonrpc.Base.{int_eq_iff, true, [], ◌≡◌, ◌≢◌, refl, Bytes, codes, arith}
use jsonrpc.Failure.{ok}
use jsonrpc.Hint.{TypeHint, hint_type}
use jsonrpc.Json.{Json, IsLossless, IdValue, nil, int64, number, str}
use jsonrpc.Message.Id.{
  MessageId, new_id, zero_id, equal, unmarshal_json, marshal_json, unmarshal_as, decoded,
}
use jsonrpc.Message.Id.Equal.{equal_lem, equal_refl}

marshal_json-at :
    (j : Json) (v : IdValue) (d : Bytes)
    → v ≢ nil
    → marshal_json j (record { present = true; value = v }) ≡ ok d
    → j.marshal_id v ≡ ok d
unfolding marshal_json
marshal_json-at j v d ne e = ground arith

unmarshal_json-at :
    (j : Json) (t : TypeHint) (id : MessageId) (d : Bytes)
    → hint_type d ≡ t
    → unmarshal_json j id d ≡ unmarshal_as j t id d
unfolding unmarshal_json
unmarshal_json-at j t id d h = rw h

-- Any value of an ID, but the empty json.Number, which is no number.
abbrev pub IsEncodable : IdValue → Type 0
IsEncodable (number n) = n ≢ []
IsEncodable _ = Unit

marshal_json-null : (j : Json) (d : Bytes) → marshal_json j (new_id nil) ≡ ok d → d ≡ codes "null"
unfolding marshal_json new_id
marshal_json-null j d e = ground arith

null_hint : hint_type (codes "null") ≡ TypeHint.null
unfolding hint_type
null_hint = refl

-- What an ID is encoded to is decoded to an equal ID, for every JSON library that keeps strings and
-- numbers; the empty json.Number is left out.
pub unmarshal-marshal :
    (j : Json) (v : IdValue) (d : Bytes)
    → IsLossless j
    → IsEncodable v
    → marshal_json j (new_id v) ≡ ok d
    → (id : MessageId) × (unmarshal_json j zero_id d ≡ ok id) × (equal (new_id v) id ≡ true)
unfolding unmarshal_as new_id decoded
unmarshal-marshal j nil d l h e = (
  new_id nil,
  rw (unmarshal_json-at j TypeHint.null zero_id d (rw (marshal_json-null j d e) null_hint)),
  equal_refl (new_id nil),
)
unmarshal-marshal j (int64 i) d l h e =
    let m = marshal_json-at j (int64 i) d (cc) e in
    (
      new_id (number d),
      rw (unmarshal_json-at j TypeHint.number zero_id d (l.int64_hint i d m))
          (rw (l.int64_back i d m)),
      rw (equal_lem, l.int64_value i d m) ((int_eq_iff i i).1 refl),
    )
unmarshal-marshal j (number n) d l h e =
    let m = marshal_json-at j (number n) d (cc) e in
    (
      new_id (number n),
      rw (unmarshal_json-at j TypeHint.number zero_id d (l.number_hint n d m))
          (rw (l.number_back n d h m)),
      equal_refl (new_id (number n)),
    )
unmarshal-marshal j (str s) d l h e =
    let m = marshal_json-at j (str s) d (cc) e in
    (
      new_id (str s),
      rw (unmarshal_json-at j TypeHint.string zero_id d (l.string_hint s d m))
          (rw (l.string_back s d m)),
      equal_refl (new_id (str s)),
    )

-- Decoding a JSON null into an ID sets it, and keeps whatever value the ID held before.
pub unmarshal_null-keeps :
    (j : Json) (old : MessageId) (d : Bytes)
    → hint_type d ≡ TypeHint.null
    → unmarshal_json j old d ≡ ok (record old { present = true })
unfolding unmarshal_as
unmarshal_null-keeps j old d h = rw (unmarshal_json-at j TypeHint.null old d h)
