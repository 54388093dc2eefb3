-- ===== src/Message/Params/Laws.antt =====
-- What decoded parameters are.
use jsonrpc.Base.{false, [], ◌∷◌, ◌≡◌, ◌⊎◌, inl, inr, refl, Bytes, arith}
use jsonrpc.Value.{raw}
use jsonrpc.Failure.{ok, fail}
use jsonrpc.Hint.{TypeHint, hint_type}
use jsonrpc.Json.{Json}
use jsonrpc.Message.Params.{
  Params, params_is_zero, unmarshal_json, unmarshal_as, invalid_param_decode,
}

-- The two JSON types that the protocol allows for parameters.
abbrev pub IsStructured : TypeHint → Type 0
IsStructured t = (t ≡ TypeHint.object) ⊎ (t ≡ TypeHint.array)

raw_is_zero :
    (d : Bytes) → IsStructured (hint_type d) → params_is_zero (record { value = raw d }) ≡ false
unfolding params_is_zero hint_type
raw_is_zero [] h = ground arith
raw_is_zero (c ∷ d) h = refl

unmarshal_as-object-or_array :
    (j : Json) (t : TypeHint) (d : Bytes)
    → IsStructured t
    → j.unmarshal_raw d ≡ ok d
    → unmarshal_as j t d ≡ ok (record { value = raw d })
unfolding unmarshal_as
unmarshal_as-object-or_array j t d h e = ground arith

-- A raw message that begins as an object or an array is decoded to parameters that hold it, and that
-- are not the zero value, where the JSON library copies a raw message.
pub unmarshal_json-structured :
    (j : Json) (d : Bytes)
    → IsStructured (hint_type d)
    → j.unmarshal_raw d ≡ ok d
    → (p : Params) × (unmarshal_json j d ≡ ok p) × (p.value ≡ raw d) × (params_is_zero p ≡ false)
unfolding unmarshal_json
unmarshal_json-structured j d h e = (
  record { value = raw d },
  unmarshal_as-object-or_array j (hint_type d) d h e,
  refl,
  raw_is_zero d h,
)

-- Whatever the JSON library does, parameters are decoded only from such a message, and from any
-- other the decoding fails with the error for invalid parameters.
pub unmarshal_json-unstructured :
    (j : Json) (d : Bytes)
    → IsStructured (hint_type d) ⊎ (unmarshal_json j d ≡ fail invalid_param_decode)
unfolding unmarshal_json unmarshal_as
unmarshal_json-unstructured j d = go (hint_type d)
  where
    go : (t : TypeHint) → IsStructured t ⊎ (unmarshal_as j t d ≡ fail invalid_param_decode)
    go TypeHint.object = inl (inl refl)
    go TypeHint.array = inl (inr refl)
    go _ = inr refl
