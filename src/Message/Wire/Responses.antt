-- ===== src/Message/Wire/Responses.antt =====
-- Responses to JSON and back.
use jsonrpc.Base.{
  Bool, true, false, none, List, [], ◌∷◌, ◌++◌, Bytes, codes, ◌≡◌, ◌⊎◌, inl, inr, refl, ◌∙◌, subst,
  append_assoc, arith,
}
use jsonrpc.Value.{Data, Error, no_data, no_error, raw, text}
use jsonrpc.Failure.{ok, error_is_zero}
use jsonrpc.Hint.{TypeHint, hint_type}
use jsonrpc.Json.{Json, IsLossless, IdValue}
use jsonrpc.Message.Codec.{Objects, Member, IsFaithful, bind-ok, chain-ok, ok_inj, read_members}
use jsonrpc.Message.Id
use jsonrpc.Message.Id.{MessageId, new_id, zero_id, is_zero, equal}
use jsonrpc.Message.Id.Equal.{equal_lem}
use jsonrpc.Message.Id.Coding.{IsEncodable, unmarshal-marshal, unmarshal_null-keeps}
use jsonrpc.Message.Id.Wire.{is_wire, unmarshal_json-wire}
use jsonrpc.Message.Data.{marshal_json_data, data_is_zero}
use jsonrpc.Message.Version
use jsonrpc.Message.Version.{protocol_version}
use jsonrpc.Message.Response.{Response, zero_response}
use jsonrpc.Message.Wire.{
  member_unless, write_error, response_members, write_response, read_response_member, read_response,
}
use jsonrpc.Message.Wire.Members.{member_unless-cases}
use jsonrpc.Message.Wire.Errors.{
  SameData, SameError, data_back, data_written, unmarshal-write_error,
}
use jsonrpc.Message.Wire.ResponseMembers.{
  read_version_member, read_result_member, read_error_field, read_id_member,
}

-- The error that comes back: none for none, and else the same one.
abbrev pub SameFailure : Json → Error → Error → Type 0
SameFailure j a b =
    ((a.present ≡ false) × (b ≡ no_error))
    ⊎ ((a.present ≡ true) × (b.present ≡ true) × SameError j a b)

-- What a response comes back as.
abbrev pub SameResponse : Json → Response → Response → Type 0
SameResponse j r s =
    (s.jsonrpc_version.present ≡ true)
    × SameData j r.result s.result
    × SameFailure j r.error s.error
    × (s.id.present ≡ true)
    × (equal r.id s.id ≡ r.id.present)
    × (is_wire s.id.value ≡ true)

module _ (j : Json) (o : Objects) (l : IsLossless j) (f : IsFaithful j o) where
  -- An ID comes back equal; a zero ID comes back as the null ID, which is not zero.
  id_back :
      (v : IdValue) (p : Bool) (d : Bytes)
      → IsEncodable v
      → Id.marshal_json j (record { value = v; present = p }) ≡ ok d
      → (k : MessageId) × (Id.unmarshal_json j zero_id d ≡ ok k)
        × (k.present ≡ true)
        × (equal (record { value = v; present = p }) k ≡ p)
        × (is_wire k.value ≡ true)
  unfolding Id.marshal_json new_id
  id_back v false d en h = (
    record zero_id { present = true },
    unmarshal_null-keeps j zero_id d
        (subst (λ x. hint_type x ≡ TypeHint.null) (ok_inj h) (unfold hint_type in refl)),
    refl,
    rw equal_lem refl,
    refl,
  )
  id_back v true d en h =
      let (k, u, q) = unmarshal-marshal j v d l en h in
      (k, u, ground (arith, equal_lem (new_id v) k), q, unmarshal_json-wire j d k u)

  result_stage :
      (a : Data) (rs ms : List Member) (r : Response)
      → r.result ≡ no_data
      → member_unless (data_is_zero a) (codes "result") (marshal_json_data j a) ≡ ok rs
      → (b : Data) × (read_members (read_response_member j o) (rs ++ ms) (r, none)
          ≡ read_members (read_response_member j o) ms (record r { result = b }, none))
        × SameData j a b
  unfolding read_members
  result_stage a rs ms r z h =
      elim (member_unless-cases (data_is_zero a) (codes "result") (marshal_json_data j a) rs h) [
        | inl (b, q) ↦ (r.result, rw q refl, inl (unfold data_is_zero in ground arith, z))
        | inr (d, b, x, q) ↦
            let (p, m) = data_written j o f a d b x in
            (
              record { value = raw d; present = true },
              rw q (
                  rw
                    (read_result_member j o f d (record { value = raw d; present = true }) r
                      (data_back j o f a.value d m))
                    refl),
              inr (d, p, m, refl),
            )
      ]

  error_stage :
      (a : Error) (es ms : List Member) (r : Response)
      → r.error ≡ no_error
      → member_unless (error_is_zero a) (codes "error") (write_error j o a) ≡ ok es
      → (b : Error) × (read_members (read_response_member j o) (es ++ ms) (r, none)
          ≡ read_members (read_response_member j o) ms (record r { error = b }, none))
        × SameFailure j a b
  unfolding read_members
  error_stage a es ms r z h =
      elim (member_unless-cases (error_is_zero a) (codes "error") (write_error j o a) es h) [
        | inl (b, q) ↦ (r.error, rw q refl, inl (unfold error_is_zero in ground arith, z))
        | inr (d, b, x, q) ↦
            let (e, u, p, same) = unmarshal-write_error j o f a d x in
            (
              e,
              rw q (rw (read_error_field j o f d e r u) refl),
              inr (unfold error_is_zero in ground arith, p, same),
            )
      ]

  -- The version that a response is written with, and its three other parts.
  response_parts :
      (r : Response) (ms : List Member)
      → response_members j o r ≡ ok ms
      → (v d : Bytes) × (rs es : List Member) × (j.marshal (text protocol_version) ≡ ok v)
        × (member_unless (data_is_zero r.result) (codes "result") (marshal_json_data j r.result)
            ≡ ok rs)
        × (member_unless (error_is_zero r.error) (codes "error") (write_error j o r.error) ≡ ok es)
        × (Id.marshal_json j r.id ≡ ok d)
        × ((codes "jsonrpc", v) ∷ (rs ++ es) ++ (codes "id", d) ∷ [] ≡ ms)
  unfolding response_members
  response_parts r ms h =
      let (v, rs, es, d, hv, hr, he, hi, e) =
        chain-ok (Version.marshal_json j r.jsonrpc_version)
          (member_unless (data_is_zero r.result) (codes "result") (marshal_json_data j r.result))
          (member_unless (error_is_zero r.error) (codes "error") (write_error j o r.error))
          (Id.marshal_json j r.id)
          (λ v rs es i. (codes "jsonrpc", v) ∷ (rs ++ es) ++ (codes "id", i) ∷ []) ms h in
      (v, d, rs, es, version_text v hv, hr, he, hi, e)
    where
      version_text :
          (v : Bytes)
          → Version.marshal_json j r.jsonrpc_version ≡ ok v
          → j.marshal (text protocol_version) ≡ ok v
      version_text v h = unfold Version.marshal_json in ground arith

  read_members-response :
      (r : Response) (v d : Bytes) (rs es : List Member)
      → IsEncodable r.id.value
      → j.marshal (text protocol_version) ≡ ok v
      → member_unless (data_is_zero r.result) (codes "result") (marshal_json_data j r.result)
        ≡ ok rs
      → member_unless (error_is_zero r.error) (codes "error") (write_error j o r.error) ≡ ok es
      → Id.marshal_json j r.id ≡ ok d
      → (s : Response) × (read_members
            (read_response_member j o)
            ((codes "jsonrpc", v) ∷ (rs ++ es) ++ (codes "id", d) ∷ [])
            (zero_response, none)
          ≡ ok (s, none))
        × SameResponse j r s
  unfolding read_members
  read_members-response r v d rs es en hv hr he hi =
      let start = record zero_response { jsonrpc_version = record { present = true } } in
      let (b, eb, sb) = result_stage r.result rs (es ++ (codes "id", d) ∷ []) start refl hr in
      let (x, ex, sx) =
        error_stage r.error es ((codes "id", d) ∷ []) (record start { result = b }) refl he in
      let (k, uk, pk, sk, wk) = id_back r.id.value r.id.present d en hi in
      (
        record start { result = b; error = x; id = k },
        rw (read_version_member j o f v zero_response hv) (
            rw append_assoc (
              eb
              ∙ ex
              ∙ (rw (read_id_member j o f d k (record start { result = b; error = x }) uk) refl))),
        (refl, sb, sx, pk, sk, wk),
      )

  -- A response is read back from the object that it is written as: with a valid version, its
  -- result as a raw message, the code, the message and the data of its error, an equal ID, which
  -- is no int64, and the null ID where it had none. The ID is not the empty json.Number.
  pub read-write_response :
      (r : Response) (d : Bytes)
      → IsEncodable r.id.value
      → write_response j o r ≡ ok d
      → (s : Response) × (read_response j o d ≡ ok s) × SameResponse j r s
  unfolding write_response read_response
  read-write_response r d en h =
      let (ms, hm, hw) = bind-ok (response_members j o r) (λ ms. ok (o.write ms)) d h in
      let (v, i, rs, es, hv, hr, he, hi, e) = response_parts r ms hm in
      let (s, es2, same) = read_members-response r v i rs es en hv hr he hi in
      (s, rw (← ok_inj hw, f.members_back ms, ← e, es2) refl, same)
