-- ===== src/Message/Wire/Requests.antt =====
-- Requests to JSON and back.
use jsonrpc.Base.{
  Bool, true, false, not, none, List, [], ◌∷◌, ◌++◌, Bytes, codes, ◌≡◌, ◌⊎◌, inl, inr, refl, ◌∙◌,
  subst, arith,
}
use jsonrpc.Value.{raw, text}
use jsonrpc.Failure.{ok}
use jsonrpc.Hint.{hint_type}
use jsonrpc.Json.{Json, IsLossless, IdValue}
use jsonrpc.Message.Codec.{Objects, Member, IsFaithful, bind-ok, chain-ok, ok_inj, read_members}
use jsonrpc.Message.Id
use jsonrpc.Message.Id.{MessageId, new_id, zero_id, is_zero, equal}
use jsonrpc.Message.Id.Equal.{equal_lem}
use jsonrpc.Message.Id.Coding.{IsEncodable, unmarshal-marshal}
use jsonrpc.Message.Id.Wire.{is_wire, unmarshal_json-wire}
use jsonrpc.Message.Params
use jsonrpc.Message.Params.{Params, no_params, params_is_zero}
use jsonrpc.Message.Params.Laws.{IsStructured}
use jsonrpc.Message.Version
use jsonrpc.Message.Version.{protocol_version}
use jsonrpc.Message.Request.{Request, zero_request, is_notification}
use jsonrpc.Message.Wire.{
  read_request_member, request_members, write_request, read_request, member_unless,
}
use jsonrpc.Message.Wire.Members.{
  read_version, read_method, read_params, read_id, member_unless-cases,
}

-- The parameters that come back: none for none, and else the message that they were written as.
abbrev pub SameParams : Json → Params → Params → Type 0
SameParams j p q =
    ((params_is_zero p ≡ true) × (q ≡ no_params))
    ⊎ ((d : Bytes) × (j.marshal p.value ≡ ok d) × (q ≡ record { value = raw d }))

-- Parameters that may stand in a request: none, or what is written as an object or an array.
abbrev pub CanSend : Json → Params → Type 0
CanSend j p =
    (params_is_zero p ≡ true)
    ⊎ ((d : Bytes) → j.marshal p.value ≡ ok d → IsStructured (hint_type d))

-- What a request comes back as.
abbrev pub SameRequest : Json → Request → Request → Type 0
SameRequest j r s =
    (s.method ≡ r.method)
    × (s.jsonrpc_version.present ≡ true)
    × SameParams j r.params s.params
    × (is_notification s ≡ is_notification r)
    × (equal r.id s.id ≡ r.id.present)
    × (is_wire s.id.value ≡ true)

module _ (j : Json) (o : Objects) (l : IsLossless j) (f : IsFaithful j o) where
  -- Where the ID may be left out, it comes back as what stood there before.
  IdStage : MessageId → List Member → Request → Type 0
  IdStage i is r =
      (k : MessageId) × (read_members (read_request_member j o) is (r, none)
        ≡ ok (record r { id = k }, none))
      × (is_zero k ≡ is_zero i)
      × (equal i k ≡ i.present)
      × (is_wire k.value ≡ true)

  IdStage-present :
      (v : IdValue) (is : List Member) (r : Request) (d : Bytes)
      → IsEncodable v
      → r.id ≡ zero_id
      → Id.marshal_json j (new_id v) ≡ ok d
      → (codes "id", d) ∷ [] ≡ is
      → IdStage (new_id v) is r
  unfolding read_members new_id is_zero IdStage
  IdStage-present v is r d en z x e =
      let (k, u, q) = unmarshal-marshal j v d l en x in
      (
        k,
        subst
            (λ ms.
              read_members (read_request_member j o) ms (r, none) ≡ ok (record r { id = k }, none))
            e (rw (read_id j o f d k r none (rw z u)) refl),
        ground (arith, equal_lem (new_id v) k),
        q,
        unmarshal_json-wire j d k u,
      )

  id_stage :
      (v : IdValue) (p : Bool) (is : List Member) (r : Request)
      → IsEncodable v
      → r.id ≡ zero_id
      → member_unless (not p) (codes "id") (Id.marshal_json j (record { value = v; present = p }))
        ≡ ok is
      → IdStage (record { value = v; present = p }) is r
  unfolding read_members new_id is_zero IdStage
  id_stage v false is r en z h = (
    r.id,
    subst (λ ms. read_members (read_request_member j o) ms (r, none) ≡ ok (r, none)) (ok_inj h)
        refl,
    rw z refl,
    rw equal_lem refl,
    rw z refl,
  )
  id_stage v true is r en z h =
      let (d, x, e) =
        bind-ok (Id.marshal_json j (new_id v)) (λ m. ok ((codes "id", m) ∷ [])) is h in
      IdStage-present v is r d en z x (ok_inj e)

  params_stage :
      (p : Params) (ps is : List Member) (r : Request)
      → CanSend j p
      → r.params ≡ no_params
      → member_unless (params_is_zero p) (codes "params") (Params.marshal_json j p) ≡ ok ps
      → (q : Params) × (read_members (read_request_member j o) (ps ++ is) (r, none)
          ≡ read_members (read_request_member j o) is (record r { params = q }, none))
        × SameParams j p q
  unfolding read_members Params.marshal_json
  params_stage p ps is r can z h =
      elim (member_unless-cases (params_is_zero p) (codes "params") (Params.marshal_json j p) ps
        h) [
          | inl (b, e) ↦ (r.params, rw e refl, inl (b, z))
          | inr (d, b, x, e) ↦ (
            record { value = raw d },
            rw e (rw (read_params j o f p.value d r none x (structured d b x can)) refl),
            inr (d, x, refl),
          )
        ]
    where
      structured :
          (d : Bytes)
          → params_is_zero p ≡ false
          → j.marshal p.value ≡ ok d
          → CanSend j p
          → IsStructured (hint_type d)
      structured d b x (inl t) = cc
      structured d b x (inr s) = s d x

  -- The four parts that a request is written from.
  request_parts :
      (r : Request) (ms : List Member)
      → request_members j r ≡ ok ms
      → (v m : Bytes) × (ps is : List Member) × (j.marshal (text protocol_version) ≡ ok v)
        × (j.marshal (text r.method) ≡ ok m)
        × (member_unless (params_is_zero r.params) (codes "params") (Params.marshal_json j r.params)
            ≡ ok ps)
        × (member_unless (not r.id.present) (codes "id") (Id.marshal_json j r.id) ≡ ok is)
        × ((codes "jsonrpc", v) ∷ (codes "method", m) ∷ ps ++ is ≡ ms)
  unfolding request_members is_zero
  request_parts r ms h =
      let (v, m, ps, is, hv, hm, hp, hi, e) =
        chain-ok (Version.marshal_json j r.jsonrpc_version) (j.marshal (text r.method))
          (member_unless (params_is_zero r.params) (codes "params")
            (Params.marshal_json j r.params))
          (member_unless (not r.id.present) (codes "id") (Id.marshal_json j r.id))
          (λ v m ps is. (codes "jsonrpc", v) ∷ (codes "method", m) ∷ ps ++ is) ms h in
      (v, m, ps, is, version_text v hv, hm, hp, hi, e)
    where
      version_text :
          (v : Bytes)
          → Version.marshal_json j r.jsonrpc_version ≡ ok v
          → j.marshal (text protocol_version) ≡ ok v
      version_text v h = unfold Version.marshal_json in ground arith

  read_members-request :
      (r : Request) (v m : Bytes) (ps is : List Member)
      → CanSend j r.params
      → IsEncodable r.id.value
      → j.marshal (text protocol_version) ≡ ok v
      → j.marshal (text r.method) ≡ ok m
      → member_unless (params_is_zero r.params) (codes "params") (Params.marshal_json j r.params)
        ≡ ok ps
      → member_unless (not r.id.present) (codes "id") (Id.marshal_json j r.id) ≡ ok is
      → (s : Request) × (read_members
            (read_request_member j o)
            ((codes "jsonrpc", v) ∷ (codes "method", m) ∷ ps ++ is)
            (zero_request, none)
          ≡ ok (s, none))
        × SameRequest j r s
  unfolding read_members is_notification IdStage
  read_members-request r v m ps is can en hv hm hp hi =
      let start = record zero_request {
        jsonrpc_version = record { present = true };
        method = r.method;
      } in
      let (q, eq, same) = params_stage r.params ps is start can refl hp in
      let (k, ek, zk, sk, wk) =
        id_stage r.id.value r.id.present is (record start { params = q }) en refl hi in
      (
        record start { params = q; id = k },
        rw (read_version j o f v zero_request none hv) (
            rw
              (read_method j o f r.method m
                (record zero_request { jsonrpc_version = record { present = true } }) none hm)
              (eq ∙ ek)),
        (refl, refl, same, zk, sk, wk),
      )

  -- A request is read back from the object that it is written as: with its method, a valid
  -- version, its parameters as a raw message, an equal ID if it has one, which is no int64, and as
  -- a notification exactly if it was one. The parameters are none or are written as an object or
  -- an array, and the ID is not the empty json.Number.
  pub read-write_request :
      (r : Request) (d : Bytes)
      → CanSend j r.params
      → IsEncodable r.id.value
      → write_request j o r ≡ ok d
      → (s : Request) × (read_request j o d ≡ ok s) × SameRequest j r s
  unfolding write_request read_request
  read-write_request r d can en h =
      let (ms, hm, hw) = bind-ok (request_members j r) (λ ms. ok (o.write ms)) d h in
      let (v, m, ps, is, hv, ht, hp, hi, e) = request_parts r ms hm in
      let (s, es, same) = read_members-request r v m ps is can en hv ht hp hi in
      (s, rw (← ok_inj hw, f.members_back ms, ← e, es) refl, same)
