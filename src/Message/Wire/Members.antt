-- ===== src/Message/Wire/Members.antt =====
-- The members of a request, each read back, and a member that may be left out.
use jsonrpc.Base.{
  Bool, true, false, Option, List, [], ◌∷◌, Bytes, codes, bytes_eq, ◌≡◌, ◌⊎◌, inl, inr, refl, sym,
  ap,
}
use jsonrpc.Value.{Any, raw, text}
use jsonrpc.Failure.{GoError, Outcome, ok, fail}
use jsonrpc.Hint.{hint_type}
use jsonrpc.Json.{Json}
use jsonrpc.Message.Codec.{Objects, Member, IsFaithful, ok_inj, read_text}
use jsonrpc.Message.Id
use jsonrpc.Message.Id.{MessageId, new_id, zero_id, is_zero, equal}
use jsonrpc.Message.Params.Laws.{IsStructured, unmarshal_json-structured}
use jsonrpc.Message.Version
use jsonrpc.Message.Version.{protocol_version}
use jsonrpc.Message.Request.{Request}
use jsonrpc.Message.Wire.{read_request_member, member_unless}

module _ (j : Json) (o : Objects) (f : IsFaithful j o) where
  pub read_version :
      (d : Bytes) (r : Request) (saved : Option GoError)
      → j.marshal (text protocol_version) ≡ ok d
      → read_request_member j o (codes "jsonrpc", d) (r, saved)
        ≡ ok (record r { jsonrpc_version = record { present = true } }, saved)
  unfolding read_request_member Version.unmarshal_json bytes_eq
  read_version d r saved h =
      rw
        (
          f.matches_name (codes "jsonrpc") (codes "jsonrpc") refl refl,
          f.text_back protocol_version d h,
        )
        refl

  pub read_method :
      (s d : Bytes) (r : Request) (saved : Option GoError)
      → j.marshal (text s) ≡ ok d
      → read_request_member j o (codes "method", d) (r, saved) ≡ ok (record r { method = s }, saved)
  unfolding read_request_member bytes_eq read_text
  read_method s d r saved h =
      rw
        (
          f.matches_name (codes "method") (codes "jsonrpc") refl refl,
          f.matches_name (codes "method") (codes "method") refl refl,
          f.text_hint s d h,
          f.text_back s d h,
        )
        refl

  pub read_params :
      (v : Any) (d : Bytes) (r : Request) (saved : Option GoError)
      → j.marshal v ≡ ok d
      → IsStructured (hint_type d)
      → read_request_member j o (codes "params", d) (r, saved)
        ≡ ok (record r { params = record { value = raw d } }, saved)
  unfolding read_request_member bytes_eq
  read_params v d r saved h s =
      let (p, e, ev, _) = unmarshal_json-structured j d s (f.raw_back v d h) in
      rw
        (
          f.matches_name (codes "params") (codes "jsonrpc") refl refl,
          f.matches_name (codes "params") (codes "method") refl refl,
          f.matches_name (codes "params") (codes "params") refl refl,
          e,
        )
        (ap (λ x. ok (record r { params = record { value = x } }, saved)) ev)

  pub read_id :
      (d : Bytes) (i : MessageId) (r : Request) (saved : Option GoError)
      → Id.unmarshal_json j r.id d ≡ ok i
      → read_request_member j o (codes "id", d) (r, saved) ≡ ok (record r { id = i }, saved)
  unfolding read_request_member bytes_eq
  read_id d i r saved h =
      rw
        (
          f.matches_name (codes "id") (codes "jsonrpc") refl refl,
          f.matches_name (codes "id") (codes "method") refl refl,
          f.matches_name (codes "id") (codes "params") refl refl,
          f.matches_name (codes "id") (codes "id") refl refl,
          h,
        )
        refl

-- A member is there, unless it may be left out.
pub member_unless-cases :
    (b : Bool) (name : Bytes) (x : Outcome Bytes) (ms : List Member)
    → member_unless b name x ≡ ok ms
    → ((b ≡ true) × (ms ≡ [])) ⊎ ((d : Bytes) × (b ≡ false) × (x ≡ ok d) × (ms ≡ (name, d) ∷ []))
member_unless-cases true name x ms h = inl (refl, sym (ok_inj h))
member_unless-cases false name (ok d) ms h = inr (d, refl, refl, sym (ok_inj h))
member_unless-cases false name (fail e) ms h = cc
