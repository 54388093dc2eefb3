-- ===== src/Message/Wire/Errors.antt =====
-- Errors to JSON and back.
use jsonrpc.Base.{
  true, false, none, List, ◌∷◌, Bytes, codes, bytes_eq, ◌≡◌, ◌⊎◌, inl, inr, refl, arith,
}
use jsonrpc.Value.{Data, Error, no_data, no_error, Any, raw, text}
use jsonrpc.Failure.{ok}
use jsonrpc.Json.{Json}
use jsonrpc.Message.Codec.{
  Objects, Member, IsFaithful, bind-ok, ok_inj, ◌>>=◌, read_members, read_text, read_code,
}
use jsonrpc.Message.Data.{marshal_json_data, unmarshal_json_data, data_is_zero}
use jsonrpc.Message.Wire.{
  member_unless, error_members, write_error, read_error_member, unmarshal_json_error,
}
use jsonrpc.Message.Wire.Members.{member_unless-cases}

-- Data that come back: none for none, and else the message that the value was written as.
abbrev pub SameData : Json → Data → Data → Type 0
SameData j a b =
    ((a.present ≡ false) × (b ≡ no_data))
    ⊎ ((d : Bytes) × (a.present ≡ true)
        × (j.marshal a.value ≡ ok d)
        × (b ≡ record { value = raw d; present = true }))

abbrev pub SameError : Json → Error → Error → Type 0
SameError j e f = (f.code ≡ e.code) × (f.message ≡ e.message) × SameData j e.data_field f.data_field

module _ (j : Json) (o : Objects) (f : IsFaithful j o) where
  pub data_back :
      (v : Any) (d : Bytes)
      → j.marshal v ≡ ok d
      → unmarshal_json_data j d ≡ ok (record { value = raw d; present = true })
  unfolding unmarshal_json_data
  data_back v d h = rw (f.raw_back v d h) refl

  pub data_written :
      (a : Data) (d : Bytes)
      → data_is_zero a ≡ false
      → marshal_json_data j a ≡ ok d
      → (a.present ≡ true) × (j.marshal a.value ≡ ok d)
  unfolding marshal_json_data data_is_zero
  data_written a d z h = ground arith

  read_code_member :
      (e : Error)
      → read_error_member j o (codes "code", o.write_int e.code) (no_error, none)
        ≡ ok (record no_error { code = e.code }, none)
  unfolding read_error_member bytes_eq read_code
  read_code_member e =
      rw
        (
          f.matches_name (codes "code") (codes "data") refl refl,
          f.matches_name (codes "code") (codes "message") refl refl,
          f.matches_name (codes "code") (codes "code") refl refl,
          f.int_hint e.code,
          f.int_back e.code,
        )
        refl

  read_message_member :
      (s d : Bytes) (e : Error)
      → j.marshal (text s) ≡ ok d
      → read_error_member j o (codes "message", d) (e, none) ≡ ok (record e { message = s }, none)
  unfolding read_error_member bytes_eq read_text
  read_message_member s d e h =
      rw
        (
          f.matches_name (codes "message") (codes "data") refl refl,
          f.matches_name (codes "message") (codes "message") refl refl,
          f.text_hint s d h,
          f.text_back s d h,
        )
        refl

  read_data_member :
      (d : Bytes) (x : Data) (e : Error)
      → unmarshal_json_data j d ≡ ok x
      → read_error_member j o (codes "data", d) (e, none) ≡ ok (record e { data_field = x }, none)
  unfolding read_error_member bytes_eq
  read_data_member d x e h = rw (f.matches_name (codes "data") (codes "data") refl refl, h) refl

  data_stage :
      (a : Data) (ds : List Member) (e : Error)
      → e.data_field ≡ no_data
      → member_unless (data_is_zero a) (codes "data") (marshal_json_data j a) ≡ ok ds
      → (b : Data) × (read_members (read_error_member j o) ds (e, none)
          ≡ ok (record e { data_field = b }, none))
        × SameData j a b
  unfolding read_members
  data_stage a ds e z h =
      elim (member_unless-cases (data_is_zero a) (codes "data") (marshal_json_data j a) ds h) [
        | inl (b, q) ↦ (e.data_field, rw q refl, inl (unfold data_is_zero in ground arith, z))
        | inr (d, b, x, q) ↦
            let (p, m) = data_written a d b x in
            (
              record { value = raw d; present = true },
              rw q (
                  rw
                    (read_data_member d (record { value = raw d; present = true }) e
                      (data_back a.value d m))
                    refl),
              inr (d, p, m, refl),
            )
      ]

  -- An Error is read back from the object that it is written as, with its code, its message and its data
  -- as a raw message, and it is not zero.
  pub unmarshal-write_error :
      (e : Error) (d : Bytes)
      → write_error j o e ≡ ok d
      → (x : Error) × (unmarshal_json_error j o d ≡ ok x) × (x.present ≡ true) × SameError j e x
  unfolding write_error error_members unmarshal_json_error read_members
  unmarshal-write_error e d h =
      let (ms, hm, hw) = bind-ok (error_members j o e) (λ ms. ok (o.write ms)) d h in
      let (m, ht, h1) =
        bind-ok (j.marshal (text e.message))
          (λ m.
            member_unless (data_is_zero e.data_field) (codes "data")
              (marshal_json_data j e.data_field)
            >>= λ ds. ok ((codes "code", o.write_int e.code) ∷ (codes "message", m) ∷ ds))
          ms hm in
      let (ds, hd, h2) =
        bind-ok
          (member_unless (data_is_zero e.data_field) (codes "data")
            (marshal_json_data j e.data_field))
          (λ ds. ok ((codes "code", o.write_int e.code) ∷ (codes "message", m) ∷ ds)) ms h1 in
      let (b, eb, same) =
        data_stage e.data_field ds (record no_error { code = e.code; message = e.message }) refl
          hd in
      (
        record no_error { code = e.code; message = e.message; data_field = b; present = true },
        rw
            (
              ← ok_inj hw,
              f.members_back ms,
              ← ok_inj h2,
              read_code_member e,
              read_message_member e.message m (record no_error { code = e.code }) ht,
              eb,
            )
            refl,
        refl,
        (refl, refl, same),
      )
