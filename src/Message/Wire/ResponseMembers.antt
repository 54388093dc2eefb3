-- ===== src/Message/Wire/ResponseMembers.antt =====
-- The members of a response, each read back.
use jsonrpc.Base.{true, none, Bytes, codes, bytes_eq, ◌≡◌, refl}
use jsonrpc.Value.{Data, Error, text}
use jsonrpc.Failure.{ok}
use jsonrpc.Json.{Json}
use jsonrpc.Message.Codec.{Objects, IsFaithful}
use jsonrpc.Message.Id
use jsonrpc.Message.Id.{MessageId, new_id, zero_id, is_zero, equal}
use jsonrpc.Message.Data.{unmarshal_json_data}
use jsonrpc.Message.Version
use jsonrpc.Message.Version.{protocol_version}
use jsonrpc.Message.Response.{Response}
use jsonrpc.Message.Wire.{unmarshal_json_error, read_response_member}

module _ (j : Json) (o : Objects) (f : IsFaithful j o) where
  pub read_version_member :
      (d : Bytes) (r : Response)
      → j.marshal (text protocol_version) ≡ ok d
      → read_response_member j o (codes "jsonrpc", d) (r, none)
        ≡ ok (record r { jsonrpc_version = record { present = true } }, none)
  unfolding read_response_member Version.unmarshal_json bytes_eq
  read_version_member d r h =
      rw
        (
          f.matches_name (codes "jsonrpc") (codes "jsonrpc") refl refl,
          f.text_back protocol_version d h,
        )
        refl

  pub read_result_member :
      (d : Bytes) (x : Data) (r : Response)
      → unmarshal_json_data j d ≡ ok x
      → read_response_member j o (codes "result", d) (r, none) ≡ ok (record r { result = x }, none)
  unfolding read_response_member bytes_eq
  read_result_member d x r h =
      rw
        (
          f.matches_name (codes "result") (codes "jsonrpc") refl refl,
          f.matches_name (codes "result") (codes "result") refl refl,
          h,
        )
        refl

  pub read_error_field :
      (d : Bytes) (x : Error) (r : Response)
      → unmarshal_json_error j o d ≡ ok x
      → read_response_member j o (codes "error", d) (r, none) ≡ ok (record r { error = x }, none)
  unfolding read_response_member bytes_eq
  read_error_field d x r h =
      rw
        (
          f.matches_name (codes "error") (codes "jsonrpc") refl refl,
          f.matches_name (codes "error") (codes "result") refl refl,
          f.matches_name (codes "error") (codes "error") refl refl,
          h,
        )
        refl

  pub read_id_member :
      (d : Bytes) (i : MessageId) (r : Response)
      → Id.unmarshal_json j r.id d ≡ ok i
      → read_response_member j o (codes "id", d) (r, none) ≡ ok (record r { id = i }, none)
  unfolding read_response_member bytes_eq
  read_id_member d i r h =
      rw
        (
          f.matches_name (codes "id") (codes "jsonrpc") refl refl,
          f.matches_name (codes "id") (codes "result") refl refl,
          f.matches_name (codes "id") (codes "error") refl refl,
          f.matches_name (codes "id") (codes "id") refl refl,
          h,
        )
        refl
