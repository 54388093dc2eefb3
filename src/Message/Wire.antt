-- ===== src/Message/Wire.antt =====
-- The JSON objects of requests, responses and errors: which members the struct tags of request.go,
-- response.go and error.go give, and UnmarshalJSON of an Error. Package encoding/json, which walks over
-- a struct by its tags, is a parameter where it reads and writes text. The context that it adds to an
-- error is left out. Values are written from a pointer, as everywhere in the package: the methods MarshalJSON
-- of an ID, of Params and of Data have pointer receivers.
pub mod Members
pub mod Requests
pub mod Errors
pub mod ResponseMembers
pub mod Responses
pub mod Lenient
pub mod SmallObjects
mod Examples
use jsonrpc.Base.{
  ℤ, pos, Bool, true, false, Option, none, some, List, [], ◌∷◌, ◌++◌, Bytes, codes, if◌then◌else◌,
}
use jsonrpc.Value.{Data, Error, no_data, no_error, text}
use jsonrpc.Failure.{GoError, Outcome, ok, fail, error_is_zero}
use jsonrpc.Hint.{TypeHint, hint_type}
use jsonrpc.Json.{Json}
use jsonrpc.Message.Id
use jsonrpc.Message.Id.{is_zero}
use jsonrpc.Message.Data.{unmarshal_json_data, marshal_json_data, data_is_zero}
use jsonrpc.Message.Params
use jsonrpc.Message.Params.{params_is_zero}
use jsonrpc.Message.Version
use jsonrpc.Message.Request.{Request, zero_request}
use jsonrpc.Message.Response.{Response, zero_response}
use jsonrpc.Message.Codec.{
  Objects, Member, ◌>>=◌, Reading, read_members, finish, read_text, read_code,
}

-- A member that may be left out.
abbrev pub member_unless : Bool → Bytes → Outcome Bytes → Outcome (List Member)
member_unless true name d = ok []
member_unless false name d = d >>= λ m. ok ((name, m) ∷ [])

-- The members of a Request: version and method always, parameters and ID unless they are zero.
unfoldable pub request_members : Json → Request → Outcome (List Member)
unfolding Version.marshal_json Params.marshal_json params_is_zero Id.marshal_json is_zero
request_members j r = do
  v ← Version.marshal_json j r.jsonrpc_version
  m ← j.marshal (text r.method)
  ps ← member_unless (params_is_zero r.params) (codes "params") (Params.marshal_json j r.params)
  is ← member_unless (is_zero r.id) (codes "id") (Id.marshal_json j r.id)
  ok ((codes "jsonrpc", v) ∷ (codes "method", m) ∷ ps ++ is)

unfoldable pub write_request : Json → Objects → Request → Outcome Bytes
unfolding request_members
write_request j o r = request_members j r >>= λ ms. ok (o.write ms)

-- One member of an object is read into a Request; a member of another name is skipped.
unfoldable pub read_request_member :
    Json → Objects → Member → Reading Request → Outcome (Reading Request)
unfolding Version.unmarshal_json Params.unmarshal_json Id.unmarshal_json read_text
read_request_member j o (name, d) (r, saved) =
    if o.matches name (codes "jsonrpc")
    then Version.unmarshal_json j d >>= (λ v. ok (record r { jsonrpc_version = v }, saved))
    else if o.matches name (codes "method")
    then ok (read_text j d (λ s. record r { method = s }) (r, saved))
    else if o.matches name (codes "params")
    then Params.unmarshal_json j d >>= (λ p. ok (record r { params = p }, saved))
    else if o.matches name (codes "id")
    then Id.unmarshal_json j r.id d >>= (λ i. ok (record r { id = i }, saved))
    else ok (r, saved)

unfoldable pub read_request : Json → Objects → Bytes → Outcome Request
unfolding read_request_member read_members
read_request j o d =
    o.read d >>= λ ms. read_members (read_request_member j o) ms (zero_request, none) >>= finish

-- The members of an Error: code and message always, data unless it is zero.
unfoldable pub error_members : Json → Objects → Error → Outcome (List Member)
unfolding marshal_json_data data_is_zero
error_members j o e = do
  m ← j.marshal (text e.message)
  ds ← member_unless (data_is_zero e.data_field) (codes "data") (marshal_json_data j e.data_field)
  ok ((codes "code", o.write_int e.code) ∷ (codes "message", m) ∷ ds)

unfoldable pub write_error : Json → Objects → Error → Outcome Bytes
unfolding error_members
write_error j o e = error_members j o e >>= λ ms. ok (o.write ms)

-- One member of an object is read into the struct `tmp` of UnmarshalJSON.
unfoldable pub read_error_member : Json → Objects → Member → Reading Error → Outcome (Reading Error)
unfolding unmarshal_json_data read_text read_code
read_error_member j o (name, d) (e, saved) =
    if o.matches name (codes "data")
    then unmarshal_json_data j d >>= (λ x. ok (record e { data_field = x }, saved))
    else if o.matches name (codes "message")
    then ok (read_text j d (λ s. record e { message = s }) (e, saved))
    else if o.matches name (codes "code")
    then ok (read_code o d (λ n. record e { code = n }) (e, saved))
    else ok (e, saved)

-- UnmarshalJSON of an Error. All fields of the receiver are replaced.
unfoldable pub unmarshal_json_error : Json → Objects → Bytes → Outcome Error
unfolding read_error_member read_members
unmarshal_json_error j o d = o.read d >>= λ ms.
    read_members (read_error_member j o) ms (no_error, none) >>= finish >>= λ e.
    ok (record e { present = true })

-- The members of a Response: version and ID always, result and error unless they are zero.
unfoldable pub response_members : Json → Objects → Response → Outcome (List Member)
unfolding Version.marshal_json marshal_json_data data_is_zero write_error error_is_zero
    Id.marshal_json
response_members j o r = do
  v ← Version.marshal_json j r.jsonrpc_version
  rs ← member_unless (data_is_zero r.result) (codes "result") (marshal_json_data j r.result)
  es ← member_unless (error_is_zero r.error) (codes "error") (write_error j o r.error)
  i ← Id.marshal_json j r.id
  ok ((codes "jsonrpc", v) ∷ (rs ++ es) ++ (codes "id", i) ∷ [])

unfoldable pub write_response : Json → Objects → Response → Outcome Bytes
unfolding response_members
write_response j o r = response_members j o r >>= λ ms. ok (o.write ms)

-- One member of an object is read into a Response.
unfoldable pub read_response_member :
    Json → Objects → Member → Reading Response → Outcome (Reading Response)
unfolding Version.unmarshal_json unmarshal_json_data unmarshal_json_error Id.unmarshal_json
read_response_member j o (name, d) (r, saved) =
    if o.matches name (codes "jsonrpc")
    then Version.unmarshal_json j d >>= (λ v. ok (record r { jsonrpc_version = v }, saved))
    else if o.matches name (codes "result")
    then unmarshal_json_data j d >>= (λ v. ok (record r { result = v }, saved))
    else if o.matches name (codes "error")
    then unmarshal_json_error j o d >>= (λ e. ok (record r { error = e }, saved))
    else if o.matches name (codes "id")
    then Id.unmarshal_json j r.id d >>= (λ i. ok (record r { id = i }, saved))
    else ok (r, saved)

unfoldable pub read_response : Json → Objects → Bytes → Outcome Response
unfolding read_response_member read_members
read_response j o d =
    o.read d >>= λ ms. read_members (read_response_member j o) ms (zero_response, none) >>= finish
