-- ===== src/Message/Wire/Examples.antt =====
-- Requests, responses and errors in a small format.
use jsonrpc.Base.{negsuc, false, List, [], ◌∷◌, Bytes, codes, bytes_eq, ◌≡◌, refl, inr}
use jsonrpc.Value.{Error, text, new_error_with_data}
use jsonrpc.Failure.{ok}
use jsonrpc.Hint.{hint_type}
use jsonrpc.Json.{number, str}
use jsonrpc.Message.Id.{new_id}
use jsonrpc.Message.Codec.{Member}
use jsonrpc.Message.Version
use jsonrpc.Message.Request.{Request, zero_request}
use jsonrpc.Message.Response.{Response, zero_response}
use jsonrpc.Message.SmallJson.{small_json, small_json-IsLossless}
use jsonrpc.Message.Wire.{write_request, read_request, write_response, read_response}
use jsonrpc.Message.Wire.Requests.{SameRequest, read-write_request}
use jsonrpc.Message.Wire.Responses.{SameResponse, read-write_response}
use jsonrpc.Message.Wire.Lenient.{read_request-versioned}
use jsonrpc.Message.Wire.SmallObjects.{
  put_all, put_int, small_objects, small_objects-IsFaithful, get_seven, get_seven_object,
  array_written,
}

read-write_request_example :
    (s : Request) × (read_request small_json small_objects get_seven_object ≡ ok s)
    × SameRequest small_json get_seven s
unfolding write_request new_id
read-write_request_example =
    read-write_request small_json small_objects small_json-IsLossless small_objects-IsFaithful
      get_seven get_seven_object (inr array_written) tt refl

abbrev refusal : Error
unfolding new_error_with_data
refusal = new_error_with_data (negsuc 32600) (codes "none") (text (codes "x"))

abbrev refusal_object : Bytes
refusal_object =
    b'{'
    ∷ put_all (
        codes "code"
        ∷ put_int (negsuc 32600)
        ∷ codes "message"
        ∷ codes "\"none\""
        ∷ codes "data"
        ∷ codes "\"x\""
        ∷ [])

abbrev refused : Response
refused = record zero_response { error = refusal; id = new_id (str (codes "a")) }

abbrev refused_object : Bytes
refused_object =
    b'{'
    ∷ put_all (
        codes "jsonrpc"
        ∷ codes "\"2.0\""
        ∷ codes "error"
        ∷ refusal_object
        ∷ codes "id"
        ∷ codes "\"a\""
        ∷ [])

read-write_response_example :
    (s : Response) × (read_response small_json small_objects refused_object ≡ ok s)
    × SameResponse small_json refused s
unfolding write_response new_error_with_data new_id
read-write_response_example =
    read-write_response small_json small_objects small_json-IsLossless small_objects-IsFaithful
      refused refused_object tt refl

-- An object that has neither version nor method.
abbrev bare_members : List Member
bare_members = (codes "id", codes "7") ∷ []

bare_request :
    read_request small_json small_objects (b'{' ∷ put_all (codes "id" ∷ codes "7" ∷ []))
    ≡ ok (record zero_request { id = new_id (number (codes "7")) })
unfolding read_request new_id hint_type bytes_eq
bare_request = refl

read_request-versioned_example : Version.is_valid zero_request.jsonrpc_version ≡ false
unfolding bytes_eq
read_request-versioned_example =
    read_request-versioned small_json small_objects (b'{' ∷ put_all (codes "id" ∷ codes "7" ∷ []))
      bare_members (record zero_request { id = new_id (number (codes "7")) }) refl bare_request
