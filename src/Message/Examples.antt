-- ===== src/Message/Examples.antt =====
-- Concrete runs with a small JSON library.
use jsonrpc.Base.{pos, true, ◌≡◌, refl, codes}
use jsonrpc.Value.{raw}
use jsonrpc.Failure.{ok}
use jsonrpc.ParseInt.{parse_int}
use jsonrpc.Json.{int64, number}
use jsonrpc.Message.Id as Ids
use jsonrpc.Message.Id.{MessageId, new_id, zero_id, equal}
use jsonrpc.Message.Id.Equal.{equal_lem}
use jsonrpc.Message.Id.Coding.{unmarshal-marshal}
use jsonrpc.Message.Response.{Response, zero_response}
use jsonrpc.Message.SmallJson.{small_json, small_json-IsLossless}

-- The integer 1 as an int64 and as the text of a number.
abbrev one : MessageId
one = record { value = int64 (pos 1); present = true }

abbrev one_text : MessageId
one_text = record { value = number (codes "1"); present = true }

equal_lem_example : equal one one_text ≡ true
unfolding parse_int
equal_lem_example = equal_lem one one_text

unmarshal-marshal_example :
    (id : MessageId) × (Ids.unmarshal_json small_json zero_id (codes "7") ≡ ok id)
    × (equal (new_id (int64 (pos 7))) id ≡ true)
unfolding Ids.marshal_json new_id
unmarshal-marshal_example =
    unmarshal-marshal small_json (int64 (pos 7)) (codes "7") small_json-IsLossless tt refl

-- A response with an error whose data is the raw message 5.
abbrev refusal : Response
refusal = record zero_response {
  id = one;
  error = record {
    present = true;
    code = pos 5;
    message = codes "no";
    data_field = record { value = raw (codes "5"); present = true };
  };
}
