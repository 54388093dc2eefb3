-- ===== src/Batch/Examples.antt =====
-- Concrete batches.
use jsonrpc.Base.{
  pos, Bool, true, false, Option, none, some, List, [], ◌∷◌, ◌++◌, codes, length, ◌≡◌, ◌⊎◌,
}
use jsonrpc.Json.{int64, number}
use jsonrpc.Message.Id.{MessageId}
use jsonrpc.Message.Request.{Request, zero_request}
use jsonrpc.Message.Response.{Response, zero_response, response_id}
use jsonrpc.Batch.{index, contains, get, delete}
use jsonrpc.Batch.Laws.{Misses, FirstMatch, lookup_cases}
use jsonrpc.Batch.Correlate.{batch_correlate}
use jsonrpc.Batch.Correlate.Calls.{Call, run_calls, calls, batch_correlate-run}

abbrev one : MessageId
one = record { value = int64 (pos 1); present = true }

abbrev one_text : MessageId
one_text = record { value = number (codes "1"); present = true }

abbrev two_text : MessageId
two_text = record { value = number (codes "2"); present = true }

abbrev two_responses : List Response
two_responses = record zero_response { id = two_text } ∷ record zero_response { id = one_text } ∷ []

lookup_cases_example :
    (Misses response_id one two_responses
      × (index response_id two_responses one ≡ none)
      × (contains response_id two_responses one ≡ false)
      × (get response_id two_responses one ≡ none)
      × (delete response_id two_responses one ≡ (none, two_responses)))
    ⊎ ((m : FirstMatch response_id one two_responses) × (index response_id two_responses one
          ≡ some (length m.pre))
        × (contains response_id two_responses one ≡ true)
        × (get response_id two_responses one ≡ some m.found)
        × (delete response_id two_responses one ≡ (some m.found, m.pre ++ m.post)))
lookup_cases_example = lookup_cases response_id two_responses one

-- A callback that keeps its calls and never stops.
abbrev collect : List Call → Option Request → Option Response → List Call × Bool
collect s req res = (s ++ (req, res) ∷ [], true)

abbrev one_request : List Request
one_request = record zero_request { method = codes "m"; id = one } ∷ []

batch_correlate-run_example :
    batch_correlate collect one_request two_responses []
    ≡ run_calls collect (calls one_request two_responses) []
batch_correlate-run_example = batch_correlate-run collect one_request two_responses []
