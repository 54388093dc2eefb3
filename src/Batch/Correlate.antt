-- ===== src/Batch/Correlate.antt =====
-- BatchCorrelate of batch.go. The callback is a function on a state of the caller's, and answers
-- whether to go on; a nil pointer among its arguments is `none`.
pub mod Calls
pub mod Keys
use jsonrpc.Base.{
  Bool, true, false, ◌&&◌, ◌||◌, Option, none, some, List, [], ◌∷◌, int_eq, bytes_eq, if◌then◌else◌,
}
use jsonrpc.Json.{IdValue, nil, int64, number, str}
use jsonrpc.Message.Id.{MessageId}
use jsonrpc.Message.Request.{Request, request_id}
use jsonrpc.Message.Response.{Response, response_id}
use jsonrpc.Batch.{get}

-- Go's `==` on the dynamic values of an ID: the types must be the same.
unfoldable pub same_dynamic : IdValue → IdValue → Bool
unfolding bytes_eq
same_dynamic nil nil = true
same_dynamic (int64 a) (int64 b) = int_eq a b
same_dynamic (number m) (number n) = bytes_eq m n
same_dynamic (str s) (str t) = bytes_eq s t
same_dynamic _ _ = false

abbrev pub same_flag : Bool → Bool → Bool
same_flag true y = y
same_flag false true = false
same_flag false false = true

-- Go's `==` on the struct, by which it is a key of `processedResponses`.
unfoldable pub same_key : MessageId → MessageId → Bool
unfolding same_dynamic
same_key a b = same_flag a.present b.present && same_dynamic a.value b.value

-- processedResponses[id]
unfoldable pub processed : List MessageId → MessageId → Bool
processed [] id = false
processed (k ∷ ks) id = same_key k id || processed ks id

-- processedResponses[res.id()] = true, where a response was found.
abbrev pub mark : Option Response → List MessageId → List MessageId
mark none done = done
mark (some res) done = response_id res ∷ done

-- `if !correlated(req, res) { return }`
abbrev pub continue_if {ℓ} : {S : Type ℓ} → S × Bool → (S → S) → S
continue_if (s, true) k = k s
continue_if (s, false) k = s

module _ {ℓ} {S : Type ℓ} (correlated : S → Option Request → Option Response → S × Bool) where
  -- The second loop.
  report_unmatched : List MessageId → List Response → S → S
  report_unmatched done [] s = s
  report_unmatched done (res ∷ rest) s =
      let next = report_unmatched done rest in
      if processed done (response_id res)
      then next s
      else continue_if (correlated s none (some res)) next

  -- The first loop, and the second behind it.
  report_requests : List Request → List Response → List MessageId → S → S
  unfolding report_unmatched
  report_requests [] responses done s = report_unmatched done responses s
  report_requests (req ∷ rest) responses done s =
      let res = get response_id responses (request_id req) in
      continue_if (correlated s (some req) res) (report_requests rest responses (mark res done))

  -- BatchCorrelate
  unfoldable pub batch_correlate : List Request → List Response → S → S
  unfolding report_requests
  batch_correlate requests responses s = report_requests requests responses [] s
