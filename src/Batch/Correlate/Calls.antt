-- ===== src/Batch/Correlate/Calls.antt =====
-- Which calls BatchCorrelate of batch.go makes.
use mathlib.Core.Path.{fun_ext}
use jsonrpc.Base.{
  Bool, true, false, Bool-cases, ◌||◌, Option, none, some, List, [], ◌∷◌, ◌++◌, map, ◌≡◌, inl, inr,
  if◌then◌else◌, refl, ap, ◌∙◌, arith,
}
use jsonrpc.Message.Id.{MessageId}
use jsonrpc.Message.Request.{Request, request_id}
use jsonrpc.Message.Response.{Response, response_id}
use jsonrpc.Batch.Correlate.{
  processed, mark, continue_if, report_unmatched, report_requests, batch_correlate,
}
use jsonrpc.Batch.Correlate.Keys.{id_eq, holds, same_key-holds, first_equal, get-first_equal}

abbrev pub Call : Type 0
Call = Option Request × Option Response

-- Feed a list of calls to the callback, and stop behind the first that it answers with false.
abbrev pub run_calls {ℓ} :
    {S : Type ℓ} → (S → Option Request → Option Response → S × Bool) → List Call → S → S
run_calls f [] s = s
run_calls f ((req, res) ∷ calls) s = elim (f s req res).1 [
  | true ↦ run_calls f calls (f s req res).0
  | false ↦ (f s req res).0
]

-- A request stands with the first response of an equal ID.
abbrev pub pair_up : List Response → Request → Call
pair_up responses req = (some req, first_equal req.id responses)

-- Is this the response of a request, by its ID as a value?
abbrev pub has_id : MessageId → Option Response → Bool
has_id id none = false
has_id id (some res) = holds (id_eq res.id id)

abbrev pub claimed : List Request → List Response → MessageId → Bool
claimed [] responses id = false
claimed (req ∷ rest) responses id =
    has_id id (first_equal req.id responses) || claimed rest responses id

-- The responses that no request has.
abbrev pub left_over : (MessageId → Bool) → List Response → List Call
left_over taken [] = []
left_over taken (res ∷ rest) =
    let others = left_over taken rest in if taken res.id then others else (none, some res) ∷ others

-- All the calls: one for each request in order, then one for each response left over.
abbrev pub calls : List Request → List Response → List Call
calls requests responses =
    map (pair_up responses) requests ++ left_over (claimed requests responses) responses

left_over_ext :
    (p q : MessageId → Bool)
    → ((id : MessageId) → p id ≡ q id)
    → (rs : List Response) → left_over p rs ≡ left_over q rs
left_over_ext p q h rs = ap (λ t. left_over t rs) (fun_ext h)

processed-mark :
    (res : Option Response) (done : List MessageId) (id : MessageId)
    → processed (mark res done) id ≡ (has_id id res || processed done id)
unfolding processed response_id
processed-mark none done id = refl
processed-mark (some res) done id = rw (same_key-holds res.id id) refl

module _ {ℓ} {S : Type ℓ} (f : S → Option Request → Option Response → S × Bool) where
  continue_if-elim :
      (x : S × Bool) (k : S → S) → continue_if x k ≡ elim x.1 [ true ↦ k x.0 | false ↦ x.0 ]
  continue_if-elim (s, true) k = refl
  continue_if-elim (s, false) k = refl

  report_unmatched-run :
      (done : List MessageId) (responses : List Response) (s : S)
      → report_unmatched f done responses s ≡ run_calls f (left_over (processed done) responses) s
  unfolding report_unmatched response_id
  report_unmatched-run done [] s = refl
  report_unmatched-run done (res ∷ rest) s = elim (Bool-cases (processed done res.id)) [
    | inl h ↦ rw h (report_unmatched-run done rest s)
    | inr h ↦ rw h (
        ap (continue_if (f s none (some res))) (fun_ext (report_unmatched-run done rest))
        ∙ continue_if-elim (f s none (some res)) (run_calls f (left_over (processed done) rest)))
  ]

  report_requests-run :
      (requests : List Request) (responses : List Response) (done : List MessageId) (s : S)
      → report_requests f requests responses done s
        ≡ run_calls f
            (map (pair_up responses) requests
              ++ left_over (λ id. processed done id || claimed requests responses id) responses)
            s
  unfolding report_requests request_id
  report_requests-run [] responses done s =
      report_unmatched-run done responses s
      ∙ ap (λ cs. run_calls f cs s)
          (left_over_ext (processed done) (λ id. processed done id || false) (λ id. ground arith)
            responses)
  report_requests-run (req ∷ rest) responses done s =
      let res = first_equal req.id responses in
      let taken =
        λ (id : MessageId). processed done id || (has_id id res || claimed rest responses id) in
      let behind = λ (t : S).
        report_requests-run rest responses (mark res done) t
        ∙ ap (λ cs. run_calls f (map (pair_up responses) rest ++ cs) t)
            (left_over_ext (λ id. processed (mark res done) id || claimed rest responses id) taken
              (λ id. rw (processed-mark res done id) (ground arith)) responses) in
      rw (get-first_equal req.id responses) (
        ap (continue_if (f s (some req) res)) (fun_ext behind)
        ∙ continue_if-elim (f s (some req) res)
            (run_calls f (map (pair_up responses) rest ++ left_over taken responses)))

  -- BatchCorrelate makes exactly the listed calls, in that order, and stops behind the first that the callback
  -- answers with false: each request with the first response of an equal ID or with nothing, then each
  -- response whose ID is not, as a value, that of a request's response.
  pub batch_correlate-run :
      (requests : List Request) (responses : List Response) (s : S)
      → batch_correlate f requests responses s ≡ run_calls f (calls requests responses) s
  unfolding batch_correlate processed
  batch_correlate-run requests responses s = report_requests-run requests responses [] s
