-- ===== src/Exchange.antt =====
-- A request over the wire and its response back: what request.go and response.go write and read at both
-- ends, and handleRequest of rpcserver.go between them.
pub mod Refused
pub mod Connection
mod Examples
use jsonrpc.Base.{
  Bool, true, false, not, ◌&&◌, ◌||◌, Option, none, some, List, [], ◌∷◌, Bytes, ◌≡◌, ◌⊎◌, inl, inr,
  refl, sym, ap, subst, ◌∙◌, arith,
}
use jsonrpc.Value.{Any, raw, no_data, no_error, new_result}
use jsonrpc.Failure.{GoError, Outcome, ok, fail, error_is_zero}
use jsonrpc.Json.{Json, IsLossless, IdValue}
use jsonrpc.Handler.{Context, HandlerResult, HandlerOutcome, returns}
use jsonrpc.Message.Id.{MessageId, equal, is_zero}
use jsonrpc.Message.Id.Equal.{equal_lem, same_value}
use jsonrpc.Message.Id.Coding.{IsEncodable}
use jsonrpc.Message.Id.Wire.{is_wire, equal-wire, IsEncodable-wire}
use jsonrpc.Message.Codec.{Objects, IsFaithful, ok_inj}
use jsonrpc.Message.Request.{Request, is_notification, response_with_result}
use jsonrpc.Message.Response.{Response, is_error}
use jsonrpc.Message.Wire.{write_request, read_request, write_response, read_response}
use jsonrpc.Message.Wire.Requests.{CanSend, SameRequest, read-write_request}
use jsonrpc.Message.Wire.Errors.{SameData}
use jsonrpc.Message.Wire.Responses.{SameFailure, SameResponse, read-write_response}
use jsonrpc.Rpc.{RpcServer, Reply, response}
use jsonrpc.Rpc.Handle.{handle_request, handle_outcome, after_handler, reply_of_result, or_null}
use jsonrpc.Rpc.Handle.Laws.{decoded-request}

pub Outcome-cases {ℓ} :
    {A : Type ℓ} (x : Outcome A) → ((e : GoError) × (x ≡ fail e)) ⊎ ((a : A) × (x ≡ ok a))
Outcome-cases (ok a) = inr (a, refl)
Outcome-cases (fail e) = inl (e, refl)

-- What the client gets: a response that is no error, with the ID of its request and the result as a raw
-- message. Only where the server cannot write its response is there none.
abbrev pub IsAnswered : Json → Objects → Request → Any → Response → Type 0
IsAnswered j o r v rep =
    ((e : GoError) × (write_response j o rep ≡ fail e))
    ⊎ ((b m : Bytes) × (t : Response) × (write_response j o rep ≡ ok b)
        × (read_response j o b ≡ ok t)
        × (equal r.id t.id ≡ true)
        × (is_error t ≡ false)
        × (j.marshal v ≡ ok m)
        × (t.result ≡ record { value = raw m; present = true }))

module _ (j : Json) (o : Objects) (l : IsLossless j) (f : IsFaithful j o) where
  same_value-of : (a b : MessageId) → equal a b ≡ true → same_value a.value b.value ≡ true
  same_value-of a b h = ground (arith, equal_lem a b)

  result_read :
      (v : Any) (t : Response)
      → SameData j (new_result v) t.result
      → (m : Bytes) × (j.marshal v ≡ ok m) × (t.result ≡ record { value = raw m; present = true })
  unfolding new_result
  result_read v t (inl (h, _)) = cc
  result_read v t (inr (m, p, h, e)) = (m, h, e)

  error_read : (t : Response) → SameFailure j no_error t.error → is_error t ≡ false
  unfolding is_error error_is_zero
  error_read t (inl (h, e)) = rw e refl
  error_read t (inr (h, p, e)) = cc

  pub id-IsEncodable :
      (r s : Request)
      → IsEncodable r.id.value
      → is_wire s.id.value ≡ true
      → equal r.id s.id ≡ true
      → IsEncodable s.id.value
  id-IsEncodable r s en w q =
      IsEncodable-wire r.id.value s.id.value en w (same_value-of r.id s.id q)

  pub id_present : (a b : MessageId) → equal a b ≡ true → b.present ≡ true
  id_present a b h = ground (arith, equal_lem a b)

  reply_read :
      (r s : Request) (v : Any)
      → IsEncodable r.id.value
      → is_wire s.id.value ≡ true
      → equal r.id s.id ≡ true
      → IsAnswered j o r v (response_with_result s v)
  unfolding response_with_result
  reply_read r s v en w q = elim (Outcome-cases (write_response j o (response_with_result s v))) [
    | inl (e, x) ↦ inl (e, x)
    | inr (b, x) ↦
        let (t, rt, same) =
          read-write_response j o l f (response_with_result s v) b (id-IsEncodable r s en w q) x in
        let (ver, res, err, pres, eqt, wt) = same in
        let (m, hm, hr) = result_read v t res in
        inr (
          b,
          m,
          t,
          x,
          rt,
          equal-wire r.id s.id t.id w wt q (eqt ∙ id_present r.id s.id q),
          error_read t err,
          hm,
          hr,
        )
  ]

  replied :
      (rp : RpcServer) (s : Request) (v : Any)
      → is_notification s ≡ false
      → (handle_outcome rp s (returns (HandlerResult.result v) none)).0
        ≡ some (response (response_with_result s (or_null v)))
  unfolding handle_outcome
  replied rp s v h = rw h refl

  -- A request with an ID that is written by one end, handled by a server that reads it, and answered by a
  -- handler with a result, comes back as a response that is no error and has an equal ID and the
  -- result, null standing for nil, as a raw message, unless the server cannot write its response. The
  -- parameters are none or are written as an object or an array, and the ID is not the empty
  -- json.Number.
  pub handle_request-answered :
      (rp : RpcServer) (ctx : Context) (r : Request) (d : Bytes) (v : Any)
      → CanSend j r.params
      → IsEncodable r.id.value
      → r.id.present ≡ true
      → write_request j o r ≡ ok d
      → rp.decoder.unmarshal_request d ≡ read_request j o d
      → ((s : Request)
          → SameRequest j r s
          → rp.handler ctx s ≡ returns (HandlerResult.result v) none)
      → (rep : Response) × ((handle_request rp ctx d).0 ≡ some (response rep))
        × IsAnswered j o r (or_null v) rep
  handle_request-answered rp ctx r d v can en pres wr dec hand =
      let (s, rs, same) = read-write_request j o l f r d can en wr in
      let (me, ver, par, note, eqs, ws) = same in
      (
        response_with_result s (or_null v),
        rw (decoded-request rp ctx d s (dec ∙ rs), hand s same)
            (replied rp s v (note ∙ is_request r pres)),
        reply_read r s (or_null v) en ws (eqs ∙ pres),
      )
    where
      is_request : (r : Request) → r.id.present ≡ true → is_notification r ≡ false
      is_request r h = unfold is_notification is_zero in rw h refl
