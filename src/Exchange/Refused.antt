-- ===== src/Exchange/Refused.antt =====
-- A request over the wire whose handler fails, and its error response back.
use jsonrpc.Base.{true, false, some, Bytes, ◌≡◌, ◌⊎◌, inl, inr, refl, ◌∙◌}
use jsonrpc.Value.{Any, Error, internal_error}
use jsonrpc.Failure.{GoError, ok, fail, rpc, as_error, error_is_zero}
use jsonrpc.Json.{Json, IsLossless}
use jsonrpc.Handler.{Context, HandlerResult, HandlerOutcome, returns, panics}
use jsonrpc.Message.Id.{equal, is_zero}
use jsonrpc.Message.Id.Coding.{IsEncodable}
use jsonrpc.Message.Id.Wire.{is_wire, equal-wire}
use jsonrpc.Message.Codec.{Objects, IsFaithful}
use jsonrpc.Message.Request.{Request, is_notification, response_with_error}
use jsonrpc.Message.Response.{Response, is_error}
use jsonrpc.Message.Wire.{write_request, read_request, write_response, read_response}
use jsonrpc.Message.Wire.Requests.{CanSend, SameRequest, read-write_request}
use jsonrpc.Message.Wire.Errors.{SameError}
use jsonrpc.Message.Wire.Responses.{SameFailure, read-write_response}
use jsonrpc.Rpc.{RpcServer, response}
use jsonrpc.Rpc.Handle.{handle_request, handle_outcome}
use jsonrpc.Rpc.Handle.Laws.{decoded-request}
use jsonrpc.Exchange.{Outcome-cases, id-IsEncodable, id_present}

-- The handler returns this error, or panics, for which ErrInternalError stands.
abbrev pub Failing : HandlerOutcome → GoError → Type 0
Failing x e =
    ((v : HandlerResult) × (x ≡ returns v (some e)))
    ⊎ ((p : Any) × (x ≡ panics p) × (e ≡ rpc internal_error))

-- What the client gets: an error response with the ID of its request, and the code, the message and the data
-- of the error. Only where the server cannot write its response is there none.
abbrev pub IsRefused : Json → Objects → Request → GoError → Response → Type 0
IsRefused j o r e rep =
    ((f : GoError) × (write_response j o rep ≡ fail f))
    ⊎ ((b : Bytes) × (t : Response) × (write_response j o rep ≡ ok b)
        × (read_response j o b ≡ ok t)
        × (equal r.id t.id ≡ true)
        × (is_error t ≡ true)
        × SameError j (as_error e) t.error)

module _ (j : Json) (o : Objects) (l : IsLossless j) (f : IsFaithful j o) where
  failure_read :
      (a : Error) (t : Response)
      → a.present ≡ true
      → SameFailure j a t.error
      → (is_error t ≡ true) × SameError j a t.error
  unfolding is_error error_is_zero
  failure_read a t p (inl (q, _)) = cc
  failure_read a t p (inr (_, q, same)) = (rw q refl, same)

  refusal_read :
      (r s : Request) (e : GoError)
      → IsEncodable r.id.value
      → is_wire s.id.value ≡ true
      → equal r.id s.id ≡ true
      → (as_error e).present ≡ true
      → IsRefused j o r e (response_with_error s e)
  unfolding response_with_error
  refusal_read r s e en w q p =
      elim (Outcome-cases (write_response j o (response_with_error s e))) [
        | inl (g, x) ↦ inl (g, x)
        | inr (b, x) ↦
            let (t, rt, same) =
              read-write_response j o l f (response_with_error s e) b
                (id-IsEncodable j o l f r s en w q) x in
            let (ver, res, err, pres, eqt, wt) = same in
            let (is, sames) = failure_read (as_error e) t p err in
            inr (
              b,
              t,
              x,
              rt,
              equal-wire r.id s.id t.id w wt q (eqt ∙ id_present j o l f r.id s.id q),
              is,
              sames,
            )
      ]

  refused :
      (rp : RpcServer) (s : Request) (x : HandlerOutcome) (e : GoError)
      → is_notification s ≡ false
      → Failing x e
      → (handle_outcome rp s x).0 ≡ some (response (response_with_error s e))
  unfolding handle_outcome
  refused rp s x e h (inl (v, q)) = rw (q, h) refl
  refused rp s x e h (inr (v, q, i)) = rw (q, i) refl

  -- A request with an ID that is written by one end, handled by a server that reads it, and whose handler
  -- returns an error or panics, comes back as an error response that has an equal ID and the code, the message
  -- and the data of that error, with ErrInternalError for a panic, unless the server cannot write its response.
  -- An error that is no Error is sent as an internal error with its text as data, and the zero Error is left
  -- out. The parameters are none or are written as an object or an array, and the ID is not the empty
  -- json.Number.
  pub handle_request-IsRefused :
      (rp : RpcServer) (ctx : Context) (r : Request) (d : Bytes) (e : GoError)
      → CanSend j r.params
      → IsEncodable r.id.value
      → r.id.present ≡ true
      → write_request j o r ≡ ok d
      → rp.decoder.unmarshal_request d ≡ read_request j o d
      → (as_error e).present ≡ true
      → ((s : Request) → SameRequest j r s → Failing (rp.handler ctx s) e)
      → (rep : Response) × ((handle_request rp ctx d).0 ≡ some (response rep))
        × IsRefused j o r e rep
  unfolding is_notification is_zero
  handle_request-IsRefused rp ctx r d e can en pres wr dec p hand =
      let (s, rs, same) = read-write_request j o l f r d can en wr in
      let (me, ver, par, note, eqs, ws) = same in
      (
        response_with_error s e,
        rw (decoded-request rp ctx d s (dec ∙ rs))
            (refused rp s (rp.handler ctx s) e (note ∙ rw pres refl) (hand s same)),
        refusal_read r s e en ws (eqs ∙ pres) p,
      )
