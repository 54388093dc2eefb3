-- ===== src/Http/Bridge.antt =====
-- What Decode of a bridge gives after Encode.
use jsonrpc.Base.{false, none, some, [], Bytes, ◌≡◌, refl, sym, ap, ◌∙◌}
use jsonrpc.Failure.{GoError, Outcome, ok, fail, sentinel, http_response}
use jsonrpc.Http.{HttpBridge, HttpResponse, encode, decode, with_status, post}

abbrev blank : HttpBridge
blank = record {
  resp_status = [];
  resp_buffer = [];
  resp_code = 0;
  closed = false;
  resp_json = false;
}

encode-blank :
    (h : HttpBridge) (marshaled : Outcome Bytes) (do_post : Bytes → Outcome HttpResponse)
    → h.closed ≡ false
    → encode h marshaled do_post ≡ post blank marshaled do_post
unfolding encode
encode-blank h marshaled do_post e = rw e refl

-- A bridge that is not closed keeps nothing from one exchange to the next: what Encode leaves and
-- returns does not depend on what was received before.
pub encode-fresh :
    (h k : HttpBridge) (marshaled : Outcome Bytes) (do_post : Bytes → Outcome HttpResponse)
    → h.closed ≡ false
    → k.closed ≡ false
    → encode h marshaled do_post ≡ encode k marshaled do_post
encode-fresh h k marshaled do_post eh ek =
    encode-blank h marshaled do_post eh ∙ sym (encode-blank k marshaled do_post ek)

-- The request was not sent, or no response came.
abbrev pub Unanswered : Outcome Bytes → (Bytes → Outcome HttpResponse) → GoError → Type 0
Unanswered (fail d) do_post e = d ≡ e
Unanswered (ok m) do_post e = do_post m ≡ fail e

post-Unanswered {ℓ} :
    {V : Type ℓ} (marshaled : Outcome Bytes) (do_post : Bytes → Outcome HttpResponse)
    (into : Bytes → Outcome V) (e : GoError)
    → Unanswered marshaled do_post e
    → ((post blank marshaled do_post).1 ≡ some e)
      × (decode (post blank marshaled do_post).0 none into
          ≡ fail (with_status (sentinel http_response) []))
unfolding post decode
post-Unanswered (fail d) do_post into e u = (ap some u, refl)
post-Unanswered (ok m) do_post into e u = rw u (refl, refl)

-- Where a bridge that is not closed has sent no request, or got no response, Encode returns the error, and
-- Decode fails with an ErrHTTPResponse without a status, whatever was received before.
pub decode-encode {ℓ} :
    {V : Type ℓ} (h : HttpBridge) (marshaled : Outcome Bytes)
    (do_post : Bytes → Outcome HttpResponse) (into : Bytes → Outcome V) (e : GoError)
    → h.closed ≡ false
    → Unanswered marshaled do_post e
    → ((encode h marshaled do_post).1 ≡ some e)
      × (decode (encode h marshaled do_post).0 none into
          ≡ fail (with_status (sentinel http_response) []))
decode-encode h marshaled do_post into e eh u =
    rw (encode-blank h marshaled do_post eh) (post-Unanswered marshaled do_post into e u)
