-- ===== src/Schemes/Agreement.antt =====
-- What a server can listen on, a client can dial.
use jsonrpc.Base.{
  Bool, true, false, Bool-cases, List, [], ◌∷◌, ◌++◌, Bytes, codes, bytes_eq, bytes_eq_iff, All,
  ◌≡◌, inl, inr, refl, sym, subst, arith, if◌then◌else◌,
}
use jsonrpc.Failure.{Outcome, ok, fail}
use jsonrpc.Schemes.{
  tcp_schemes, unix_schemes, udp_schemes, datagram_schemes, http_schemes, Uri, DialCall, dial,
  dial_http, dial_call, dial_transport, ListenCall, listen, listen_packet, listen_http, listen_call,
  listen_and_serve, is_any, trim_prefix,
}

is_any-elim {ℓ} :
    (P : Bytes → Type ℓ) (s : Bytes) (ts : List Bytes) → All P ts → is_any s ts ≡ true → P s
unfolding is_any
is_any-elim P s [] _ h = absurd (cc)
is_any-elim P s (t ∷ ts) (p, ps) h = elim (Bool-cases (bytes_eq s t)) [
  | inl e ↦ subst P (sym ((bytes_eq_iff s t).0 e)) p
  | inr e ↦ is_any-elim P s ts ps (ground arith)
]

-- The call of a client on the same URI: the same network and address, or an HTTP client.
abbrev pub Matches : Bytes → Outcome ListenCall → Outcome DialCall → Type 0
Matches t (ok (listen network addr)) o = o ≡ ok (dial network addr)
Matches t (ok (listen_packet network addr)) o = o ≡ ok (dial network addr)
Matches t (ok (listen_http host path)) o = o ≡ ok (dial_http t)
Matches t (fail e) o = Unit

module _ (t : Bytes) (uri : Uri) where
  -- What dialing gives for the same URI with another scheme.
  abbrev dialed : Bytes → Outcome DialCall
  dialed s = dial_call t (record uri { scheme = s })

  address_schemes :
      (ts : List Bytes)
      → All (λ s. dialed s ≡ ok (dial s (trim_prefix t (s ++ codes ":")))) ts
      → is_any uri.scheme ts ≡ true
      → dialed uri.scheme ≡ ok (dial uri.scheme (trim_prefix t (uri.scheme ++ codes ":")))
  address_schemes ts a h =
      is_any-elim (λ s. dialed s ≡ ok (dial s (trim_prefix t (s ++ codes ":")))) uri.scheme ts a h

  path_schemes :
      (ts : List Bytes)
      → All (λ s. dialed s ≡ ok (dial s uri.path)) ts
      → is_any uri.scheme ts ≡ true
      → dialed uri.scheme ≡ ok (dial uri.scheme uri.path)
  path_schemes ts a h = is_any-elim (λ s. dialed s ≡ ok (dial s uri.path)) uri.scheme ts a h

  whole_schemes :
      (ts : List Bytes)
      → All (λ s. dialed s ≡ ok (dial_http t)) ts
      → is_any uri.scheme ts ≡ true
      → dialed uri.scheme ≡ ok (dial_http t)
  whole_schemes ts a h = is_any-elim (λ s. dialed s ≡ ok (dial_http t)) uri.scheme ts a h

  abbrev Agrees : Outcome ListenCall → Type 0
  Agrees o = Matches t o (dialed uri.scheme)

  either_Agrees :
      (b : Bool) (x y : Outcome ListenCall)
      → (b ≡ true → Agrees x)
      → Agrees y
      → Agrees (if b then x else y)
  either_Agrees true x y f g = f refl
  either_Agrees false x y f g = g

  listen_call-Matches : Matches t (listen_call t uri) (dial_call t uri)
  unfolding listen_call dial_call
  listen_call-Matches =
      either_Agrees (is_any uri.scheme tcp_schemes) _ _
        (address_schemes tcp_schemes (refl, (refl, (refl, tt))))
        (either_Agrees (is_any uri.scheme unix_schemes) _ _ (path_schemes unix_schemes (refl, tt)) (
          either_Agrees (is_any uri.scheme udp_schemes) _ _
            (address_schemes udp_schemes (refl, (refl, (refl, tt))))
            (either_Agrees (is_any uri.scheme datagram_schemes) _ _
              (path_schemes datagram_schemes (refl, (refl, tt)))
              (either_Agrees (is_any uri.scheme http_schemes) _ _
                (whole_schemes http_schemes (refl, tt)) tt))))

-- Whatever URI ListenAndServe accepts, DialTransport accepts, and both take the same network and the
-- same address from it; an HTTP server's URI is dialed as a whole.
pub listen-dial :
    (parse : Bytes → Outcome Uri) (t : Bytes)
    → Matches t (listen_and_serve parse t) (dial_transport parse t)
unfolding listen_and_serve dial_transport
listen-dial parse t = go (parse t) refl
  where
    go :
        (o : Outcome Uri)
        → parse t ≡ o
        → Matches t (listen_and_serve parse t) (dial_transport parse t)
    go (fail e) h = rw h tt
    go (ok uri) h = rw h (listen_call-Matches t uri)
