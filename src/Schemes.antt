-- ===== src/Schemes.antt =====
-- dial.go and server.go: which transport a URI's scheme chooses. Parsing a URI is a parameter, and
-- what the chosen function does with the network is not modelled.
pub mod Agreement
mod Examples
use jsonrpc.Base.{
  ℕ, Bool, true, false, ◌&&◌, ◌||◌, Option, none, some, List, [], ◌∷◌, ◌++◌, Bytes, codes, bytes_eq,
  ◌==◌, if◌then◌else◌,
}
use jsonrpc.Failure.{GoError, Outcome, ok, fail, sentinel, unknown_scheme}

-- The parts of a url.URL that are read.
pub record Uri : Type 0 where
  pub scheme : Bytes
  pub host : Bytes
  pub path : Bytes

-- strings.HasPrefix, strings.TrimPrefix and strings.HasSuffix for one character.
unfoldable pub has_prefix : Bytes → Bytes → Bool
has_prefix s [] = true
has_prefix [] (c ∷ p) = false
has_prefix (d ∷ s) (c ∷ p) = d == c && has_prefix s p

unfoldable pub drop_prefix : Bytes → Bytes → Option Bytes
drop_prefix s [] = some s
drop_prefix [] (c ∷ p) = none
drop_prefix (d ∷ s) (c ∷ p) = let rest = drop_prefix s p in if d == c then rest else none

or_whole : Bytes → Option Bytes → Bytes
or_whole s none = s
or_whole s (some t) = t

unfoldable pub trim_prefix : Bytes → Bytes → Bytes
unfolding or_whole drop_prefix
trim_prefix s p = or_whole s (drop_prefix s p)

unfoldable pub ends_with : Bytes → ℕ → Bool
ends_with [] c = false
ends_with (d ∷ []) c = d == c
ends_with (d ∷ e ∷ s) c = ends_with (e ∷ s) c

-- The calls that DialTransport ends in: dial, dialTLS by its network, and dialHTTP.
pub data DialCall : Type 0 where
  dial : Bytes → Bytes → DialCall
  dial_tls : Bytes → Bytes → DialCall
  dial_http : Bytes → DialCall

-- dialTLS: the network that it dials.
unfoldable pub tls_network : Bytes → Bytes
unfolding ends_with
tls_network network =
    if ends_with network b'6'
    then codes "tcp6"
    else if ends_with network b'4'
    then codes "tcp4"
    else codes "tcp"

unfoldable pub dial_call : Bytes → Uri → Outcome DialCall
unfolding has_prefix trim_prefix tls_network
dial_call dest uri =
    if has_prefix uri.scheme (codes "tcp") || has_prefix uri.scheme (codes "udp")
    then ok (dial uri.scheme (trim_prefix dest (uri.scheme ++ codes ":")))
    else if has_prefix uri.scheme (codes "tls")
    then ok (dial_tls (tls_network uri.scheme) (trim_prefix dest (uri.scheme ++ codes ":")))
    else if has_prefix uri.scheme (codes "unix")
    then ok (dial uri.scheme uri.path)
    else if has_prefix uri.scheme (codes "http")
    then ok (dial_http dest)
    else fail (sentinel unknown_scheme)

-- DialTransport
unfoldable pub dial_transport : (Bytes → Outcome Uri) → Bytes → Outcome DialCall
unfolding dial_call
dial_transport parse dest = dial_parsed dest (parse dest)
  where
    dial_parsed : Bytes → Outcome Uri → Outcome DialCall
    dial_parsed dest (fail e) = fail e
    dial_parsed dest (ok uri) = dial_call dest uri

-- The calls that ListenAndServe ends in.
pub data ListenCall : Type 0 where
  listen : Bytes → Bytes → ListenCall
  listen_packet : Bytes → Bytes → ListenCall
  listen_http : Bytes → Bytes → ListenCall

-- The schemes of the switch of ListenAndServe, case by case.
abbrev pub tcp_schemes : List Bytes
tcp_schemes = codes "tcp" ∷ codes "tcp4" ∷ codes "tcp6" ∷ []

abbrev pub unix_schemes : List Bytes
unix_schemes = codes "unix" ∷ []

abbrev pub udp_schemes : List Bytes
udp_schemes = codes "udp" ∷ codes "udp4" ∷ codes "udp6" ∷ []

abbrev pub datagram_schemes : List Bytes
datagram_schemes = codes "unixgram" ∷ codes "unixpacket" ∷ []

abbrev pub http_schemes : List Bytes
http_schemes = codes "http" ∷ []

-- Is the scheme one of a case?
unfoldable pub is_any : Bytes → List Bytes → Bool
unfolding bytes_eq
is_any s [] = false
is_any s (t ∷ ts) = bytes_eq s t || is_any s ts

abbrev pub or_root : Bytes → Bytes
or_root [] = codes "/"
or_root (c ∷ p) = c ∷ p

unfoldable pub listen_call : Bytes → Uri → Outcome ListenCall
unfolding is_any trim_prefix
listen_call uri_text uri =
    if is_any uri.scheme tcp_schemes
    then ok (listen uri.scheme (trim_prefix uri_text (uri.scheme ++ codes ":")))
    else if is_any uri.scheme unix_schemes
    then ok (listen uri.scheme uri.path)
    else if is_any uri.scheme udp_schemes
    then ok (listen_packet uri.scheme (trim_prefix uri_text (uri.scheme ++ codes ":")))
    else if is_any uri.scheme datagram_schemes
    then ok (listen_packet uri.scheme uri.path)
    else if is_any uri.scheme http_schemes
    then ok (listen_http uri.host (or_root uri.path))
    else fail (sentinel unknown_scheme)

-- ListenAndServe
unfoldable pub listen_and_serve : (Bytes → Outcome Uri) → Bytes → Outcome ListenCall
unfolding listen_call
listen_and_serve parse uri_text = listen_parsed uri_text (parse uri_text)
  where
    listen_parsed : Bytes → Outcome Uri → Outcome ListenCall
    listen_parsed uri_text (fail e) = fail e
    listen_parsed uri_text (ok uri) = listen_call uri_text uri
