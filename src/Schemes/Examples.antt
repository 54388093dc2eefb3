-- ===== src/Schemes/Examples.antt =====
-- A concrete URI.
use jsonrpc.Base.{[], Bytes, codes, ◌≡◌}
use jsonrpc.Failure.{Outcome, ok}
use jsonrpc.Schemes.{Uri, dial, dial_transport, listen_and_serve, is_any, trim_prefix}
use jsonrpc.Schemes.Agreement.{listen-dial}

abbrev parse : Bytes → Outcome Uri
parse t = ok (record { scheme = codes "tcp4"; host = []; path = [] })

listen-dial_example :
    dial_transport parse (codes "tcp4:[::1]:5000") ≡ ok (dial (codes "tcp4") (codes "[::1]:5000"))
unfolding listen_and_serve is_any trim_prefix
listen-dial_example = listen-dial parse (codes "tcp4:[::1]:5000")
