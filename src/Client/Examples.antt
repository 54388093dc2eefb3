-- ===== src/Client/Examples.antt =====
-- A concrete client.
use jsonrpc.Base.{pos, List, [], ◌∷◌, map, Bytes, codes, ◌≡◌, arith}
use jsonrpc.Value.{Any, nil, raw, text}
use jsonrpc.Failure.{Outcome, ok, fail, opaque}
use jsonrpc.Json.{Json}
use jsonrpc.Message.Params.{no_params}
use jsonrpc.Message.Request.{request_id}
use jsonrpc.Client.{Argument, given, any_value, Client, make_params_from_any}
use jsonrpc.Client.Ids.{Apart, numbered, add_all, add_all-Apart}

-- A raw message is written as it is, and nothing else.
abbrev write : Any → Outcome Bytes
write (raw m) = ok m
write _ = fail (opaque (codes "unsupported"))

abbrev json : Json
json = record {
  marshal = write;
  marshal_id = λ v. fail (opaque (codes "unsupported"));
  unmarshal_string = ok;
  unmarshal_number = ok;
  unmarshal_raw = ok;
}

abbrev no_name : Any → Bytes
no_name v = []

-- The counter is about to wrap.
abbrev late : Client (Unit {0})
late = record { pool = tt; id = 4294967294; default_timeout = pos 0 }

abbrev three_calls : List (Bytes × Argument)
three_calls =
    (codes "a", any_value nil)
    ∷ (codes "b", any_value (raw (codes "[1]")))
    ∷ (codes "c", any_value (text (codes "no")))
    ∷ (codes "d", given no_params)
    ∷ []

add_all-Apart_example :
    (map request_id (add_all json no_name late [] three_calls).1 ≡ numbered 4294967294 3)
    × Apart (map request_id (add_all json no_name late [] three_calls).1)
unfolding make_params_from_any
add_all-Apart_example = add_all-Apart json no_name late three_calls (omega arith) (omega arith)
