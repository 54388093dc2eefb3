-- ===== src/Message/Version.antt =====
-- version.go
use jsonrpc.Base.{Bool, true, Bytes, codes, bytes_eq, ◌++◌, if◌then◌else◌}
use jsonrpc.Failure.{
  GoError, Outcome, ok, fail, sentinel, wrap, and, none_left, error_text, decoding, encoding,
  wrong_protocol_version, wrap_paren,
}
use jsonrpc.Value.{text}
use jsonrpc.Json.{Json}

-- ProtocolVersion
abbrev pub protocol_version : Bytes
protocol_version = codes "2.0"

pub record Version : Type 0 where
  pub present : Bool

-- IsValid
unfoldable pub is_valid : Version → Bool
is_valid v = v.present

abbrev pub wrong_version_decode : GoError
unfolding wrap_paren
wrong_version_decode = wrap_paren (sentinel decoding) (sentinel wrong_protocol_version)

-- fmt.Errorf with two wrapped errors, the second in parentheses behind a text.
expected_string : GoError → GoError
unfolding error_text
expected_string e =
    wrap
      (error_text (sentinel decoding)
        ++ codes ": expected string \"2.0\" ("
        ++ error_text e
        ++ codes ")")
      (and (sentinel decoding) (and e none_left))

decoded : Outcome Bytes → Outcome Version
unfolding expected_string
decoded (ok s) =
    if bytes_eq s protocol_version
    then ok (record { present = true })
    else fail wrong_version_decode
decoded (fail e) = fail (expected_string e)

-- UnmarshalJSON
unfoldable pub unmarshal_json : Json → Bytes → Outcome Version
unfolding decoded
unmarshal_json j d = decoded (j.unmarshal_string d)

encoding_failed : GoError → GoError
unfolding error_text
encoding_failed e =
    wrap
      (error_text (sentinel encoding)
        ++ codes ": failed to marshal protocol version string ("
        ++ error_text e
        ++ codes ")")
      (and (sentinel encoding) (and e none_left))

encoded : Outcome Bytes → Outcome Bytes
unfolding encoding_failed
encoded (ok d) = ok d
encoded (fail e) = fail (encoding_failed e)

-- MarshalJSON: the state of the version is not read.
unfoldable pub marshal_json : Json → Version → Outcome Bytes
unfolding encoded
marshal_json j v = encoded (j.marshal (text protocol_version))
