-- ===== src/Stream/Shims.antt =====
-- shims.go: a Decoder and an Encoder in the place of a PacketDecoder and a PacketEncoder.
use jsonrpc.Base.{Option, none, some, Bytes}
use jsonrpc.Failure.{GoError}

-- DecodeFrom of a decoderShim: there is no address.
unfoldable pub decode_from {ℓ κ} :
    {S : Type ℓ} {V : Type κ}
    → (S → S × Option V × Option GoError)
    → S
    → S × Option Bytes × Option V × Option GoError
decode_from decode s = let (t, v, err) = decode s in (t, none, v, err)

-- Close of a decoderShim and of an encoderShim, for a Close that is there or not.
unfoldable pub close : Option (Option GoError) → Option GoError
close none = none
close (some err) = err

-- EncodeTo of an encoderShim: the address is not used.
unfoldable pub encode_to {ℓ κ} :
    {S : Type ℓ} {V : Type κ}
    → (S → V → S × Option GoError)
    → S
    → V
    → Option Bytes
    → S × Option GoError
encode_to encode s v addr = encode s v
