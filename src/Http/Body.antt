-- ===== src/Http/Body.antt =====
-- The body of a request in ServeHTTP of httphandler.go: http.MaxBytesReader around it where MaxBytes is above 0.
use jsonrpc.Base.{
  ℕ, zero, suc, ◌+◌, ◌-◌, min, leb, ℤ, is_positive, if◌then◌else◌, Option, none, some, [], ◌∷◌,
  Bytes, length,
}
use jsonrpc.Failure.{GoError, max_bytes}
use jsonrpc.Stream.Limited.{Reader}
use jsonrpc.Stream.Decoder.{amount}

-- The body: what it reads from, the bytes that may still be read, nothing for no limit, and the error that it
-- has given, which it gives again.
pub record Body {ℓ} (S : Type ℓ) : Type ℓ where
  pub source : S
  pub left : Option ℕ
  pub stopped : Option GoError

-- The body that the decoder of a request reads.
unfoldable pub request_body {ℓ} : {S : Type ℓ} → ℤ → S → Body S
request_body n s =
    if is_positive n
    then record { source = s; left = some (amount n); stopped = none }
    else record { source = s; left = none; stopped = none }

abbrev first : ℕ → Bytes → Bytes
first zero bs = []
first (suc n) [] = []
first (suc n) (c ∷ bs) = c ∷ first n bs

-- Behind the read of the source, of at most one byte more than may be read.
within {ℓ} : {S : Type ℓ} → ℕ → S × Bytes × Option GoError → Body S × Bytes × Option GoError
within n (t, bs, e) =
    if leb (length bs) n
    then (record { source = t; left = some (n - length bs); stopped = e }, bs, e)
    else (
      record { source = t; left = some 0; stopped = some max_bytes },
      first n bs,
      some max_bytes,
    )

unlimited {ℓ} : {S : Type ℓ} → S × Bytes × Option GoError → Body S × Bytes × Option GoError
unlimited (t, bs, e) = (record { source = t; left = none; stopped = none }, bs, e)

-- Read of the body.
body_read {ℓ} :
    {S : Type ℓ}
    → Reader S
    → Body S
    → Option ℕ
    → Option GoError
    → ℕ
    → Body S × Bytes × Option GoError
unfolding within unlimited
body_read r b none stopped len = unlimited (r b.source len)
body_read r b (some n) (some e) len = (b, [], some e)
body_read r b (some n) none zero = (b, [], none)
body_read r b (some n) none (suc len) = within n (r b.source (min (suc len) (n + 1)))

unfoldable pub read_body {ℓ} : {S : Type ℓ} → Reader S → Reader (Body S)
unfolding body_read
read_body r b len = body_read r b b.left b.stopped len
