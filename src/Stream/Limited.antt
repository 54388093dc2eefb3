-- ===== src/Stream/Limited.antt =====
-- Reading with a limit: io.LimitedReader under a JSON decoder. The JSON decoder is a parameter, given by
-- the reads that it makes; a read that blocks forever is left out.
use jsonrpc.Base.{
  ℕ, zero, suc, ◌+◌, ◌-◌, ◌≤◌, min, Option, none, some, [], Bytes, length, ◌≡◌, refl, ◌∙◌, arith,
}
use jsonrpc.Failure.{GoError, sentinel, eof}

-- What one Decode of a JSON decoder does: it reads into a buffer of a given length and goes on with
-- the bytes and the error that it gets, or it is done.
pub data Reads {ℓ} (R : Type ℓ) : Type ℓ where
  done : R → Reads R
  read : ℕ → (Bytes → Option GoError → Reads R) → Reads R

-- An io.Reader with its state. The documented contract: at most as many bytes as the buffer holds.
abbrev pub Reader {ℓ} : Type ℓ → Type ℓ
Reader S = S → ℕ → S × Bytes × Option GoError

abbrev pub IsReader {ℓ} : {S : Type ℓ} → Reader S → Type ℓ
IsReader {S} r = (s : S) (len : ℕ) → length ((r s len).1) ≤ len

-- What a run of reads leaves: the stream, the rest of the limit, the bytes drawn from the stream, and
-- the result.
pub record Run {ℓ κ} (S : Type ℓ) (R : Type κ) : Type (ℓ ⊔ κ) where
  pub stream : S
  pub left : Option ℕ
  pub drawn : ℕ
  pub result : R

module _ {ℓ} {S : Type ℓ} (r : Reader S) where
  -- One read, through io.LimitedReader if there is a limit.
  unfoldable pub read_some : S → Option ℕ → ℕ → S × Option ℕ × Bytes × Option GoError
  read_some s none len = let (t, bs, e) = r s len in (t, none, bs, e)
  read_some s (some zero) len = (s, some zero, [], some (sentinel eof))
  read_some s (some (suc n)) len =
      let (t, bs, e) = r s (min len (suc n)) in (t, some (suc n - length bs), bs, e)

  -- All reads of a Decode; `k` bytes were drawn before.
  unfoldable pub run {κ} : {R : Type κ} → Reads R → S → Option ℕ → ℕ → Run S R
  unfolding read_some
  run (done x) s left k = record { stream = s; left = left; drawn = k; result = x }
  run (read len next) s left k =
      let (t, rest, bs, e) = read_some s left len in run (next bs e) t rest (k + length bs)

  -- A run with a limit draws no more than the limit, and leaves the rest of it.
  pub run-draws {κ} :
      {R : Type κ} (p : Reads R) (s : S) (n k : ℕ)
      → IsReader r
      → (m : ℕ) × ((run p s (some n) k).left ≡ some m) × (m + (run p s (some n) k).drawn ≡ n + k)
  unfolding run
  run-draws (done x) s n k h = (n, refl, refl)
  run-draws (read len next) s zero k h =
      let (m, l, e) = run-draws (next [] (some (sentinel eof))) s zero (k + 0) h in
      (m, l, e ∙ omega arith)
  run-draws (read len next) s (suc n) k h =
      let (t, bs, e) = r s (min len (suc n)) in
      let fits = h s (min len (suc n)) in
      let (m, l, q) = run-draws (next bs e) t (suc n - length bs) (k + length bs) h in
      (m, l, q ∙ omega (arith, fits))

  -- A run without a limit has none behind it.
  pub run-unlimited {κ} : {R : Type κ} (p : Reads R) (s : S) (k : ℕ) → (run p s none k).left ≡ none
  unfolding run
  run-unlimited (done x) s k = refl
  run-unlimited (read len next) s k =
      let (t, bs, e) = r s len in run-unlimited (next bs e) t (k + length bs)
