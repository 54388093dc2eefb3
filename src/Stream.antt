-- ===== src/Stream.antt =====
-- decoder.go, encoder.go, packetdecoder.go, packetencoder.go, deadliner.go and shims.go: JSON values on
-- streams and in packets. This file holds what Decode, Encode, DecodeFrom and EncodeTo share: a
-- context that fires interrupts them by a past deadline or by closing the stream.
pub mod Frame
pub mod Limited
pub mod Decoder
pub mod Encoder
pub mod Packets
pub mod Shims
pub mod Serving
pub mod Ending
pub mod EndingExamples
mod Examples
use jsonrpc.Base.{
  ℤ, is_positive, Bool, true, false, if◌then◌else◌, Option, none, some, List, [], ◌∷◌, ◌++◌, ◌≡◌,
  ◌⊎◌,
}
use jsonrpc.Failure.{GoError, errors_join}

-- What the stream offers besides reading or writing: a DeadlineReader or DeadlineWriter is an io.Closer
-- that takes deadlines.
pub data Support : Type 0 where
  neither closes deadlines : Support

-- Calls of the context package and of the stream's methods, in order.
pub data Event : Type 0 where
  with_timeout : ℤ → Event
  with_cancel clear_deadline past_deadline close : Event

-- What happens around one call: the error of the SetReadDeadline or SetWriteDeadline that clears the
-- deadline, whether the function of AfterFunc runs, and what Err of the derived context gives behind
-- that.
pub record Interruption : Type 0 where
  pub reset : Option GoError
  pub fired : Bool
  pub ctx_err : Option GoError

-- Documented behaviour of AfterFunc: its function runs only if the context is done.
abbrev pub IsDone : Interruption → Type 0
IsDone i = (i.fired ≡ false) ⊎ ((e : GoError) × (i.ctx_err ≡ some e))

-- The error of clearing the deadline, where there is one to clear.
abbrev pub prepare : Support → Interruption → Option GoError
prepare deadlines i = i.reset
prepare closes i = none
prepare neither i = none

abbrev pub clearing : Support → List Event
clearing deadlines = clear_deadline ∷ []
clearing closes = []
clearing neither = []

-- The derived context of a call.
abbrev pub derive : ℤ → Event
derive t = if is_positive t then with_timeout t else with_cancel

-- The function of AfterFunc.
abbrev pub interrupted : Support → Bool → List Event
interrupted deadlines true = past_deadline ∷ []
interrupted closes true = close ∷ []
interrupted neither true = []
interrupted _ false = []

unfoldable pub join_context : Option GoError → Option GoError → Option GoError
unfolding errors_join
join_context none ctx_err = none
join_context (some e) ctx_err = errors_join (some e ∷ ctx_err ∷ [])

-- The frame of cancelDecode and cancelEncode around a call that leaves `y` and an error; `x` is left
-- where the deadline cannot be cleared, and the call is not made.
unfoldable pub frame {ℓ} :
    {X : Type ℓ}
    → Option GoError
    → Support
    → ℤ
    → Interruption
    → X
    → X × Option GoError
    → X × Option GoError × List Event
unfolding join_context
frame (some e) support t i x (y, err) = (x, some e, clear_deadline ∷ [])
frame none support t i x (y, err) =
    (y, join_context err i.ctx_err, clearing support ++ derive t ∷ interrupted support i.fired)
