-- ===== src/Transport/Timed.antt =====
-- The variants of a transport client's methods that derive a context with a timeout.
use jsonrpc.Base.{ℤ, is_positive, Bool, true, false, Option, none, some, List, Bytes, if◌then◌else◌}
use jsonrpc.Failure.{GoError, Outcome, sentinel, deadline_exceeded}
use jsonrpc.Message.Request.{Request, Notification}
use jsonrpc.Message.Response.{Response}
use jsonrpc.Transport.{
  TransportClient, call_request, call_batch, call_raw, notify, notify_batch, notify_raw,
}

-- Err of a context that context.WithTimeout derives: that of the given context, or, for a timeout that is
-- not above 0 and once the time is up, the error of a deadline that is past.
unfoldable pub derived_err : Option GoError → ℤ → Bool → Option GoError
derived_err (some e) timeout late = some e
derived_err none timeout true = some (sentinel deadline_exceeded)
derived_err none timeout false =
    if is_positive timeout then none else some (sentinel deadline_exceeded)

module _ {ℓ} {S : Type ℓ} (c : TransportClient S) where
  -- CallWithTimeout
  unfoldable pub call_with_timeout : Option GoError → ℤ → Bool → S → Request → S × Outcome Response
  unfolding call_request derived_err
  call_with_timeout ctx_err timeout late s r = call_request c (derived_err ctx_err timeout late) s r

  -- CallBatchWithTimeout
  unfoldable pub call_batch_with_timeout :
      Option GoError → ℤ → Bool → S → List Request → S × Outcome (List Response)
  unfolding call_batch derived_err
  call_batch_with_timeout ctx_err timeout late s r =
      call_batch c (derived_err ctx_err timeout late) s r

  -- CallRawWithTimeout
  unfoldable pub call_raw_with_timeout :
      Option GoError → ℤ → Bool → S → Bytes → S × Outcome Response
  unfolding call_raw derived_err
  call_raw_with_timeout ctx_err timeout late s r = call_raw c (derived_err ctx_err timeout late) s r

  -- NotifyWithTimeout
  unfoldable pub notify_with_timeout :
      Option GoError → ℤ → Bool → S → Notification → S × Option GoError
  unfolding notify derived_err
  notify_with_timeout ctx_err timeout late s n = notify c (derived_err ctx_err timeout late) s n

  -- NotifyBatchWithTimeout
  unfoldable pub notify_batch_with_timeout :
      Option GoError → ℤ → Bool → S → List Notification → S × Option GoError
  unfolding notify_batch derived_err
  notify_batch_with_timeout ctx_err timeout late s n =
      notify_batch c (derived_err ctx_err timeout late) s n

  -- NotifyRawWithTimeout
  unfoldable pub notify_raw_with_timeout :
      Option GoError → ℤ → Bool → S → Bytes → S × Option GoError
  unfolding notify_raw derived_err
  notify_raw_with_timeout ctx_err timeout late s n =
      notify_raw c (derived_err ctx_err timeout late) s n
