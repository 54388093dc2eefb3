-- ===== src/Pool.antt =====
-- clientpool.go: the retry loop that all calls share, the defaults of a configuration, the sweep of
-- idle connections and Close. The pool of package puddle, the context and the connections are not
-- code of the repository: `env k` says what they answer at attempt `k`.
pub mod Retry
pub mod Sweep
pub mod Timed
pub mod Creation
mod Examples
use jsonrpc.Base.{
  ℕ, zero, suc, ◌+◌, ◌-◌, ◌*◌, ◌%◌, ◌^◌, min, max, ℤ, pos, negsuc, is_positive, Bool, true, false,
  ◌||◌, Option, none, some, List, [], ◌∷◌, Bytes, leb, ltb, ◌==◌, if◌then◌else◌,
}
use jsonrpc.Failure.{
  GoError, Outcome, ok, fail, sentinel, errors_is, errors_join, retries_exceeded, canceled,
  deadline_exceeded, eof, unexpected_eof, net_closed, os_closed,
}
use jsonrpc.Message.Request.{Request, Notification}
use jsonrpc.Message.Response.{Response}

-- The errors after which releaseMaybeRetry asks for another attempt.
unfoldable pub is_retryable : GoError → Bool
unfolding errors_is
is_retryable e =
    if errors_is canceled e || errors_is deadline_exceeded e
    then false
    else if errors_is eof e
        || errors_is unexpected_eof e
        || errors_is net_closed e
        || errors_is os_closed e
    then true
    else false

-- What happens to the connection of an attempt, by the number of the attempt.
pub data PoolEvent : Type 0 where
  acquired released destroyed : ℕ → PoolEvent

-- releaseMaybeRetry: what becomes of the connection, and whether to try again.
unfoldable pub release_maybe_retry : ℕ → Option GoError → PoolEvent × Bool
unfolding is_retryable
release_maybe_retry k (some e) = (destroyed k, is_retryable e)
release_maybe_retry k none = (released k, false)

-- What one attempt meets: ctx.Err(), the error of Acquire, and what the connection's method returns.
pub record Attempt {ℓ} (R : Type ℓ) : Type ℓ where
  pub ctx_err : Option GoError
  pub acquire_err : Option GoError
  pub outcome : Outcome R

module _ {ℓ} {R : Type ℓ} where
  abbrev pub error_of : Outcome R → Option GoError
  error_of (ok r) = none
  error_of (fail e) = some e

  abbrev pub fail_with : Option GoError → Outcome R
  fail_with none = fail (sentinel retries_exceeded)
  fail_with (some e) = fail e

  -- errors.Join(ErrRetriesExceeded, err), which is never nil.
  abbrev pub exhausted : Option GoError → Outcome R
  unfolding errors_join
  exhausted err = fail_with (errors_join (some (sentinel retries_exceeded) ∷ err ∷ []))

  -- Behind releaseMaybeRetry: go on with the loop, or return.
  abbrev pub conclude :
      ℕ → PoolEvent × Bool → Outcome R → List PoolEvent × Outcome R → List PoolEvent × Outcome R
  conclude k (e, true) r (es, rest) = (acquired k ∷ e ∷ es, rest)
  conclude k (e, false) r (es, rest) = (acquired k ∷ e ∷ [], r)

  abbrev pub attempt :
      ℕ
      → Option GoError
      → Option GoError
      → Outcome R
      → List PoolEvent × Outcome R
      → List PoolEvent × Outcome R
  unfolding release_maybe_retry
  attempt k (some e) _ _ rest = ([], fail e)
  attempt k none (some e) _ rest = ([], fail e)
  attempt k none none r rest = conclude k (release_maybe_retry k (error_of r)) r rest

  -- `for range cp.retries`, with `n` rounds left, at attempt `k`, with the last error.
  unfoldable pub retry_loop : (ℕ → Attempt R) → ℕ → ℕ → Option GoError → List PoolEvent × Outcome R
  unfolding attempt exhausted
  retry_loop env zero k err = ([], exhausted err)
  retry_loop env (suc n) k err =
      let a = env k in
      let rest = retry_loop env n (suc k) (error_of a.outcome) in
      attempt k a.ctx_err a.acquire_err a.outcome rest

-- ClientPoolConfig, with durations in nanoseconds. The URI is passed on to the dialer.
pub record ClientPoolConfig : Type 0 where
  pub uri : Bytes
  pub idle_timeout : ℤ
  pub dial_timeout : ℤ
  pub retries : ℤ
  pub max_size : ℤ
  pub acquire_on_create : Bool

abbrev pub seconds : ℕ → ℕ
seconds n = n * 1000000000

-- The int with the low 64 bits of a number, and the int32 with its low 32 bits.
abbrev pub to_int : ℕ → ℤ
to_int n = let m = n % 2 ^ 64 in if ltb m (2 ^ 63) then pos m else negsuc (2 ^ 64 - suc m)

abbrev pub to_int32 : ℕ → ℤ
to_int32 n = let m = n % 2 ^ 32 in if ltb m (2 ^ 31) then pos m else negsuc (2 ^ 32 - suc m)

abbrev pub if_zero : ℤ → ℕ → ℤ
if_zero (pos zero) d = pos d
if_zero (pos (suc n)) d = pos (suc n)
if_zero (negsuc n) d = negsuc n

abbrev pub if_not_positive : ℤ → ℕ → ℤ
if_not_positive (pos zero) d = pos d
if_not_positive (pos (suc n)) d = pos (suc n)
if_not_positive (negsuc n) d = pos d

abbrev pub if_none : ℤ → ℤ → ℤ
if_none n d = if is_positive n then n else d

-- The defaults of NewClientPoolWithDialer, on a machine with these numbers of processors.
unfoldable pub with_defaults : ℕ → ℕ → ClientPoolConfig → ClientPoolConfig
with_defaults num_cpu gomaxprocs c = record c {
  idle_timeout = if_zero c.idle_timeout (seconds 300);
  dial_timeout = if_not_positive c.dial_timeout (seconds 30);
  max_size = if_none c.max_size (to_int32 (min num_cpu gomaxprocs * 2));
}

abbrev pub max_one : ℤ → ℕ
max_one (pos n) = max n 1
max_one (negsuc n) = 1

-- cpool.retries = max(config.Retries, 1) + 1, an int of 64 bits that wraps; over one below 0, the loop
-- has no rounds.
abbrev pub rounds_of : ℤ → ℕ
rounds_of (pos n) = n
rounds_of (negsuc n) = 0

unfoldable pub attempts : ClientPoolConfig → ℕ
attempts c = rounds_of (to_int (max_one c.retries + 1))

-- Call, CallBatch, CallRaw, Notify, NotifyBatch and NotifyRaw: the loop from the first attempt, with
-- the method that a connection is called by in the environment.
unfoldable pub pool_call :
    ClientPoolConfig → (ℕ → Attempt Response) → List PoolEvent × Outcome Response
unfolding retry_loop attempts
pool_call c env = retry_loop env (attempts c) 0 none

unfoldable pub pool_call_batch :
    ClientPoolConfig → (ℕ → Attempt (List Response)) → List PoolEvent × Outcome (List Response)
unfolding retry_loop attempts
pool_call_batch c env = retry_loop env (attempts c) 0 none

unfoldable pub pool_call_raw :
    ClientPoolConfig → (ℕ → Attempt Response) → List PoolEvent × Outcome Response
unfolding retry_loop attempts
pool_call_raw c env = retry_loop env (attempts c) 0 none

unfoldable pub pool_notify :
    ClientPoolConfig → (ℕ → Attempt (Unit {0})) → List PoolEvent × Outcome (Unit {0})
unfolding retry_loop attempts
pool_notify c env = retry_loop env (attempts c) 0 none

unfoldable pub pool_notify_batch :
    ClientPoolConfig → (ℕ → Attempt (Unit {0})) → List PoolEvent × Outcome (Unit {0})
unfolding retry_loop attempts
pool_notify_batch c env = retry_loop env (attempts c) 0 none

unfoldable pub pool_notify_raw :
    ClientPoolConfig → (ℕ → Attempt (Unit {0})) → List PoolEvent × Outcome (Unit {0})
unfolding retry_loop attempts
pool_notify_raw c env = retry_loop env (attempts c) 0 none

-- What the function of the idle timer did with the idle connections, each given by its idle time.
pub record Swept : Type 0 where
  pub destroyed_idle : List ℕ
  pub kept : List ℕ
  pub next_wait : ℕ

-- Its loop, with the wait so far.
unfoldable pub sweep_from : ℕ → List ℕ → ℕ → Swept
sweep_from timeout [] next = record { destroyed_idle = []; kept = []; next_wait = next }
sweep_from timeout (t ∷ ts) next =
    let old = leb timeout t in
    let rest = sweep_from timeout ts (if old then next else min next (timeout - t)) in
    if old
    then record rest { destroyed_idle = t ∷ rest.destroyed_idle }
    else record rest { kept = t ∷ rest.kept }

-- The function of the idle timer: nothing stands for a closed pool, whose timer is not set again.
unfoldable pub sweep : Bool → ℕ → List ℕ → Option Swept
unfolding sweep_from
sweep true timeout ts = none
sweep false timeout ts = some (sweep_from timeout ts timeout)

-- The parts of a ClientPool that Close reads and writes: how often the timer was stopped and
-- the pool below closed.
pub record PoolState : Type 0 where
  pub is_closed : Bool
  pub has_idle_timer : Bool
  pub timer_stops : ℕ
  pub pool_closes : ℕ
  pub pool_resets : ℕ

-- Close of a ClientPool.
unfoldable pub close_pool : PoolState → PoolState
close_pool p = if p.is_closed then p else record p {
  is_closed = true;
  timer_stops = p.timer_stops + (if p.has_idle_timer then 1 else 0);
  pool_closes = p.pool_closes + 1;
}

-- Reset: what it does is left to the pool below, whether or not the pool was closed.
unfoldable pub reset_pool : PoolState → PoolState
reset_pool p = record p { pool_resets = p.pool_resets + 1 }
