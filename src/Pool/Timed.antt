-- ===== src/Pool/Timed.antt =====
-- The variants of a pool's methods that derive a context with a timeout, and what a context that is done
-- means for the retry loop.
use jsonrpc.Base.{
  ap, ◌∙◌, Bool-cases, ◌⊎◌, inl, inr, subst, ℕ, zero, suc, ◌+◌, ◌≤◌, ℤ, is_positive, Bool, true,
  false, Option, none, some, List, [], ◌∷◌, ◌≡◌, refl, arith,
}
use jsonrpc.Failure.{GoError, Outcome, sentinel, deadline_exceeded}
use jsonrpc.Message.Response.{Response}
use jsonrpc.Transport.Timed.{derived_err}
use jsonrpc.Pool.{
  Attempt, PoolEvent, acquired, released, destroyed, ClientPoolConfig, error_of, is_retryable,
  conclude, attempt, release_maybe_retry, retry_loop, attempts, pool_call, pool_call_batch,
  pool_call_raw, pool_notify, pool_notify_batch, pool_notify_raw,
}

-- What the attempts meet under the derived context; `late` says at which attempts the time is up.
unfoldable pub timed {ℓ} : {R : Type ℓ} → ℤ → (ℕ → Bool) → (ℕ → Attempt R) → ℕ → Attempt R
unfolding derived_err
timed timeout late env k = record (env k) { ctx_err = derived_err (env k).ctx_err timeout (late k) }

module _ (c : ClientPoolConfig) (timeout : ℤ) (late : ℕ → Bool) where
  -- CallWithTimeout
  unfoldable pub pool_call_with_timeout : (ℕ → Attempt Response) → List PoolEvent × Outcome Response
  unfolding pool_call timed
  pool_call_with_timeout env = pool_call c (timed timeout late env)

  -- CallBatchWithTimeout
  unfoldable pub pool_call_batch_with_timeout :
      (ℕ → Attempt (List Response)) → List PoolEvent × Outcome (List Response)
  unfolding pool_call_batch timed
  pool_call_batch_with_timeout env = pool_call_batch c (timed timeout late env)

  -- CallRawWithTimeout
  unfoldable pub pool_call_raw_with_timeout :
      (ℕ → Attempt Response) → List PoolEvent × Outcome Response
  unfolding pool_call_raw timed
  pool_call_raw_with_timeout env = pool_call_raw c (timed timeout late env)

  -- NotifyWithTimeout
  unfoldable pub pool_notify_with_timeout :
      (ℕ → Attempt (Unit {0})) → List PoolEvent × Outcome (Unit {0})
  unfolding pool_notify timed
  pool_notify_with_timeout env = pool_notify c (timed timeout late env)

  -- NotifyBatchWithTimeout
  unfoldable pub pool_notify_batch_with_timeout :
      (ℕ → Attempt (Unit {0})) → List PoolEvent × Outcome (Unit {0})
  unfolding pool_notify_batch timed
  pool_notify_batch_with_timeout env = pool_notify_batch c (timed timeout late env)

  -- NotifyRawWithTimeout
  unfoldable pub pool_notify_raw_with_timeout :
      (ℕ → Attempt (Unit {0})) → List PoolEvent × Outcome (Unit {0})
  unfolding pool_notify_raw timed
  pool_notify_raw_with_timeout env = pool_notify_raw c (timed timeout late env)

-- How many connections are acquired.
abbrev pub acquisitions : List PoolEvent → ℕ
acquisitions [] = 0
acquisitions (acquired k ∷ es) = suc (acquisitions es)
acquisitions (released k ∷ es) = acquisitions es
acquisitions (destroyed k ∷ es) = acquisitions es

conclude_bound {ℓ} :
    {R : Type ℓ} (k : ℕ) (x : Option GoError) (r : Outcome R) (rest : List PoolEvent × Outcome R)
    → acquisitions (conclude k (release_maybe_retry k x) r rest).0 ≤ 1 + acquisitions rest.0
unfolding release_maybe_retry
conclude_bound k none r (es, x) = omega arith
conclude_bound k (some e) r (es, x) = elim (Bool-cases (is_retryable e)) [
  | inl q ↦ rw q (omega arith)
  | inr q ↦ rw q (omega arith)
]

attempt_bound {ℓ} :
    {R : Type ℓ} (k : ℕ) (x y : Option GoError) (r : Outcome R) (rest : List PoolEvent × Outcome R)
    → acquisitions (attempt k x y r rest).0 ≤ 1 + acquisitions rest.0
unfolding attempt release_maybe_retry
attempt_bound k (some e) y r rest = omega arith
attempt_bound k none (some e) r rest = omega arith
attempt_bound k none none r rest = conclude_bound k (error_of r) r rest

attempt_done {ℓ} :
    {R : Type ℓ} (k : ℕ) (x y : Option GoError) (r : Outcome R) (rest : List PoolEvent × Outcome R)
    (e : GoError)
    → x ≡ some e
    → acquisitions (attempt k x y r rest).0 ≤ 0
unfolding attempt
attempt_done k (some d) y r rest e h = omega arith
attempt_done k none y r rest e h = cc

zero_plus : (k : ℕ) → 0 + k ≡ k
zero_plus k = omega arith

retry_loop-stops {ℓ} :
    {R : Type ℓ} (env : ℕ → Attempt R) (n k m : ℕ) (err : Option GoError) (e : GoError)
    → (env (m + k)).ctx_err ≡ some e
    → acquisitions (retry_loop env n k err).0 ≤ m
unfolding retry_loop
retry_loop-stops env zero k m err e h = omega arith
retry_loop-stops env (suc n) k zero err e h =
    let a = env k in
    attempt_done k a.ctx_err a.acquire_err a.outcome (retry_loop env n (suc k) (error_of a.outcome))
      e (subst (λ i. (env i).ctx_err ≡ some e) (zero_plus k) h)
retry_loop-stops env (suc n) k (suc m) err e h =
    let a = env k in
    let rest = retry_loop env n (suc k) (error_of a.outcome) in
    let more =
      retry_loop-stops env n (suc k) m (error_of a.outcome) e
        (subst (λ i. (env i).ctx_err ≡ some e) (suc_moves m k) h) in
    omega (arith, more, attempt_bound k a.ctx_err a.acquire_err a.outcome rest)
  where
    suc_moves : (m k : ℕ) → suc m + k ≡ m + suc k
    suc_moves m k = omega arith

late_is_done :
    (x : Option GoError) (timeout : ℤ) (late : Bool)
    → late ≡ true
    → (e : GoError) × (derived_err x timeout late ≡ some e)
unfolding derived_err
late_is_done (some e) timeout late h = (e, refl)
late_is_done none timeout true h = (sentinel deadline_exceeded, refl)
late_is_done none timeout false h = cc

no_time_is_done :
    (x : Option GoError) (timeout : ℤ) (late : Bool)
    → is_positive timeout ≡ false
    → (e : GoError) × (derived_err x timeout late ≡ some e)
unfolding derived_err
no_time_is_done (some e) timeout late h = (e, refl)
no_time_is_done none timeout true h = (sentinel deadline_exceeded, refl)
no_time_is_done none timeout false h = (sentinel deadline_exceeded, rw h refl)

-- A call with a timeout acquires no connection from the attempt on at which the time is up, and none
-- at all where the timeout is not above 0.
pub pool_call_with_timeout-stops :
    (c : ClientPoolConfig) (timeout : ℤ) (late : ℕ → Bool) (env : ℕ → Attempt Response) (k : ℕ)
    → late k ≡ true
    → (acquisitions (pool_call_with_timeout c timeout late env).0 ≤ k)
      × ((is_positive timeout ≡ true)
          ⊎ (acquisitions (pool_call_with_timeout c timeout late env).0 ≡ 0))
unfolding pool_call_with_timeout pool_call timed
pool_call_with_timeout-stops c timeout late env k h =
    let (e, p) =
      late_is_done (env (k + 0)).ctx_err timeout (late (k + 0)) (ap late (plus_zero k) ∙ h) in
    (
      retry_loop-stops (timed timeout late env) (attempts c) 0 k none e p,
      elim (Bool-cases (is_positive timeout)) [
        | inl q ↦ inl q
        | inr q ↦
            let (d, z) = no_time_is_done (env (0 + 0)).ctx_err timeout (late (0 + 0)) q in
            inr
              (none_left_over (retry_loop-stops (timed timeout late env) (attempts c) 0 0 none d z))
      ],
    )
  where
    plus_zero : (k : ℕ) → k + 0 ≡ k
    plus_zero k = omega arith

    none_left_over : {n : ℕ} → n ≤ 0 → n ≡ 0
    none_left_over h = omega arith
