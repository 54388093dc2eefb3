-- ===== src/Pool/Retry.antt =====
-- The retry loop: how often it tries, what it returns, and what becomes of the connections.
use jsonrpc.Base.{
  ℕ, zero, suc, ◌+◌, ◌<◌, Bool, true, false, ◌||◌, Bool-cases, Option, none, some, List, [], ◌∷◌,
  ◌≡◌, inl, inr, refl, subst, ◌∙◌, arith,
}
use jsonrpc.Failure.{Sentinel, GoError, Outcome, ok, fail, sentinel, errors_is, retries_exceeded}
use jsonrpc.Failure.Laws.{is_opt, errors_is-join}
use jsonrpc.Pool.{
  is_retryable, PoolEvent, acquired, released, destroyed, Attempt, error_of, exhausted, attempt,
  retry_loop,
}

-- A connection is acquired, and given back or destroyed before the next one is acquired. The attempts
-- are numbered from `k` on, and there are at most `n`.
pub data Balanced : ℕ → ℕ → List PoolEvent → Type 0 where
  ended : (n k : ℕ) → Balanced n k []
  gave_back : (n k : ℕ) → Balanced (suc n) k (acquired k ∷ released k ∷ [])
  dropped :
      (n k : ℕ) (es : List PoolEvent)
      → Balanced n (suc k) es
      → Balanced (suc n) k (acquired k ∷ destroyed k ∷ es)

module _ {ℓ} {R : Type ℓ} where
  abbrev pub unless : Bool → Outcome R → Option (Outcome R)
  unless true r = none
  unless false r = some r

  abbrev pub or_else : Option (Outcome R) → Outcome R → Outcome R
  or_else none r = r
  or_else (some v) r = v

  -- What an attempt lets the loop return at once; nothing if the loop goes on.
  abbrev pub verdict_of : Option GoError → Option GoError → Outcome R → Option (Outcome R)
  verdict_of (some e) _ _ = some (fail e)
  verdict_of none (some e) _ = some (fail e)
  verdict_of none none (ok r) = some (ok r)
  verdict_of none none (fail e) = unless (is_retryable e) (fail e)

  abbrev pub verdict : Attempt R → Option (Outcome R)
  verdict a = verdict_of a.ctx_err a.acquire_err a.outcome

  attempt-verdict :
      (k : ℕ) (c d : Option GoError) (r : Outcome R) (rest : List PoolEvent × Outcome R)
      → (attempt k c d r rest).1 ≡ or_else (verdict_of c d r) rest.1
  unfolding attempt
  attempt-verdict k (some e) _ _ rest = refl
  attempt-verdict k none (some e) _ rest = refl
  attempt-verdict k none none (ok r) rest = refl
  attempt-verdict k none none (fail e) rest = elim (Bool-cases (is_retryable e)) [
    | inl h ↦ rw h
    | inr h ↦ rw h
  ]

  retry_loop-step :
      (env : ℕ → Attempt R) (n k : ℕ) (err : Option GoError)
      → (retry_loop env (suc n) k err).1
        ≡ or_else (verdict (env k)) (retry_loop env n (suc k) (error_of (env k).outcome)).1
  unfolding retry_loop
  retry_loop-step env n k err =
      attempt-verdict k (env k).ctx_err (env k).acquire_err (env k).outcome _

  verdict-at :
      {v : Option (Outcome R)} (env : ℕ → Attempt R) (a b : ℕ)
      → a ≡ b
      → verdict (env a) ≡ v
      → verdict (env b) ≡ v
  verdict-at {v} env a b e h = subst (λ m. verdict (env m) ≡ v) e h

  -- The loop returns what the first attempt returns that does not ask for a retry, if that is among
  -- its `n` attempts.
  pub retry_loop-first :
      (env : ℕ → Attempt R) (i n k : ℕ) (err : Option GoError) (r : Outcome R)
      → ((j : ℕ) → j < i → verdict (env (k + j)) ≡ none)
      → verdict (env (k + i)) ≡ some r
      → i < n
      → (retry_loop env n k err).1 ≡ r
  retry_loop-first env i zero k err r before found lt = absurd (omega arith)
  retry_loop-first env zero (suc n) k err r before found lt =
      retry_loop-step env n k err ∙ rw (verdict-at env (k + 0) k (omega arith) found)
  retry_loop-first env (suc i) (suc n) k err r before found lt =
      retry_loop-step env n k err
      ∙ rw (verdict-at env (k + 0) k (omega arith) (before 0 (omega arith))) (
          retry_loop-first env i n (suc k) _ r
            (λ j h.
              verdict-at env (k + suc j) (suc k + j) (omega arith) (before (suc j) (omega arith)))
            (verdict-at env (k + suc i) (suc k + i) (omega arith) found) (omega arith))

  -- The error of the last of `n` attempts.
  abbrev pub last_error : (ℕ → Attempt R) → ℕ → ℕ → Option GoError → Option GoError
  last_error env zero k err = err
  last_error env (suc n) k err = last_error env n (suc k) (error_of (env k).outcome)

  retry_loop-exhausted :
      (env : ℕ → Attempt R) (n k : ℕ) (err : Option GoError)
      → ((j : ℕ) → j < n → verdict (env (k + j)) ≡ none)
      → (retry_loop env n k err).1 ≡ exhausted (last_error env n k err)
  retry_loop-exhausted env zero k err all = unfold retry_loop in refl
  retry_loop-exhausted env (suc n) k err all =
      retry_loop-step env n k err
      ∙ rw (verdict-at env (k + 0) k (omega arith) (all 0 (omega arith))) (
          retry_loop-exhausted env n (suc k) _ (λ j h.
            verdict-at env (k + suc j) (suc k + j) (omega arith) (all (suc j) (omega arith))))

  exhausted_is :
      (err : Option GoError)
      → (e : GoError) × (exhausted {R = R} err ≡ fail e)
        × ((s : Sentinel)
            → errors_is s e ≡ (errors_is s (sentinel retries_exceeded) || is_opt s err))
  unfolding exhausted
  exhausted_is none = (
    _,
    refl,
    λ s. ground (arith, errors_is-join s (some (sentinel retries_exceeded) ∷ none ∷ [])),
  )
  exhausted_is (some d) = (
    _,
    refl,
    λ s. ground (arith, errors_is-join s (some (sentinel retries_exceeded) ∷ some d ∷ [])),
  )

  -- Where every attempt asks for a retry the loop fails with an error that is ErrRetriesExceeded, and
  -- that is any other sentinel exactly if the last attempt's error is.
  pub retry_loop-fails :
      (env : ℕ → Attempt R) (n k : ℕ) (err : Option GoError)
      → ((j : ℕ) → j < n → verdict (env (k + j)) ≡ none)
      → (e : GoError) × ((retry_loop env n k err).1 ≡ fail e)
        × ((s : Sentinel)
            → errors_is s e
              ≡ (errors_is s (sentinel retries_exceeded) || is_opt s (last_error env n k err)))
  retry_loop-fails env n k err all =
      let (e, h, is) = exhausted_is (last_error env n k err) in
      (e, retry_loop-exhausted env n k err all ∙ h, is)

  attempt-Balanced :
      (n k : ℕ) (c d : Option GoError) (r : Outcome R) (rest : List PoolEvent × Outcome R)
      → Balanced n (suc k) rest.0
      → Balanced (suc n) k (attempt k c d r rest).0
  unfolding attempt
  attempt-Balanced n k (some e) _ _ rest bal = ended (suc n) k
  attempt-Balanced n k none (some e) _ rest bal = ended (suc n) k
  attempt-Balanced n k none none (ok r) rest bal = gave_back n k
  attempt-Balanced n k none none (fail e) rest bal = elim (Bool-cases (is_retryable e)) [
    | inl h ↦ rw h (dropped n k _ bal)
    | inr h ↦ rw h (dropped n k [] (ended n (suc k)))
  ]

  -- Every connection that the loop acquires is released or destroyed before the next is acquired and
  -- before the loop returns, only the last can be released, and there are at most `n` of them.
  pub retry_loop-Balanced :
      (env : ℕ → Attempt R) (n k : ℕ) (err : Option GoError)
      → Balanced n k (retry_loop env n k err).0
  unfolding retry_loop
  retry_loop-Balanced env zero k err = ended zero k
  retry_loop-Balanced env (suc n) k err =
      attempt-Balanced n k (env k).ctx_err (env k).acquire_err (env k).outcome _
        (retry_loop-Balanced env n (suc k) _)
