-- ===== src/Pool/Examples.antt =====
-- Concrete runs of the retry loop and of the sweep.
use jsonrpc.Message.Response.{Response}
use jsonrpc.Pool.Creation.{DialCases, dial_with_config, dial_with_config-outcome}
use jsonrpc.Pool.Timed.{acquisitions, pool_call_with_timeout, pool_call_with_timeout-stops}
use jsonrpc.Base.{
  is_positive, pos, Bool, true, false, codes, ◌⊎◌, ℕ, zero, suc, ◌+◌, ◌≤◌, ◌<◌, none, some, [], ◌∷◌,
  All, length, ◌≡◌, refl, arith,
}
use jsonrpc.Failure.{ok, fail, sentinel, eof}
use jsonrpc.Pool.{ClientPoolConfig, Attempt, retry_loop, is_retryable, sweep_from}
use jsonrpc.Pool.Retry.{Balanced, retry_loop-Balanced, verdict}
use jsonrpc.Pool.Sweep.{IsCurrent, sweep_from-right}

-- The connection is closed by the peer at the first attempt, and answers 7 from then on.
abbrev second_time : ℕ → Attempt ℕ
second_time zero = record { ctx_err = none; acquire_err = none; outcome = fail (sentinel eof) }
second_time (suc k) = record { ctx_err = none; acquire_err = none; outcome = ok 7 }

abbrev never : ℕ → Attempt ℕ
never k = record { ctx_err = none; acquire_err = none; outcome = fail (sentinel eof) }

first_asks : (j : ℕ) → j < 1 → verdict (second_time (0 + j)) ≡ none
unfolding is_retryable
first_asks zero h = refl
first_asks (suc j) h = absurd (omega arith)

retry_loop-Balanced_example : Balanced 2 0 (retry_loop never 2 0 none).0
retry_loop-Balanced_example = retry_loop-Balanced never 2 0 none

sweep_from-right_example :
    All (λ t. 10 ≤ t) (sweep_from 10 (3 ∷ 12 ∷ 7 ∷ []) 10).destroyed_idle
    × All
        (IsCurrent 10 (sweep_from 10 (3 ∷ 12 ∷ 7 ∷ []) 10).next_wait)
        (sweep_from 10 (3 ∷ 12 ∷ 7 ∷ []) 10).kept
    × (length (sweep_from 10 (3 ∷ 12 ∷ 7 ∷ []) 10).destroyed_idle
          + length (sweep_from 10 (3 ∷ 12 ∷ 7 ∷ []) 10).kept
        ≡ 3)
    × (0 < (sweep_from 10 (3 ∷ 12 ∷ 7 ∷ []) 10).next_wait)
    × ((sweep_from 10 (3 ∷ 12 ∷ 7 ∷ []) 10).next_wait ≤ 10)
sweep_from-right_example = sweep_from-right 10 (3 ∷ 12 ∷ 7 ∷ []) (omega arith)

abbrev unreachable : ℕ → Attempt Response
unreachable k = record { ctx_err = none; acquire_err = none; outcome = fail (sentinel eof) }

abbrev from_the_second : ℕ → Bool
from_the_second zero = false
from_the_second (suc k) = true

abbrev config : ClientPoolConfig
config = record {
  uri = codes "tcp:localhost:1";
  idle_timeout = pos 0;
  dial_timeout = pos 0;
  retries = pos 3;
  max_size = pos 1;
  acquire_on_create = false;
}

pool_call_with_timeout-stops_example :
    (acquisitions (pool_call_with_timeout config (pos 5) from_the_second unreachable).0 ≤ 1)
    × ((is_positive (pos 5) ≡ true)
        ⊎ (acquisitions (pool_call_with_timeout config (pos 5) from_the_second unreachable).0 ≡ 0))
pool_call_with_timeout-stops_example =
    pool_call_with_timeout-stops config (pos 5) from_the_second unreachable 1 refl

dial_with_config-outcome_example :
    DialCases none (some (sentinel eof)) (dial_with_config 5 4 2 none (some (sentinel eof)) config)
dial_with_config-outcome_example =
    dial_with_config-outcome 5 4 2 none (some (sentinel eof)) config (omega arith) (omega arith)
      (omega arith) (omega arith)
