-- ===== src/Pool/Creation.antt =====
-- NewClientPoolWithDialer of clientpool.go, and Dial and DialWithConfig of dial.go on top of it. What
-- package puddle answers is a parameter: the error of NewPool, and that of Acquire, which dials.
use jsonrpc.Base.{
  ℕ, ◌*◌, ◌+◌, ◌≤◌, ◌<◌, min, ◌%◌, ◌^◌, ℤ, pos, is_positive, Bool, true, false, not, Option, none,
  some, List, [], ◌∷◌, Bytes, ◌≡◌, ◌⊎◌, inl, inr, refl, arith,
}
use jsonrpc.Failure.{GoError, Outcome, ok, fail}
use jsonrpc.Pool.{
  ClientPoolConfig, seconds, if_not_positive, with_defaults, attempts, if_none, to_int32, to_int,
  max_one,
}

-- Calls of the pool below, in order.
pub data Creation : Type 0 where
  opened acquired released closed : Creation

-- A ClientPool that was created: the configuration in effect, how often a call is tried, and whether
-- there is a timer for idle connections.
pub record Created : Type 0 where
  pub config : ClientPoolConfig
  pub tries : ℕ
  pub has_idle_timer : Bool

created : ClientPoolConfig → Created
unfolding attempts
created c = record { config = c; tries = attempts c; has_idle_timer = is_positive c.idle_timeout }

-- Behind NewPool: the first connection.
first_connection : Bool → Option GoError → Created → List Creation × Outcome Created
first_connection false err p = (opened ∷ [], ok p)
first_connection true none p = (opened ∷ acquired ∷ released ∷ [], ok p)
first_connection true (some e) p = (opened ∷ closed ∷ [], fail e)

create : Option GoError → Option GoError → ClientPoolConfig → List Creation × Outcome Created
unfolding created first_connection
create (some e) acquire_err c = ([], fail e)
create none acquire_err c = first_connection c.acquire_on_create acquire_err (created c)

-- NewClientPoolWithDialer, on a machine with these numbers of processors.
unfoldable pub new_client_pool_with_dialer :
    ℕ → ℕ → Option GoError → Option GoError → ClientPoolConfig → List Creation × Outcome Created
unfolding create with_defaults
new_client_pool_with_dialer num_cpu gomaxprocs pool_err acquire_err c =
    create pool_err acquire_err (with_defaults num_cpu gomaxprocs c)

-- NewClientPool: the dialer below Acquire is DialTransport.
unfoldable pub new_client_pool :
    ℕ → ℕ → Option GoError → Option GoError → ClientPoolConfig → List Creation × Outcome Created
unfolding new_client_pool_with_dialer
new_client_pool num_cpu gomaxprocs pool_err acquire_err c =
    new_client_pool_with_dialer num_cpu gomaxprocs pool_err acquire_err c

-- DialWithConfig: a client on the new pool, whose counter starts at a random number of 32 bits.
counted : ℕ → List Creation × Outcome Created → List Creation × Outcome (Created × ℕ)
counted random (es, fail e) = (es, fail e)
counted random (es, ok p) = (es, ok (p, random % 2 ^ 32))

unfoldable pub dial_with_config :
    ℕ
    → ℕ
    → ℕ
    → Option GoError
    → Option GoError
    → ClientPoolConfig
    → List Creation × Outcome (Created × ℕ)
unfolding new_client_pool counted
dial_with_config random num_cpu gomaxprocs pool_err acquire_err c =
    counted random (new_client_pool num_cpu gomaxprocs pool_err acquire_err c)

-- The configuration of Dial.
abbrev pub dial_config : Bytes → ClientPoolConfig
dial_config uri = record {
  uri = uri;
  idle_timeout = pos 0;
  dial_timeout = pos 0;
  retries = pos 0;
  max_size = pos 0;
  acquire_on_create = true;
}

-- Dial
unfoldable pub dial :
    ℕ → ℕ → ℕ → Option GoError → Option GoError → Bytes → List Creation × Outcome (Created × ℕ)
unfolding dial_with_config
dial random num_cpu gomaxprocs pool_err acquire_err uri =
    dial_with_config random num_cpu gomaxprocs pool_err acquire_err (dial_config uri)

-- A pool below that is left open, and connections that are held.
abbrev pub left_open : List Creation → Bool
left_open [] = false
left_open (opened ∷ es) = not (has_closed es)
  where
    has_closed : List Creation → Bool
    has_closed [] = false
    has_closed (closed ∷ es) = true
    has_closed (opened ∷ es) = has_closed es
    has_closed (acquired ∷ es) = has_closed es
    has_closed (released ∷ es) = has_closed es
left_open (acquired ∷ es) = left_open es
left_open (released ∷ es) = left_open es
left_open (closed ∷ es) = left_open es

-- A configuration that works: time to dial, room for a connection, and at least one retry.
abbrev pub IsUsable : Created → Type 0
IsUsable p =
    (is_positive p.config.dial_timeout ≡ true)
    × (is_positive p.config.max_size ≡ true)
    × (2 ≤ p.tries)
    × (p.has_idle_timer ≡ is_positive p.config.idle_timeout)

if_not_positive-positive : (n : ℤ) (d : ℕ) → 1 ≤ d → is_positive (if_not_positive n d) ≡ true
if_not_positive-positive n d h = ground arith

to_int-small : (n : ℕ) → n < 2 ^ 63 → to_int n ≡ pos n
to_int-small n h = ground (arith, h)

attempts_bound : (c : ClientPoolConfig) → max_one c.retries + 1 < 2 ^ 63 → 2 ≤ attempts c
unfolding attempts
attempts_bound c h = rw (to_int-small (max_one c.retries + 1) h) (ground arith)

to_int32-positive : (n : ℕ) → 1 ≤ n → n < 2 ^ 31 → is_positive (to_int32 n) ≡ true
to_int32-positive n h b = ground (arith, h, b)

if_none-positive : (n d : ℤ) → is_positive d ≡ true → is_positive (if_none n d) ≡ true
if_none-positive n d h = ground (arith, h)

created-IsUsable :
    (num_cpu gomaxprocs : ℕ) (c : ClientPoolConfig)
    → 1 ≤ num_cpu
    → num_cpu < 2 ^ 30
    → 1 ≤ gomaxprocs
    → max_one c.retries + 1 < 2 ^ 63
    → IsUsable (created (with_defaults num_cpu gomaxprocs c))
unfolding created with_defaults
created-IsUsable num_cpu gomaxprocs c hc hm hp hr = (
  if_not_positive-positive c.dial_timeout (seconds 30) (omega arith),
  if_none-positive c.max_size (to_int32 (min num_cpu gomaxprocs * 2)) (
      to_int32-positive (min num_cpu gomaxprocs * 2) (omega (arith, hc, hp))
        (omega (arith, hc, hp, hm))),
  attempts_bound (with_defaults num_cpu gomaxprocs c) hr,
  refl,
)

-- What a client is created with, or why it is not.
abbrev pub DialCases :
    Option GoError → Option GoError → List Creation × Outcome (Created × ℕ) → Type 0
DialCases pool_err acquire_err x =
    ((e : GoError) × (x.1 ≡ fail e)
      × (left_open x.0 ≡ false)
      × ((pool_err ≡ some e) ⊎ (acquire_err ≡ some e)))
    ⊎ ((p : Created) × (n : ℕ) × (x.1 ≡ ok (p, n))
        × (left_open x.0 ≡ true)
        × IsUsable p
        × (n < 2 ^ 32))

counted-cases :
    (random : ℕ) (pool_err acquire_err : Option GoError) (c : ClientPoolConfig)
    → IsUsable (created c)
    → DialCases pool_err acquire_err (counted random (create pool_err acquire_err c))
unfolding create first_connection counted
counted-cases random (some e) acquire_err c u = inl (e, refl, refl, inl refl)
counted-cases random none acquire_err c u = first c.acquire_on_create acquire_err
  where
    first :
        (b : Bool) (err : Option GoError)
        → DialCases none err (counted random (first_connection b err (created c)))
    first false err = inr (created c, random % 2 ^ 32, refl, refl, u, omega arith)
    first true none = inr (created c, random % 2 ^ 32, refl, refl, u, omega arith)
    first true (some e) = inl (e, refl, refl, inr refl)

-- DialWithConfig, on a machine with a processor and less than 2 ^ 30 of them, whose ints have 64 bits, and
-- with Retries below the largest int, either fails with the error of creating the pool or of the first
-- connection, and leaves no pool open, or gives a client on an open pool with time to dial, room for a
-- connection, at least two tries for a call, and an idle timer exactly if its idle timeout is above 0; the
-- client's counter is below 2 ^ 32.
pub dial_with_config-outcome :
    (random num_cpu gomaxprocs : ℕ) (pool_err acquire_err : Option GoError) (c : ClientPoolConfig)
    → 1 ≤ num_cpu
    → num_cpu < 2 ^ 30
    → 1 ≤ gomaxprocs
    → max_one c.retries + 1 < 2 ^ 63
    → DialCases pool_err acquire_err
        (dial_with_config random num_cpu gomaxprocs pool_err acquire_err c)
unfolding dial_with_config new_client_pool new_client_pool_with_dialer
dial_with_config-outcome random num_cpu gomaxprocs pool_err acquire_err c hc hm hp hr =
    counted-cases random pool_err acquire_err (with_defaults num_cpu gomaxprocs c)
      (created-IsUsable num_cpu gomaxprocs c hc hm hp hr)
