-- ===== src/Pool/Sweep.antt =====
-- The sweep of the idle connections: which it destroys, and when the timer fires again.
use jsonrpc.Base.{
  ℕ, ◌+◌, ◌-◌, ◌≤◌, ◌<◌, min, true, false, leb, Bool-cases, List, [], ◌∷◌, All, ◌≡◌, inl, inr,
  arith, length,
}
use jsonrpc.Pool.{sweep_from}

-- A connection kept has not reached the timeout, and reaches it no earlier than the next firing.
abbrev pub IsCurrent : ℕ → ℕ → ℕ → Type 0
IsCurrent timeout next t = (t < timeout) × (t + next ≤ timeout)

All-IsCurrent-mono :
    (timeout a b : ℕ) (ts : List ℕ)
    → b ≤ a
    → All (IsCurrent timeout a) ts
    → All (IsCurrent timeout b) ts
All-IsCurrent-mono timeout a b [] h _ = _
All-IsCurrent-mono timeout a b (t ∷ ts) h ((lt, le), all) =
    ((lt, omega arith), All-IsCurrent-mono timeout a b ts h all)

sweep_from-next : (timeout next : ℕ) (ts : List ℕ) → (sweep_from timeout ts next).next_wait ≤ next
unfolding sweep_from
sweep_from-next timeout next [] = omega arith
sweep_from-next timeout next (t ∷ ts) = elim (Bool-cases (leb timeout t)) [
  | inl h ↦ rw h (sweep_from-next timeout next ts)
  | inr h ↦ rw h (omega (arith, sweep_from-next timeout (min next (timeout - t)) ts))
]

leb-le : (a b : ℕ) → leb a b ≡ true → a ≤ b
leb-le a b h = ground arith

leb-lt : (a b : ℕ) → leb a b ≡ false → b < a
leb-lt a b h = ground arith

sweep_from-destroys :
    (timeout next : ℕ) (ts : List ℕ)
    → All (λ t. timeout ≤ t) (sweep_from timeout ts next).destroyed_idle
unfolding sweep_from
sweep_from-destroys timeout next [] = _
sweep_from-destroys timeout next (t ∷ ts) = elim (Bool-cases (leb timeout t)) [
  | inl h ↦ rw h (leb-le timeout t h, sweep_from-destroys timeout next ts)
  | inr h ↦ rw h (sweep_from-destroys timeout (min next (timeout - t)) ts)
]

sweep_from-keeps :
    (timeout next : ℕ) (ts : List ℕ)
    → All
        (IsCurrent timeout (sweep_from timeout ts next).next_wait)
        (sweep_from timeout ts next).kept
unfolding sweep_from
sweep_from-keeps timeout next [] = _
sweep_from-keeps timeout next (t ∷ ts) = elim (Bool-cases (leb timeout t)) [
  | inl h ↦ rw h (sweep_from-keeps timeout next ts)
  | inr h ↦
      let lt = leb-lt timeout t h in
      let le = sweep_from-next timeout (min next (timeout - t)) ts in
      rw h ((lt, omega arith), sweep_from-keeps timeout (min next (timeout - t)) ts)
]

sweep_from-waits :
    (timeout next : ℕ) (ts : List ℕ) → 0 < next → 0 < (sweep_from timeout ts next).next_wait
unfolding sweep_from
sweep_from-waits timeout next [] h = h
sweep_from-waits timeout next (t ∷ ts) h = elim (Bool-cases (leb timeout t)) [
  | inl e ↦ rw e (sweep_from-waits timeout next ts h)
  | inr e ↦
      let lt = leb-lt timeout t e in
      rw e (sweep_from-waits timeout (min next (timeout - t)) ts (omega arith))
]

sweep_from-length :
    (timeout next : ℕ) (ts : List ℕ)
    → length (sweep_from timeout ts next).destroyed_idle + length (sweep_from timeout ts next).kept
      ≡ length ts
unfolding sweep_from
sweep_from-length timeout next [] = omega arith
sweep_from-length timeout next (t ∷ ts) = elim (Bool-cases (leb timeout t)) [
  | inl h ↦ rw h (omega (arith, sweep_from-length timeout next ts))
  | inr h ↦ rw h (omega (arith, sweep_from-length timeout (min next (timeout - t)) ts))
]

-- With a timeout above 0, the function of the idle timer destroys only connections that have been idle
-- for the timeout, keeps only those that have not, loses none, and lets the timer fire again after a
-- wait above 0 and at most the timeout, by which no connection kept is idle for longer than the timeout.
pub sweep_from-right :
    (timeout : ℕ) (ts : List ℕ)
    → 0 < timeout
    → All (λ t. timeout ≤ t) (sweep_from timeout ts timeout).destroyed_idle
      × All
          (IsCurrent timeout (sweep_from timeout ts timeout).next_wait)
          (sweep_from timeout ts timeout).kept
      × (length (sweep_from timeout ts timeout).destroyed_idle
            + length (sweep_from timeout ts timeout).kept
          ≡ length ts)
      × (0 < (sweep_from timeout ts timeout).next_wait)
      × ((sweep_from timeout ts timeout).next_wait ≤ timeout)
sweep_from-right timeout ts h = (
  sweep_from-destroys timeout timeout ts,
  sweep_from-keeps timeout timeout ts,
  sweep_from-length timeout timeout ts,
  sweep_from-waits timeout timeout ts h,
  sweep_from-next timeout timeout ts,
)
