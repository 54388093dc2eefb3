-- ===== src/Stream/Frame.antt =====
-- What the frame around a call leaves.
use jsonrpc.Base.{
  ℤ, is_positive, Bool-cases, Bool, true, false, ◌||◌, ◌&&◌, Option, none, some, List, [], ◌∷◌,
  ◌++◌, ◌≡◌, ◌⊎◌, inl, inr, refl, arith,
}
use jsonrpc.Failure.{GoError, Sentinel, errors_is}
use jsonrpc.Failure.Laws.{is_opt, errors_join-some}
use jsonrpc.Stream.{
  Support, neither, closes, deadlines, Event, with_timeout, with_cancel, clear_deadline,
  past_deadline, close, Interruption, clearing, derive, interrupted, join_context, frame,
}

-- A failure stays a failure, and is what it was and what the context's error is; a success stays one.
abbrev pub Joined : Option GoError → Option GoError → Option GoError → Type 0
Joined err ctx_err out =
    ((err ≡ none) × (out ≡ none))
    ⊎ ((e f : GoError) × (err ≡ some e)
        × (out ≡ some f)
        × ((s : Sentinel) → errors_is s f ≡ (errors_is s e || is_opt s ctx_err)))

pub join_context-Joined :
    (err ctx_err : Option GoError) → Joined err ctx_err (join_context err ctx_err)
unfolding join_context
join_context-Joined none ctx_err = inl (refl, refl)
join_context-Joined (some e) ctx_err =
    let (x, j, q) = errors_join-some e ctx_err in inr (e, x, refl, j, q)

-- Whether a call closes the stream.
abbrev pub closing : List Event → Bool
closing [] = false
closing (close ∷ es) = true
closing (with_timeout t ∷ es) = closing es
closing (with_cancel ∷ es) = closing es
closing (clear_deadline ∷ es) = closing es
closing (past_deadline ∷ es) = closing es

abbrev pub is_closer : Support → Bool
is_closer closes = true
is_closer neither = false
is_closer deadlines = false

derived : (t : ℤ) (es : List Event) → closing (derive t ∷ es) ≡ closing es
derived t es = elim (Bool-cases (is_positive t)) [ inl e ↦ rw e refl | inr e ↦ rw e refl ]

pub frame_closing :
    (t : ℤ) (support : Support) (fired : Bool)
    → closing (clearing support ++ derive t ∷ interrupted support fired)
      ≡ (is_closer support && fired)
frame_closing t neither true = derived t []
frame_closing t neither false = derived t []
frame_closing t closes true = derived t (close ∷ [])
frame_closing t closes false = derived t []
frame_closing t deadlines true = derived t (past_deadline ∷ [])
frame_closing t deadlines false = derived t []

-- A stream with deadlines is not closed.
pub frame_deadlines {ℓ} :
    {X : Type ℓ} (reset : Option GoError) (t : ℤ) (i : Interruption) (x : X)
    (y : X × Option GoError)
    → closing (frame reset deadlines t i x y).2 ≡ false
unfolding frame
frame_deadlines none t i x (y, err) = frame_closing t deadlines i.fired
frame_deadlines (some e) t i x (y, err) = refl

-- What a call leaves in its frame.
pub frame-outcome {ℓ} :
    {X : Type ℓ} (reset : Option GoError) (support : Support) (t : ℤ) (i : Interruption) (x : X)
    (y : X × Option GoError)
    → let z = frame reset support t i x y in
      ((reset ≡ none) × (z.0 ≡ y.0) × Joined y.1 i.ctx_err z.1)
      ⊎ ((e : GoError) × (reset ≡ some e) × (z ≡ (x, some e, clear_deadline ∷ [])))
unfolding frame
frame-outcome none support t i x (y, err) = inl (refl, refl, join_context-Joined err i.ctx_err)
frame-outcome (some e) support t i x (y, err) = inr (e, refl, refl)

-- The error of a context that a call asks for, which it does only in a frame.
abbrev pub context_error : Support → Interruption → Option GoError
context_error neither i = none
context_error closes i = i.ctx_err
context_error deadlines i = i.ctx_err

pub unread_context : (err : Option GoError) → Joined err none err
unread_context none = inl (refl, refl)
unread_context (some e) = inr (e, e, refl, refl, λ s. ground arith)
