-- ===== src/Failure/Laws.antt =====
-- What errors.Is promises of a join.
use jsonrpc.Base.{
  Bytes, Bool, false, ◌||◌, List, [], ◌∷◌, ◌≡◌, ◌∙◌, refl, arith, Option, none, some,
}
use jsonrpc.Failure.{
  wrap, Sentinel, GoError, GoErrors, none_left, and, error_any_list, error_any, errors_is,
  is_sentinel, errors_join, joined, join_of, lines,
}

-- errors.Is of an error that may be nil.
abbrev pub is_opt : Sentinel → Option GoError → Bool
is_opt s none = false
is_opt s (some e) = errors_is s e

abbrev pub any_is : Sentinel → List (Option GoError) → Bool
any_is s [] = false
any_is s (e ∷ es) = is_opt s e || any_is s es

is_opt-join_of :
    (s : Sentinel) (es : GoErrors) → is_opt s (join_of es) ≡ error_any_list (is_sentinel s) es
unfolding errors_is error_any join_of lines
is_opt-join_of s none_left = refl
is_opt-join_of s (and e es) = refl

error_any_list-joined :
    (s : Sentinel) (es : List (Option GoError))
    → error_any_list (is_sentinel s) (joined es) ≡ any_is s es
unfolding errors_is error_any error_any_list
error_any_list-joined s [] = refl
error_any_list-joined s (none ∷ es) = error_any_list-joined s es
error_any_list-joined s (some e ∷ es) = rw (error_any_list-joined s es)

-- A join is a sentinel exactly if one of its parts is.
pub errors_is-join :
    (s : Sentinel) (es : List (Option GoError)) → is_opt s (errors_join es) ≡ any_is s es
unfolding errors_join
errors_is-join s es = is_opt-join_of s (joined es) ∙ error_any_list-joined s es

-- An error that is joined with another is any sentinel that one of the two is.
pub errors_join-some :
    (e : GoError) (other : Option GoError)
    → (x : GoError) × (errors_join (some e ∷ other ∷ []) ≡ some x)
      × ((k : Sentinel) → errors_is k x ≡ (errors_is k e || is_opt k other))
unfolding errors_join
errors_join-some e other = (
  wrap (lines (and e (joined (other ∷ [])))) (and e (joined (other ∷ []))),
  refl,
  λ k. errors_is-join k (some e ∷ other ∷ []) ∙ or_false (errors_is k e) (is_opt k other),
)
  where
    or_false : (a b : Bool) → (a || (b || false)) ≡ (a || b)
    or_false a b = ground arith

module _ (p : GoError → Bool)
    (unwrapped : (t : Bytes) (es : GoErrors) → p (wrap t es) ≡ false) where
  abbrev pub any_opt : Option GoError → Bool
  any_opt none = false
  any_opt (some e) = error_any p e

  abbrev pub any_of : List (Option GoError) → Bool
  any_of [] = false
  any_of (e ∷ es) = any_opt e || any_of es

  list-joined : (es : List (Option GoError)) → error_any_list p (joined es) ≡ any_of es
  unfolding error_any_list
  list-joined [] = refl
  list-joined (none ∷ es) = list-joined es
  list-joined (some e ∷ es) = rw (list-joined es)

  opt-join_of : (es : GoErrors) → any_opt (join_of es) ≡ error_any_list p es
  unfolding error_any join_of
  opt-join_of none_left = refl
  opt-join_of (and e es) = rw (unwrapped (lines (and e es)) (and e es))

  -- A join has an error with a property that no wrapping has exactly if one of its parts does.
  pub error_any-join : (es : List (Option GoError)) → any_opt (errors_join es) ≡ any_of es
  unfolding errors_join
  error_any-join es = opt-join_of (joined es) ∙ list-joined es
