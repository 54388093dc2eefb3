-- ===== src/Server/PacketErrors.antt =====
-- What ServePacket returns.
use jsonrpc.Base.{◌||◌, Option, none, some, List, [], ◌∷◌, ◌++◌, ◌≡◌, refl, sym, ap, ◌∙◌, arith}
use jsonrpc.Failure.{GoError, Sentinel, sentinel, canceled, errors_is, errors_join}
use jsonrpc.Failure.Laws.{is_opt, any_is, errors_is-join}
use jsonrpc.Server.{context_cause, join_errors, stops, serve_packet}

join_errors-is :
    (k : Sentinel) (err : Option GoError) (es : List (Option GoError))
    → is_opt k (join_errors err es) ≡ (is_opt k err || any_is k es)
unfolding join_errors
join_errors-is k err [] = ground arith
join_errors-is k err (e ∷ es) =
    join_errors-is k (errors_join (err ∷ e ∷ [])) es
    ∙ ground (arith, errors_is-join k (err ∷ e ∷ []))

-- The causes with which the context may be canceled first, and else the end of a goroutine.
abbrev pub first_cause : List (Option GoError) → GoError
first_cause [] = sentinel canceled
first_cause (none ∷ cs) = sentinel canceled
first_cause (some e ∷ cs) = e

context_cause-first :
    (causes : List (Option GoError)) (e : Option GoError) (es : List (Option GoError))
    → context_cause (causes ++ stops (e ∷ es)) ≡ some (first_cause causes)
unfolding context_cause
context_cause-first [] e es = refl
context_cause-first (none ∷ cs) e es = refl
context_cause-first (some d ∷ cs) e es = refl

join-one :
    (a : Option GoError) (e : GoError) → (x : GoError) × (errors_join (a ∷ some e ∷ []) ≡ some x)
unfolding errors_join
join-one none e = (_, refl)
join-one (some d) e = (_, refl)

joined_is :
    (k : Sentinel) (es : List (Option GoError)) (e : GoError)
    → is_opt k (errors_join (join_errors none es ∷ some e ∷ [])) ≡ (any_is k es || errors_is k e)
joined_is k es e =
    errors_is-join k (join_errors none es ∷ some e ∷ []) ∙ ground (arith, join_errors-is k none es)

-- Where ServePacket has at least one goroutine it returns an error once all have returned, and that is any
-- sentinel that the error of one of them is, or the cause with which the context was canceled first; that
-- cause is context.Canceled if no cause was given.
pub serve_packet-errors :
    (causes : List (Option GoError)) (e : Option GoError) (es : List (Option GoError))
    → (x : GoError) × (serve_packet causes (e ∷ es) ≡ some x)
      × ((k : Sentinel) → errors_is k x ≡ (any_is k (e ∷ es) || errors_is k (first_cause causes)))
unfolding serve_packet
serve_packet-errors causes e es =
    let (x, j) = join-one (join_errors none (e ∷ es)) (first_cause causes) in
    let j2 =
      ap (λ c. errors_join (join_errors none (e ∷ es) ∷ c ∷ [])) (context_cause-first causes e es)
      ∙ j in
    (x, j2, λ k. sym (ap (is_opt k) j) ∙ joined_is k (e ∷ es) (first_cause causes))
