-- ===== src/Rpc/Loop/Execution.antt =====
-- Run of rpcserver.go with its goroutines: every order in which the main loop and the goroutines of the
-- messages can do what they do.
use jsonrpc.Base.{
  ℕ, ◌+◌, Bool, true, false, Option, List, [], ◌∷◌, ◌++◌, Bytes, if◌then◌else◌, ◌≡◌, refl, arith,
}
use jsonrpc.Handler.{Context}
use jsonrpc.Rpc.{RpcServer, Event, spawned, waited}
use jsonrpc.Rpc.Message.{run}

-- What the main loop does by itself, and at once: all but starting a goroutine and waiting for the goroutines.
abbrev pub is_plain : Event → Bool
is_plain (spawned _ _) = false
is_plain waited = false
is_plain _ = true

abbrev pub concat : List (List Event) → List Event
concat [] = []
concat (g ∷ gs) = g ++ concat gs

module _ (rp : RpcServer) (schedule : List Bytes → List Bytes) (ctx : Context) where
  -- `Execution es gs tr`: with the events `es` still to be done by the main loop, and in each goroutine that
  -- runs those of its list in `gs`, the events can be done in the order `tr`. A goroutine that is started does
  -- what `run` does, the goroutines and the loop take steps in any order, and wg.Wait returns once no
  -- goroutine runs.
  pub data Execution : List Event → List (List Event) → List Event → Type 0 where
    finished : Execution [] [] []
    start :
        {es : List Event} {gs : List (List Event)} {tr : List Event} (m : Bytes)
        (from : Option Bytes)
        → Execution es (run rp schedule ctx m from ∷ gs) tr
        → Execution (spawned m from ∷ es) gs tr
    wait : {es tr : List Event} → Execution es [] tr → Execution (waited ∷ es) [] (waited ∷ tr)
    loop :
        {es : List Event} {gs : List (List Event)} {tr : List Event} (e : Event)
        → is_plain e ≡ true
        → Execution es gs tr
        → Execution (e ∷ es) gs (e ∷ tr)
    step :
        {es : List Event} {tr : List Event} (e : Event) (g : List Event)
        (pre post : List (List Event))
        → Execution es (pre ++ g ∷ post) tr
        → Execution es (pre ++ (e ∷ g) ∷ post) (e ∷ tr)
    ended :
        {es : List Event} {tr : List Event} (pre post : List (List Event))
        → Execution es (pre ++ post) tr
        → Execution es (pre ++ [] ∷ post) tr

  drained :
      {es : List Event} {tr : List Event} (gs : List (List Event))
      → Execution es [] tr
      → (us : List Event) × Execution es gs us
  drained {es} {tr} [] x = (tr, x)
  drained {es} {tr} (g ∷ gs) x = let (us, y) = drained gs x in go g us y
    where
      go :
          (g : List Event) (us : List Event)
          → Execution es gs us
          → (vs : List Event) × Execution es (g ∷ gs) vs
      go [] us y = (us, Execution.ended [] gs y)
      go (e ∷ g) us y = let (vs, z) = go g us y in (e ∷ vs, Execution.step e g [] gs z)

  -- The loop and the goroutines never block one another: from any events that are still to be done, they can all
  -- be done.
  pub execution :
      (es : List Event) (gs : List (List Event)) → (tr : List Event) × Execution es gs tr
  execution [] gs = drained gs Execution.finished
  execution (spawned m from ∷ es) gs =
      let (tr, x) = execution es (run rp schedule ctx m from ∷ gs) in (tr, Execution.start m from x)
  execution (waited ∷ es) gs = let (tr, x) = execution es [] in drained gs (Execution.wait x)
  execution (e ∷ es) gs = let (tr, x) = execution es gs in (e ∷ tr, Execution.loop e refl x)

  -- What stands behind one event of the main loop.
  abbrev pub does : Event → List Event
  does (spawned m from) = run rp schedule ctx m from
  does e = e ∷ []

  abbrev pub performed : List Event → List Event
  performed [] = []
  performed (e ∷ es) = does e ++ performed es

  pub does-plain : (e : Event) → is_plain e ≡ true → does e ≡ e ∷ []
  does-plain (spawned m from) h = cc
  does-plain e h = refl

-- How many of the events pass a test.
abbrev pub counted : (Event → Bool) → List Event → ℕ
counted p [] = 0
counted p (e ∷ es) = (if p e then 1 else 0) + counted p es

pub counted-append :
    (p : Event → Bool) (es fs : List Event) → counted p (es ++ fs) ≡ counted p es + counted p fs
counted-append p [] fs = omega arith
counted-append p (e ∷ es) fs = omega (arith, counted-append p es fs)

-- What one goroutine does counts among what all do.
pub counted-concat :
    (p : Event → Bool) (a b : List (List Event)) (g : List Event)
    → counted p (concat (a ++ g ∷ b)) ≡ counted p g + counted p (concat (a ++ b))
counted-concat p [] b g = counted-append p g (concat b)
counted-concat p (x ∷ a) b g = omega (
  arith,
  counted-append p x (concat (a ++ g ∷ b)),
  counted-append p x (concat (a ++ b)),
  counted-concat p a b g,
)
