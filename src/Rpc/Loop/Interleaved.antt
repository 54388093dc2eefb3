-- ===== src/Rpc/Loop/Interleaved.antt =====
-- What Run of rpcserver.go has done when it has returned, in whatever order the goroutines ran.
use jsonrpc.Base.{◌+◌, Bool, true, List, [], ◌∷◌, ◌++◌, Bytes, All, ◌≡◌, refl, ap, subst, arith}
use jsonrpc.Handler.{Context}
use jsonrpc.Rpc.{RpcServer, Event, spawned, waited}
use jsonrpc.Rpc.Message.{run}
use jsonrpc.Rpc.Loop.Execution.{
  is_plain, concat, Execution, does, performed, does-plain, counted, counted-append, counted-concat,
}

module _ (rp : RpcServer) (schedule : List Bytes → List Bytes) (ctx : Context) where
  -- The part of an execution before the loop has waited, and the part behind it.
  abbrev pub Split : List Event → List Event → List (List Event) → List Event → Type 0
  Split pre post gs tr =
      (us vs : List Event) × (tr ≡ us ++ waited ∷ vs)
      × ((p : Event → Bool)
          → counted p us ≡ counted p (performed rp schedule ctx pre) + counted p (concat gs))
      × Execution rp schedule ctx post [] vs

  pub split :
      {es : List Event} {gs : List (List Event)} {tr : List Event}
      → Execution rp schedule ctx es gs tr
      → (pre post : List Event) → es ≡ pre ++ waited ∷ post
      → Split pre post gs tr
  split Execution.finished [] post q = cc
  split Execution.finished (k ∷ pre) post q = cc
  split (Execution.start m from x) [] post q = cc
  split {gs = gs} (Execution.start m from x) (k ∷ pre) post q =
      let k_is : spawned m from ≡ k = cc in
      let (us, vs, h, c, y) = split x pre post cc in
      (
        us,
        vs,
        h,
        λ p.
            subst
              (λ z.
                counted p us
                ≡ counted p (does rp schedule ctx z ++ performed rp schedule ctx pre)
                  + counted p (concat gs))
              k_is
              (omega (
                arith,
                c p,
                counted-append p (run rp schedule ctx m from) (concat gs),
                counted-append p (run rp schedule ctx m from) (performed rp schedule ctx pre),
              )),
        y,
      )
  split (Execution.wait {es = fs} {tr = vs} x) [] post q =
      let same : fs ≡ post = cc in
      ([], vs, refl, λ p. refl, subst (λ z. Execution rp schedule ctx z [] vs) same x)
  split (Execution.wait x) (k ∷ pre) post q =
      let k_is : waited ≡ k = cc in
      let (us, vs, h, c, y) = split x pre post cc in
      (
        waited ∷ us,
        vs,
        ap (◌∷◌ waited) h,
        λ p.
            subst
              (λ z.
                counted p (waited ∷ us)
                ≡ counted p (does rp schedule ctx z ++ performed rp schedule ctx pre) + 0)
              k_is (omega (arith, c p)),
        y,
      )
  split (Execution.loop e h x) [] post q =
      let e_is : e ≡ waited = cc in
      let no : is_plain waited ≡ true = subst (λ z. is_plain z ≡ true) e_is h in cc
  split {gs = gs} (Execution.loop e h x) (k ∷ pre) post q =
      let k_is : e ≡ k = cc in
      let (us, vs, t, c, y) = split x pre post cc in
      (
        e ∷ us,
        vs,
        ap (◌∷◌ e) t,
        λ p.
            subst
              (λ z.
                counted p (e ∷ us)
                ≡ counted p (does rp schedule ctx z ++ performed rp schedule ctx pre)
                  + counted p (concat gs))
              k_is (rw (does-plain rp schedule ctx e h) (omega (arith, c p))),
        y,
      )
  split (Execution.step e g a b x) pre post q =
      let (us, vs, t, c, y) = split x pre post q in
      (
        e ∷ us,
        vs,
        ap (◌∷◌ e) t,
        λ p. omega (arith, c p, counted-concat p a b g, counted-concat p a b (e ∷ g)),
        y,
      )
  split (Execution.ended a b x) pre post q =
      let (us, vs, t, c, y) = split x pre post q in
      (us, vs, t, λ p. omega (arith, c p, counted-concat p a b []), y)

  -- Where no goroutine runs and the loop starts none, it does what is left in order.
  pub alone :
      {es : List Event} {gs : List (List Event)} {tr : List Event}
      → Execution rp schedule ctx es gs tr
      → gs ≡ []
      → All (λ e. is_plain e ≡ true) es
      → tr ≡ es
  alone Execution.finished g h = refl
  alone (Execution.start m from x) g (h, hs) = cc
  alone (Execution.wait x) g (h, hs) = cc
  alone (Execution.loop e k x) g (h, hs) = ap (◌∷◌ e) (alone x g hs)
  alone (Execution.step e k [] b x) g h = cc
  alone (Execution.step e k (_ ∷ a) b x) g h = cc
  alone (Execution.ended [] b x) g h = cc
  alone (Execution.ended (_ ∷ a) b x) g h = cc
