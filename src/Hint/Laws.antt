-- ===== src/Hint/Laws.antt =====
-- What a hint promises.
use jsonrpc.Base.{ℕ, true, [], ◌∷◌, ◌++◌, Bytes, ◌≡◌, refl, arith, All}
use jsonrpc.Hint.{hint_type, trim_space, is_space}

trim_space-cons : (a : ℕ) (s : Bytes) → is_space a ≡ true → trim_space (a ∷ s) ≡ trim_space s
unfolding trim_space
trim_space-cons a [] h = ground arith
trim_space-cons a (b ∷ []) h = ground arith
trim_space-cons a (b ∷ c ∷ s) h = ground arith

trim_space-append :
    (ws s : Bytes) → All (λ c. is_space c ≡ true) ws → trim_space (ws ++ s) ≡ trim_space s
trim_space-append [] s _ = refl
trim_space-append (w ∷ ws) s (h, hs) =
    rw (trim_space-cons w (ws ++ s) h) (trim_space-append ws s hs)

-- Any run of one-byte white space in front of a message leaves its hint as it is. The run may hold
-- vertical tabs and form feeds.
pub hint_type-append :
    (ws s : Bytes) → All (λ c. is_space c ≡ true) ws → hint_type (ws ++ s) ≡ hint_type s
unfolding hint_type
hint_type-append ws s h = rw (trim_space-append ws s h)
