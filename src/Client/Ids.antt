-- ===== src/Client/Ids.antt =====
-- The IDs that a client gives to its requests.
use jsonrpc.Base.{
  ℕ, zero, suc, ◌+◌, ◌%◌, ◌^◌, ◌≤◌, ◌<◌, pos, true, false, List, [], ◌∷◌, ◌++◌, map, All, Bytes,
  ◌≡◌, ◌≢◌, refl, ap, sym, subst, ◌∙◌, int_eq_iff, append-nil, append_assoc, arith,
}
use jsonrpc.Value.{Any}
use jsonrpc.Failure.{Outcome, ok, fail}
use jsonrpc.Json.{Json, int64}
use jsonrpc.Message.Id.{MessageId, new_id, equal}
use jsonrpc.Message.Id.Equal.{equal_lem}
use jsonrpc.Message.Params.{Params}
use jsonrpc.Message.Request.{Request, request_id, new_request_with_params}
use mathlib.Core.List.{map-append}
use jsonrpc.Batch
use jsonrpc.Client.{Argument, Client, add_request, add_params, make_params_from_any}

-- Numbers that are less than 2 ^ 32 apart differ in their last 32 bits.
mod_apart : (a d : ℕ) → d < 2 ^ 32 → 0 < d → a % 2 ^ 32 ≢ (a + d) % 2 ^ 32
mod_apart a d lt gt e = omega arith

-- The ID with the last 32 bits of a number.
abbrev pub numeral : ℕ → MessageId
numeral a = record { value = int64 (pos (a % 2 ^ 32)); present = true }

-- The IDs of the next requests, where the counter has counted up to a number.
abbrev pub numbered : ℕ → ℕ → List MessageId
numbered a zero = []
numbered a (suc k) = numeral (a + 1) ∷ numbered (a + 1) k

-- Any two of the IDs are unequal.
abbrev pub Apart : List MessageId → Type 0
Apart [] = Unit
Apart (x ∷ xs) = All (λ y. equal x y ≡ false) xs × Apart xs

numeral-differs :
    (a b d : ℕ) → b ≡ a + d → 0 < d → d < 2 ^ 32 → equal (numeral a) (numeral b) ≡ false
numeral-differs a b d e gt lt = ground (
  arith,
  equal_lem (numeral a) (numeral b),
  int_eq_iff (pos (a % 2 ^ 32)) (pos (b % 2 ^ 32)),
  mod_apart a d,
)

numbered-differs :
    (a b d k : ℕ)
    → b ≡ a + d
    → d + k < 2 ^ 32
    → All (λ y. equal (numeral a) y ≡ false) (numbered b k)
numbered-differs a b d zero e lt = tt
numbered-differs a b d (suc k) e lt = (
  numeral-differs a (b + 1) (d + 1) (omega arith) (omega arith) (omega arith),
  numbered-differs a (b + 1) (d + 1) k (omega arith) (omega arith),
)

numbered-Apart : (a k : ℕ) → k ≤ 2 ^ 32 → Apart (numbered a k)
numbered-Apart a zero h = tt
numbered-Apart a (suc k) h = (
  numbered-differs (a + 1) (a + 1) 0 k (omega arith) (omega arith),
  numbered-Apart (a + 1) k (omega arith),
)

numbered_eq : (a b k l : ℕ) → a ≡ b → k ≡ l → numbered a k ≡ numbered b l
numbered_eq a b k l e f = rw (e, f)

abbrev pub counts : Outcome Params → ℕ
counts (ok p) = 1
counts (fail e) = 0

step_numbered :
    (a k : ℕ) (o : Outcome Params)
    → numbered a (counts o) ++ numbered (a + counts o) k ≡ numbered a (counts o + k)
step_numbered a k (ok p) = sym (numbered_eq a a (1 + k) (suc k) refl (omega arith))
step_numbered a k (fail e) = numbered_eq (a + 0) a k (0 + k) (omega arith) (omega arith)

module _ (j : Json) (type_name : Any → Bytes) where
  -- How many calls of Add have usable parameters.
  abbrev pub usable : List (Bytes × Argument) → ℕ
  unfolding make_params_from_any
  usable [] = 0
  usable ((method, params) ∷ us) = counts (make_params_from_any j type_name params) + usable us

module _ {ℓ} {S : Type ℓ} (j : Json) (type_name : Any → Bytes) where
  -- Some calls of Add on one builder, one after the other; their errors are dropped.
  abbrev pub add_all : Client S → List Request → List (Bytes × Argument) → Client S × List Request
  unfolding add_request
  add_all c b [] = (c, b)
  add_all c b ((method, params) ∷ us) =
      let r = add_request j type_name c b method params in add_all r.0 r.1 us

  add_params-step :
      (a : ℕ) (c : Client S) (b : List Request) (method : Bytes) (o : Outcome Params)
      → c.id ≡ a % 2 ^ 32
      → (map request_id (add_params c b method o).1 ≡ map request_id b ++ numbered a (counts o))
        × ((add_params c b method o).0.id ≡ (a + counts o) % 2 ^ 32)
  unfolding add_params request_id new_request_with_params new_id Batch.add
  add_params-step a c b method (ok p) h =
      let e : (c.id + 1) % 2 ^ 32 ≡ (a + 1) % 2 ^ 32 = omega arith in
      (
        map-append request_id b _
            ∙ ap (λ n. map request_id b ++ record { value = int64 (pos n); present = true } ∷ []) e,
        e,
      )
  add_params-step a c b method (fail e) h = (sym (append-nil _), omega arith)

  add_all-numbered :
      (a : ℕ) (c : Client S) (b : List Request) (us : List (Bytes × Argument))
      → c.id ≡ a % 2 ^ 32
      → map request_id (add_all c b us).1 ≡ map request_id b ++ numbered a (usable j type_name us)
  unfolding add_request make_params_from_any
  add_all-numbered a c b [] h = sym (append-nil _)
  add_all-numbered a c b ((method, params) ∷ us) h =
      let o = make_params_from_any j type_name params in
      let s = add_params-step a c b method o h in
      let r = add_params c b method o in
      add_all-numbered (a + counts o) r.0 r.1 us s.1
      ∙ ap (λ xs. xs ++ numbered (a + counts o) (usable j type_name us)) s.0
      ∙ append_assoc (map request_id b) (numbered a (counts o)) _
      ∙ ap (λ xs. map request_id b ++ xs) (step_numbered a (usable j type_name us) o)

  -- However a builder is filled, its requests have the next IDs of the client's counter, one for each
  -- call of Add with usable parameters, in order; and as long as there are at most 2 ^ 32 of them, no
  -- two of these IDs are equal, wherever the counter wraps.
  pub add_all-Apart :
      (c : Client S) (us : List (Bytes × Argument))
      → c.id < 2 ^ 32
      → usable j type_name us ≤ 2 ^ 32
      → (map request_id (add_all c [] us).1 ≡ numbered c.id (usable j type_name us))
        × Apart (map request_id (add_all c [] us).1)
  add_all-Apart c us lt le =
      let e = add_all-numbered c.id c [] us (omega arith) in
      (e, subst Apart (sym e) (numbered-Apart c.id (usable j type_name us) le))
