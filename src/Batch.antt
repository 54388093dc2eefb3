-- ===== src/Batch.antt =====
-- batch.go: a batch is a list. Its elements are of any type that has an ID.
pub mod Laws
pub mod Correlate
mod Examples
use jsonrpc.Base.{
  ℕ, zero, suc, ◌+◌, ℤ, pos, negsuc, Bool, true, false, Option, none, some, is_some, List, [], ◌∷◌,
  ◌++◌, get_elem?, if◌then◌else◌,
}
use jsonrpc.Message.Id.{MessageId, is_zero, equal}

-- slices.Delete(b, i, i + 1)
abbrev pub remove_at {ℓ} : {B : Type ℓ} → List B → ℕ → List B
remove_at [] i = []
remove_at (x ∷ xs) zero = xs
remove_at (x ∷ xs) (suc i) = x ∷ remove_at xs i

-- NewBatch: the capacity is not part of the model.
abbrev pub new_batch {ℓ} : {B : Type ℓ} → ℕ → List B
new_batch size = []

-- Add
unfoldable pub add {ℓ} : {B : Type ℓ} → List B → List B → List B
add b vs = b ++ vs

-- Grow: the capacity is not part of the model, and slices.Grow panics below 0, for which nothing stands.
unfoldable pub grow {ℓ} : {B : Type ℓ} → List B → ℤ → Option (List B)
grow b (pos n) = some b
grow b (negsuc n) = none

-- Reset
unfoldable pub reset {ℓ} : {B : Type ℓ} → List B → List B
reset b = []

module _ {ℓ} {B : Type ℓ} (id_of : B → MessageId) where
  -- The loop of Index from position `i` on.
  index_from : MessageId → List B → ℕ → Option ℕ
  index_from id [] i = none
  index_from id (v ∷ vs) i = if equal id (id_of v) then some i else index_from id vs (i + 1)

  -- Index: nothing stands for -1.
  unfoldable pub index : List B → MessageId → Option ℕ
  unfolding is_zero index_from
  index b id = if is_zero id then none else index_from id b 0

  -- Contains
  unfoldable pub contains : List B → MessageId → Bool
  unfolding index
  contains b id = is_some (index b id)

  get_at : List B → Option ℕ → Option B
  get_at b none = none
  get_at b (some i) = get_elem? b i

  -- Get: nothing stands for `(nil, false)`.
  unfoldable pub get : List B → MessageId → Option B
  unfolding index get_at
  get b id = get_at b (index b id)

  delete_at : List B → Option ℕ → Option B × List B
  delete_at b none = (none, b)
  delete_at b (some i) = (get_elem? b i, remove_at b i)

  -- Delete: the element that it returns, and the batch that is left.
  unfoldable pub delete : List B → MessageId → Option B × List B
  unfolding index delete_at
  delete b id = delete_at b (index b id)
