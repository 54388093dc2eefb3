-- ===== src/Batch/Laws.antt =====
-- What the lookups of a batch find.
use jsonrpc.Base.{
  ℕ, ◌+◌, true, false, Bool-cases, Option, none, some, List, [], ◌∷◌, ◌++◌, length, All, get_elem?,
  ◌≡◌, ap, subst, ◌∙◌, ◌⊎◌, inl, inr, refl, arith,
}
use mathlib.Core.Path.{ap₂}
use jsonrpc.Message.Id.{MessageId, is_zero, equal}
use jsonrpc.Message.Id.Equal.{equal_lem}
use jsonrpc.Batch.{index_from, index, contains, get, delete, remove_at}

module _ {ℓ} {B : Type ℓ} where
  get_elem?-middle :
      (pre : List B) (v : B) (post : List B) → get_elem? (pre ++ v ∷ post) (length pre) ≡ some v
  get_elem?-middle [] v post = refl
  get_elem?-middle (x ∷ pre) v post = get_elem?-middle pre v post

  remove_at-middle :
      (pre : List B) (v : B) (post : List B)
      → remove_at (pre ++ v ∷ post) (length pre) ≡ pre ++ post
  remove_at-middle [] v post = refl
  remove_at-middle (x ∷ pre) v post = rw (remove_at-middle pre v post)

module _ {ℓ} {B : Type ℓ} (id_of : B → MessageId) where
  -- No element has an equal ID.
  abbrev pub Misses : MessageId → List B → Type 0
  Misses id = All (λ v. equal id (id_of v) ≡ false)

  -- The first element with an equal ID stands behind `pre`.
  pub record FirstMatch (id : MessageId) (b : List B) : Type ℓ where
    pub pre : List B
    pub found : B
    pub post : List B
    pub splits : b ≡ pre ++ found ∷ post
    pub misses : Misses id pre
    pub matches : equal id (id_of found) ≡ true

  abbrev Finds : MessageId → List B → ℕ → Option ℕ → Type ℓ
  Finds id b i r =
      (Misses id b × (r ≡ none)) ⊎ ((m : FirstMatch id b) × (r ≡ some (i + length m.pre)))

  later :
      (id : MessageId) (v : B) (vs : List B) (i : ℕ) (r : Option ℕ)
      → equal id (id_of v) ≡ false
      → Finds id vs (i + 1) r
      → Finds id (v ∷ vs) i r
  later id v vs i r h (inl (m, e)) = inl ((h, m), e)
  later id v vs i r h (inr (m, e)) = inr (
    record {
      pre = v ∷ m.pre;
      found = m.found;
      post = m.post;
      splits = rw (← m.splits);
      misses = (h, m.misses);
      matches = m.matches;
    },
    ground arith,
  )

  index_from_skip :
      (id : MessageId) (v : B) (vs : List B) (i : ℕ)
      → equal id (id_of v) ≡ false
      → index_from id_of id vs (i + 1) ≡ index_from id_of id (v ∷ vs) i
  unfolding index_from
  index_from_skip id v vs i h = rw h

  index_from_hit :
      (id : MessageId) (v : B) (vs : List B) (i : ℕ)
      → equal id (id_of v) ≡ true
      → index_from id_of id (v ∷ vs) i ≡ some (i + 0)
  unfolding index_from
  index_from_hit id v vs i h = rw h (ap some (omega arith))

  index_from-Finds : (id : MessageId) (b : List B) (i : ℕ) → Finds id b i (index_from id_of id b i)
  index_from-Finds id [] i = inl (tt, unfold index_from in refl)
  index_from-Finds id (v ∷ vs) i = elim (Bool-cases (equal id (id_of v))) [
    | inl h ↦ inr (
      record { pre = []; found = v; post = vs; splits = refl; misses = tt; matches = h },
      index_from_hit id v vs i h,
    )
    | inr h ↦
        subst (Finds id (v ∷ vs) i) (index_from_skip id v vs i h)
          (later id v vs i _ h (index_from-Finds id vs (i + 1)))
  ]

  zero-Misses : (id : MessageId) (b : List B) → is_zero id ≡ true → Misses id b
  unfolding is_zero
  zero-Misses id [] h = tt
  zero-Misses id (v ∷ vs) h = (ground (arith, equal_lem id (id_of v)), zero-Misses id vs h)

  index-Finds : (b : List B) (id : MessageId) → Finds id b 0 (index id_of b id)
  unfolding index
  index-Finds b id = elim (Bool-cases (is_zero id)) [
    | inl h ↦ inl (zero-Misses id b h, rw h)
    | inr h ↦ subst (Finds id b 0) (rw h) (index_from-Finds id b 0)
  ]

  -- Index, Contains, Get and Delete agree, on every batch and every ID. Either no element has an equal
  -- ID, nothing is found and the batch stays as it is. Or there is a first element with an equal ID:
  -- Index gives the number of those before it, Get and Delete give the element, and Delete
  -- leaves the others in their order.
  pub lookup_cases :
      (b : List B) (id : MessageId)
      → (Misses id b
          × (index id_of b id ≡ none)
          × (contains id_of b id ≡ false)
          × (get id_of b id ≡ none)
          × (delete id_of b id ≡ (none, b)))
        ⊎ ((m : FirstMatch id b) × (index id_of b id ≡ some (length m.pre))
            × (contains id_of b id ≡ true)
            × (get id_of b id ≡ some m.found)
            × (delete id_of b id ≡ (some m.found, m.pre ++ m.post)))
  unfolding contains get delete
  lookup_cases b id = elim (index-Finds b id) [
    | inl (m, e) ↦ inl (m, e, rw e, rw e, rw e)
    | inr (m, e) ↦
        let e' : index id_of b id ≡ some (length m.pre) = e ∙ ap some (omega arith) in
        inr (
          m,
          e',
          rw e',
          rw (e', m.splits) (get_elem?-middle m.pre m.found m.post),
          rw (e', m.splits)
              (ap₂ (λ x y. (x, y)) (get_elem?-middle m.pre m.found m.post)
                (remove_at-middle m.pre m.found m.post)),
        )
  ]
