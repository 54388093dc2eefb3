-- ===== src/Batch/Correlate/Keys.antt =====
-- The keys of the map of BatchCorrelate (batch.go), and the responses that Get finds.
use mathlib.Core.Path.{ap₂}
use jsonrpc.Base.{
  Bool, true, false, ◌&&◌, Bool-cases, Option, none, some, List, [], ◌∷◌, ◌++◌, int_eq_iff,
  bytes_eq_iff, ◌≡◌, ◌↔◌, inl, inr, refl, sym, subst, ◌∙◌, if◌then◌else◌, arith,
}
use jsonrpc.Json.{IdValue, nil, int64, number, str}
use jsonrpc.Message.Id.{MessageId, equal}
use jsonrpc.Message.Response.{Response, response_id}
use jsonrpc.Batch.{get}
use jsonrpc.Batch.Laws.{Misses, lookup_cases}
use jsonrpc.Batch.Correlate.{same_dynamic, same_flag, same_key}

same_dynamic_iff : (a b : IdValue) → (same_dynamic a b ≡ true) ↔ (a ≡ b)
unfolding same_dynamic
same_dynamic_iff nil nil = ground arith
same_dynamic_iff (int64 a) (int64 b) = ground (arith, int_eq_iff a b)
same_dynamic_iff (number a) (number b) = ground (arith, bytes_eq_iff a b)
same_dynamic_iff (str a) (str b) = ground (arith, bytes_eq_iff a b)
same_dynamic_iff a b = ground arith

same_flag_iff : (p q : Bool) → (same_flag p q ≡ true) ↔ (p ≡ q)
same_flag_iff p q = ground arith

-- Two keys are the same exactly if the IDs are equal as values.
same_key_iff : (a b : MessageId) → (same_key a b ≡ true) ↔ (a ≡ b)
unfolding same_key
same_key_iff a b = (
  λ h.
      let p : a.present ≡ b.present = (same_flag_iff a.present b.present).0 (ground (arith, h)) in
      let v : a.value ≡ b.value = (same_dynamic_iff a.value b.value).0 (ground (arith, h)) in
      ap₂ (λ x y. record { value = x; present = y }) v p,
  λ e.
      subst (λ x. (same_flag a.present x.present && same_dynamic a.value x.value) ≡ true) e
        (rw ((same_flag_iff a.present a.present).1 refl)
          ((same_dynamic_iff a.value a.value).1 refl)),
)

-- Whether two IDs are equal as values.
pub id_eq : (a b : MessageId) → Dec (a ≡ b)
id_eq a b = elim (Bool-cases (same_key a b)) [
  | inl h ↦ yes ((same_key_iff a b).0 h)
  | inr h ↦ no (λ e. let k = (same_key_iff a b).1 e in cc)
]

abbrev pub holds {ℓ} : {A : Type ℓ} → Dec A → Bool
holds (yes _) = true
holds (no _) = false

pub same_key-holds : (a b : MessageId) → same_key a b ≡ holds (id_eq a b)
same_key-holds a b = go (id_eq a b)
  where
    go : (d : Dec (a ≡ b)) → same_key a b ≡ holds d
    go (yes e) = (same_key_iff a b).1 e
    go (no n) = elim (Bool-cases (same_key a b)) [
      | inl h ↦ absurd (n ((same_key_iff a b).0 h))
      | inr h ↦ h
    ]

-- The first response with an equal ID.
abbrev pub first_equal : MessageId → List Response → Option Response
first_equal id [] = none
first_equal id (res ∷ rest) =
    let later = first_equal id rest in if equal id res.id then some res else later

first_equal-Misses :
    (id : MessageId) (rs : List Response) → Misses response_id id rs → first_equal id rs ≡ none
unfolding response_id
first_equal-Misses id [] m = refl
first_equal-Misses id (res ∷ rest) (h, m) = rw h (first_equal-Misses id rest m)

first_equal-matches :
    (id : MessageId) (pre : List Response) (res : Response) (post : List Response)
    → Misses response_id id pre
    → equal id (response_id res) ≡ true
    → first_equal id (pre ++ res ∷ post) ≡ some res
unfolding response_id
first_equal-matches id [] res post m h = rw h refl
first_equal-matches id (r ∷ pre) res post (k, m) h = rw k (first_equal-matches id pre res post m h)

pub get-first_equal :
    (id : MessageId) (rs : List Response) → get response_id rs id ≡ first_equal id rs
get-first_equal id rs = elim (lookup_cases response_id rs id) [
  | inl (m, _, _, g, _) ↦ g ∙ sym (first_equal-Misses id rs m)
  | inr (m, _, _, g, _) ↦
      g ∙ sym (rw m.splits (first_equal-matches id m.pre m.found m.post m.misses m.matches))
]
