-- ===== src/Mux/Laws.antt =====
-- A mux is a map from method names to handlers with a default.
use jsonrpc.Base.{
  Bool, false, Option-cases, Option, none, some, is_some, List, [], ◌∷◌, map, Bytes, ◌||◌, bytes_eq,
  bytes_eq_iff, bytes_eq_comm, All, ◌≡◌, inl, inr, refl, sym, subst, if◌then◌else◌, arith,
}
use jsonrpc.Handler.{Handler}
use jsonrpc.Mux.{
  MethodMux, load, store, remove, new_method_mux, register, replace, methods, delete,
  already_exists, set_default,
}

pub load-store :
    (m : List (Bytes × Handler)) (k j : Bytes) (h : Handler)
    → load (store m k h) j ≡ (if bytes_eq k j then some h else load m j)
unfolding load store
load-store [] k j h = refl
load-store ((i, g) ∷ m) k j h =
    ground (arith, bytes_eq_iff k j, bytes_eq_iff i k, bytes_eq_iff i j, load-store m k j h)

pub load-remove :
    (m : List (Bytes × Handler)) (k j : Bytes)
    → load (remove m k) j ≡ (if bytes_eq k j then none else load m j)
unfolding load remove
load-remove [] k j = ground arith
load-remove ((i, g) ∷ m) k j =
    ground (arith, bytes_eq_iff k j, bytes_eq_iff i k, bytes_eq_iff i j, load-remove m k j)

pub register_new :
    (mm : MethodMux) (k : Bytes) (h : Handler)
    → load mm.mux k ≡ none
    → register mm k h ≡ (record mm { mux = store mm.mux k h }, none)
unfolding register
register_new mm k h e = rw (e, register)

pub register_refused :
    (mm : MethodMux) (k : Bytes) (h g : Handler)
    → load mm.mux k ≡ some g
    → register mm k h ≡ (mm, some (already_exists k))
unfolding register
register_refused mm k h g e = rw (e, register)

-- One call of a method that changes the mux.
pub data Update : Type 0 where
  registers replaces : Bytes → Handler → Update
  deletes : Bytes → Update
  defaults : Option Handler → Update

abbrev pub update : MethodMux → Update → MethodMux
unfolding register replace delete set_default
update mm (registers k h) = (register mm k h).0
update mm (replaces k h) = replace mm k h
update mm (deletes k) = delete mm k
update mm (defaults d) = set_default mm d

abbrev pub updates : MethodMux → List Update → MethodMux
unfolding register replace delete set_default
updates mm [] = mm
updates mm (u ∷ us) = updates (update mm u) us

abbrev pub Fresh : Bytes → List Bytes → Type 0
Fresh k = All (λ j. bytes_eq j k ≡ false)

abbrev pub Distinct : List Bytes → Type 0
Distinct [] = Unit
Distinct (k ∷ ks) = Fresh k ks × Distinct ks

abbrev pub listed : Bytes → List Bytes → Bool
listed k [] = false
listed k (j ∷ js) = bytes_eq j k || listed k js

abbrev pub names : List (Bytes × Handler) → List Bytes
names m = map (λ e. e.0) m

Fresh-store :
    (m : List (Bytes × Handler)) (k j : Bytes) (h : Handler)
    → Fresh j (names m)
    → bytes_eq k j ≡ false
    → Fresh j (names (store m k h))
unfolding store
Fresh-store [] k j h f ne = (ne, tt)
Fresh-store ((i, g) ∷ m) k j h f ne = ground (arith, Fresh-store m k j h f.1 ne)

Fresh-remove :
    (m : List (Bytes × Handler)) (k j : Bytes) → Fresh j (names m) → Fresh j (names (remove m k))
unfolding remove
Fresh-remove [] k j f = tt
Fresh-remove ((i, g) ∷ m) k j f = ground (arith, Fresh-remove m k j f.1)

Distinct-store :
    (m : List (Bytes × Handler)) (k : Bytes) (h : Handler)
    → Distinct (names m)
    → Distinct (names (store m k h))
unfolding store
Distinct-store [] k h d = (tt, tt)
Distinct-store ((i, g) ∷ m) k h (f, d) =
    ground (arith, Fresh-store m k i h f, Distinct-store m k h d, bytes_eq_comm k i)

Distinct-remove :
    (m : List (Bytes × Handler)) (k : Bytes) → Distinct (names m) → Distinct (names (remove m k))
unfolding remove
Distinct-remove [] k d = tt
Distinct-remove ((i, g) ∷ m) k (f, d) = ground (arith, Fresh-remove m k i f, Distinct-remove m k d)

pub listed-load : (m : List (Bytes × Handler)) (k : Bytes) → listed k (names m) ≡ is_some (load m k)
unfolding load
listed-load [] k = refl
listed-load ((i, g) ∷ m) k = ground (arith, listed-load m k)

update-Distinct :
    (mm : MethodMux) (u : Update) → Distinct (methods mm) → Distinct (methods (update mm u))
unfolding methods register replace delete set_default
update-Distinct mm (registers k h) d = elim (Option-cases (load mm.mux k)) [
  | inl e ↦
      subst (λ r. Distinct (methods r.0)) (sym (register_new mm k h e))
        (Distinct-store mm.mux k h d)
  | inr (g, e) ↦ subst (λ r. Distinct (methods r.0)) (sym (register_refused mm k h g e)) d
]
update-Distinct mm (replaces k h) d = Distinct-store mm.mux k h d
update-Distinct mm (deletes k) d = Distinct-remove mm.mux k d
update-Distinct mm (defaults none) d = d
update-Distinct mm (defaults (some h)) d = d

updates-Distinct :
    (mm : MethodMux) (us : List Update) → Distinct (methods mm) → Distinct (methods (updates mm us))
unfolding register replace delete set_default
updates-Distinct mm [] d = d
updates-Distinct mm (u ∷ us) d = updates-Distinct (update mm u) us (update-Distinct mm u d)

-- After any history of a new mux, Methods lists no name twice, and lists exactly the names that
-- have a handler.
pub methods-updates :
    (us : List Update) (k : Bytes)
    → Distinct (methods (updates new_method_mux us))
      × (listed k (methods (updates new_method_mux us))
          ≡ is_some (load (updates new_method_mux us).mux k))
unfolding register replace delete set_default
methods-updates us k = (
  updates-Distinct new_method_mux us (unfold methods new_method_mux in tt),
  unfold methods in listed-load (updates new_method_mux us).mux k,
)
