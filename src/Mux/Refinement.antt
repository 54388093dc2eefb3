-- ===== src/Mux/Refinement.antt =====
-- MethodMux of handler.go against its specification: a function from names to handlers.
use mathlib.Core.Path.{fun_ext}
use jsonrpc.Base.{
  Bool, true, negsuc, codes, Option-cases, Option, none, some, is_some, List, [], ◌∷◌, Bytes,
  bytes_eq, ◌≡◌, inl, inr, refl, ap, if◌then◌else◌,
}
use jsonrpc.Value.{Error, nil, no_data, method_not_found}
use jsonrpc.Failure.{GoError, rpc, errors_is, method_already_exists}
use jsonrpc.Message.Request.{Request}
use jsonrpc.Handler.{Context, Handler, HandlerOutcome, returns, result}
use jsonrpc.Mux.{
  MethodMux, load, store, remove, new_method_mux, register, replace, methods, delete, handle,
  delegate, already_exists, set_default,
}
use jsonrpc.Mux.Laws.{load-store, load-remove, listed, listed-load, register_new, register_refused}

-- A call of a method of the mux, and what it gives. Methods is observed by which names it lists.
pub data Operation : Type 0 where
  registers replaces : Bytes → Handler → Operation
  deletes : Bytes → Operation
  defaults : Option Handler → Operation
  handles : Context → Request → Operation
  lists : Operation

pub data Answer : Type 0 where
  nothing : Answer
  registered already_there failed : Answer
  handled : HandlerOutcome → Answer
  listing : (Bytes → Bool) → Answer

-- What Register gives: nil, an error that is ErrMethodAlreadyExists, or another error.
unfoldable pub registration : Option GoError → Answer
unfolding errors_is
registration none = registered
registration (some e) = if errors_is method_already_exists e then already_there else failed

unfoldable pub step : MethodMux → Operation → MethodMux × Answer
unfolding register replace delete set_default handle methods
step mm (registers k h) = let (m, err) = register mm k h in (m, registration err)
step mm (replaces k h) = (replace mm k h, nothing)
step mm (deletes k) = (delete mm k, nothing)
step mm (defaults d) = (set_default mm d, nothing)
step mm (handles ctx req) = (mm, handled (handle mm ctx req))
step mm lists = (mm, listing (λ k. listed k (methods mm)))

-- The error for a method without a handler, as the specification of JSON-RPC has it.
abbrev pub no_method : Error
no_method = record {
  present = true;
  code = negsuc 32600;
  message = codes "Method not found";
  data_field = no_data;
}

-- The specification: a handler or nothing for each name, and the default.
pub record Table : Type 0 where
  pub handlers : Bytes → Option Handler
  pub fallback : Option Handler

abbrev pub empty_table : Table
empty_table = record { handlers = λ k. none; fallback = none }

abbrev pub with_name : Table → Bytes → Option Handler → Table
with_name t k h = record t { handlers = λ j. if bytes_eq k j then h else t.handlers j }

-- A request goes to the handler of its method, else to the default, and else gets the error -32601.
unfoldable pub handled_by : Option Handler → Option Handler → Handler
handled_by (some h) fallback = h
handled_by none (some h) = h
handled_by none none = λ ctx req. returns (result nil) (some (rpc no_method))

unfoldable pub specified : Table → Operation → Table × Answer
unfolding handled_by
specified t (registers k h) =
    if is_some (t.handlers k) then (t, already_there) else (with_name t k (some h), registered)
specified t (replaces k h) = (with_name t k (some h), nothing)
specified t (deletes k) = (with_name t k none, nothing)
specified t (defaults d) = (record t { fallback = d }, nothing)
specified t (handles ctx req) = (t, handled (handled_by (t.handlers req.method) t.fallback ctx req))
specified t lists = (t, listing (λ k. is_some (t.handlers k)))

-- The answers of a history of calls.
unfoldable pub answers : MethodMux → List Operation → List Answer
unfolding step
answers mm [] = []
answers mm (o ∷ os) = let x = step mm o in x.1 ∷ answers x.0 os

unfoldable pub specified_answers : Table → List Operation → List Answer
unfolding specified
specified_answers t [] = []
specified_answers t (o ∷ os) = let x = specified t o in x.1 ∷ specified_answers x.0 os

-- What a mux stands for.
view : MethodMux → Table
unfolding load
view mm = record { handlers = λ k. load mm.mux k; fallback = mm.default_handler }

delegate-handled_by :
    (h d : Option Handler) (ctx : Context) (req : Request)
    → delegate h d ctx req ≡ handled_by h d ctx req
unfolding delegate handled_by method_not_found
delegate-handled_by (some h) d ctx req = refl
delegate-handled_by none (some d) ctx req = refl
delegate-handled_by none none ctx req = refl

-- A step of the mux is the step of the table that it stands for, with the same answer.
Simulates : MethodMux → Operation → Type 0
Simulates mm o =
    (view (step mm o).0 ≡ (specified (view mm) o).0) × ((step mm o).1 ≡ (specified (view mm) o).1)

stored :
    (mm : MethodMux) (k : Bytes) (h : Handler)
    → view (record mm { mux = store mm.mux k h }) ≡ with_name (view mm) k (some h)
unfolding view
stored mm k h =
    ap (λ f. record { handlers = f; fallback = mm.default_handler })
      (fun_ext (λ j. load-store mm.mux k j h))

removed :
    (mm : MethodMux) (k : Bytes)
    → view (record mm { mux = remove mm.mux k }) ≡ with_name (view mm) k none
unfolding view
removed mm k =
    ap (λ f. record { handlers = f; fallback = mm.default_handler })
      (fun_ext (λ j. load-remove mm.mux k j))

step-registers : (mm : MethodMux) (k : Bytes) (h : Handler) → Simulates mm (registers k h)
unfolding Simulates step specified view registration errors_is already_exists
step-registers mm k h = elim (Option-cases (load mm.mux k)) [
  | inl e ↦ rw (register_new mm k h e, e) (stored mm k h, refl)
  | inr (g, e) ↦ rw (register_refused mm k h g e, e) (refl, refl)
]

step-Simulates : (mm : MethodMux) (o : Operation) → Simulates mm o
unfolding Simulates step specified view replace delete set_default handle
step-Simulates mm (registers k h) = step-registers mm k h
step-Simulates mm (replaces k h) = (stored mm k h, refl)
step-Simulates mm (deletes k) = (removed mm k, refl)
step-Simulates mm (defaults none) = (refl, refl)
step-Simulates mm (defaults (some h)) = (refl, refl)
step-Simulates mm (handles ctx req) =
    (refl, ap handled (delegate-handled_by (load mm.mux req.method) mm.default_handler ctx req))
step-Simulates mm lists = (refl, ap listing (fun_ext (λ k. unfold methods in listed-load mm.mux k)))

answers-view :
    (mm : MethodMux) (os : List Operation) → answers mm os ≡ specified_answers (view mm) os
unfolding Simulates answers specified_answers
answers-view mm [] = refl
answers-view mm (o ∷ os) =
    let (q, a) = step-Simulates mm o in rw (answers-view (step mm o).0 os, q, a) refl

-- A new mux answers any history of calls of Register, Replace, Delete, SetDefault, Handle and Methods as a
-- table from names to handlers with a default does: Register refuses exactly the names that have a
-- handler, Handle asks the handler under the method's name, then the default, and Methods lists exactly the
-- names that have a handler.
pub answers-specified_answers :
    (os : List Operation) → answers new_method_mux os ≡ specified_answers empty_table os
unfolding new_method_mux view
answers-specified_answers os = answers-view new_method_mux os
