-- ===== src/Mux.antt =====
-- MethodMux of handler.go. The sync.Map is an association list with one entry for a key, and the
-- atomic pointer to the default handler is an `Option`.
pub mod Laws
pub mod Refinement
mod Examples
use jsonrpc.Base.{
  Bool, true, false, Option, none, some, List, [], ◌∷◌, map, Bytes, codes, bytes_eq, ◌++◌,
  if◌then◌else◌,
}
use jsonrpc.Value.{Any, nil, method_not_found}
use jsonrpc.Failure.{GoError, sentinel, method_already_exists, rpc, wrap_after}
use jsonrpc.Message.Request.{Request}
use jsonrpc.Handler.{Context, Handler, HandlerOutcome, returns, result, new_func_handler}

-- sync.Map: Load, Store and Delete.
pub load : List (Bytes × Handler) → Bytes → Option Handler
load [] k = none
load ((j, h) ∷ m) k = if bytes_eq j k then some h else load m k

pub store : List (Bytes × Handler) → Bytes → Handler → List (Bytes × Handler)
store [] k h = (k, h) ∷ []
store ((j, g) ∷ m) k h = if bytes_eq j k then (j, h) ∷ m else (j, g) ∷ store m k h

pub remove : List (Bytes × Handler) → Bytes → List (Bytes × Handler)
remove [] k = []
remove ((j, g) ∷ m) k = let rest = remove m k in if bytes_eq j k then rest else (j, g) ∷ rest

pub record MethodMux : Type 0 where
  pub default_handler : Option Handler
  pub mux : List (Bytes × Handler)

-- NewMethodMux
unfoldable pub new_method_mux : MethodMux
new_method_mux = record { default_handler = none; mux = [] }

-- fmt.Errorf("method '%s': %w", method, ErrMethodAlreadyExists)
abbrev pub already_exists : Bytes → GoError
unfolding wrap_after
already_exists method =
    wrap_after (codes "method '" ++ method ++ codes "': ") (sentinel method_already_exists)

store_new : MethodMux → Bytes → Handler → Option Handler → MethodMux × Option GoError
unfolding store already_exists
store_new mm method h (some _) = (mm, some (already_exists method))
store_new mm method h none = (record mm { mux = store mm.mux method h }, none)

-- Register, through LoadOrStore.
unfoldable pub register : MethodMux → Bytes → Handler → MethodMux × Option GoError
unfolding store_new load
register mm method h = store_new mm method h (load mm.mux method)

-- Replace
unfoldable pub replace : MethodMux → Bytes → Handler → MethodMux
unfolding store
replace mm method h = record mm { mux = store mm.mux method h }

-- RegisterFunc
unfoldable pub register_func : MethodMux → Bytes → Handler → MethodMux × Option GoError
unfolding register
register_func mm method f = register mm method (new_func_handler f)

-- ReplaceFunc
unfoldable pub replace_func : MethodMux → Bytes → Handler → MethodMux
unfolding replace
replace_func mm method f = replace mm method (new_func_handler f)

-- Methods, in the order of the list.
unfoldable pub methods : MethodMux → List Bytes
methods mm = map (λ e. e.0) mm.mux

-- Delete
unfoldable pub delete : MethodMux → Bytes → MethodMux
unfolding remove
delete mm method = record mm { mux = remove mm.mux method }

-- SetDefault; nothing stands for a nil handler.
unfoldable pub set_default : MethodMux → Option Handler → MethodMux
set_default mm none = record mm { default_handler = none }
set_default mm (some h) = record mm { default_handler = some h }

-- SetDefaultFunc
unfoldable pub set_default_func : MethodMux → Option Handler → MethodMux
unfolding set_default
set_default_func mm none = set_default mm none
set_default_func mm (some f) = set_default mm (some (new_func_handler f))

unfoldable pub delegate : Option Handler → Option Handler → Context → Request → HandlerOutcome
unfolding method_not_found
delegate (some h) _ ctx req = h ctx req
delegate none (some h) ctx req = h ctx req
delegate none none ctx req = returns (result nil) (some (rpc method_not_found))

-- Handle
unfoldable pub handle : MethodMux → Handler
unfolding delegate load
handle mm ctx req = delegate (load mm.mux req.method) mm.default_handler ctx req
