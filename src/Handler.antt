-- ===== src/Handler.antt =====
-- The Handler interface of handler.go and what it passes: a handler is a function of its context and
-- its request, which returns a result and an error, or panics.
use jsonrpc.Base.{Option, Bytes}
use jsonrpc.Value.{Any}
use jsonrpc.Failure.{GoError}
use jsonrpc.Message.Request.{Request}
use jsonrpc.Message.Response.{Response}

-- Of a context, the value under CtxFromAddr.
pub record Context : Type 0 where
  pub from_addr : Option Bytes

-- The dynamic type of a handler's result, as far as the server tells them apart. A `*Response` may be nil.
pub data HandlerResult : Type 0 where
  response : Response → HandlerResult
  nil_response : HandlerResult
  raw_response : Bytes → HandlerResult
  result : Any → HandlerResult

pub data HandlerOutcome : Type 0 where
  returns : HandlerResult → Option GoError → HandlerOutcome
  panics : Any → HandlerOutcome

abbrev pub Handler : Type 0
Handler = Context → Request → HandlerOutcome

-- NewFuncHandler and the Handle method of its result.
abbrev pub new_func_handler : (Context → Request → HandlerOutcome) → Handler
new_func_handler f = f
