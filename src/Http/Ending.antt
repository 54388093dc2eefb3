-- ===== src/Http/Ending.antt =====
-- ServeHTTP of httphandler.go on a request body that ends.
use jsonrpc.Base.{[]}
use jsonrpc.Message.Response.{Response}
use jsonrpc.Http.{HttpReply}

abbrev unsupported : HttpReply
unsupported = record { status = 415; content_type = []; body = [] }
