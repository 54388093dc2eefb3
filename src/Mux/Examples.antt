-- ===== src/Mux/Examples.antt =====
-- A concrete mux.
use jsonrpc.Base.{ℕ, none, List, [], ◌∷◌, Bytes, codes, ◌≡◌}
use jsonrpc.Value.{other}
use jsonrpc.Message.Request.{Request, zero_request}
use jsonrpc.Handler.{Context, Handler, returns, result}
use jsonrpc.Mux.{new_method_mux}
use jsonrpc.Mux.Refinement.{
  Operation, registers, deletes, handles, lists, answers, specified_answers, empty_table,
  answers-specified_answers,
}

-- Answers every request with the same number.
abbrev answer : ℕ → Handler
answer n ctx req = returns (result (other n)) none

abbrev add : Bytes
add = codes "add"

abbrev add_request : Request
add_request = record zero_request { method = add }

abbrev no_context : Context
no_context = record { from_addr = none }

abbrev history : List Operation
history =
    registers add (answer 1)
    ∷ registers add (answer 2)
    ∷ handles no_context add_request
    ∷ lists
    ∷ deletes add
    ∷ handles no_context add_request
    ∷ []

answers-specified_answers_example :
    answers new_method_mux history ≡ specified_answers empty_table history
answers-specified_answers_example = answers-specified_answers history
