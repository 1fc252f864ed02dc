-- ===== src/Tests/Control.antt =====
-- A client of the control interface.
use meteodata_server.Base.{◌≡◌, refl, true, ◌++◌, List, [], ◌∷◌, Bytes, some}
use meteodata_server.Control.Connection.{
  Input, receives, sends, fails_reading, eof, no_wait, flush_delay, start, step,
}
use meteodata_server.Control.Connection.Invariant.{IsSound, run, waiting, at_rest, started-IsSound}
use meteodata_server.Control.Connection.Commands.{command_answered}
use meteodata_server.Control.Queries.{
  Server, connectors, connectors_query_handler, exporters_query_handler, general_query_handler,
  query_handler_chain, ok, calls, handle_query, execute,
}
use meteodata_server.Control.Queries as Queries
use meteodata_server.Control.Queries.Dispatch.{query_of, query_dispatched}

-- Every query is answered by `ok`.
abbrev agree : Bytes → Bytes
agree query = b'o' ∷ b'k' ∷ []

abbrev status : Bytes
status = b's' ∷ b't' ∷ b'a' ∷ b't' ∷ b'u' ∷ b's' ∷ []

abbrev inputs : List Input
inputs =
    receives (status ++ (10 ∷ [])) ∷ sends ∷ receives [] ∷ receives status ∷ fails_reading eof ∷ []

started-IsSound_example :
    IsSound (run agree inputs (start agree (record (at_rest [] [] []) { is_open = true })))
started-IsSound_example = started-IsSound agree inputs [] [] []

command_answered_example :
    step agree sends (step agree (receives (10 ∷ status)) (waiting no_wait status [] []))
    ≡ waiting flush_delay [] [] ((b'o' ∷ b'k' ∷ 10 ∷ []) ∷ [])
command_answered_example =
    command_answered agree no_wait status (10 ∷ status) [] [] (b's')
      (b't' ∷ b'a' ∷ b't' ∷ b'u' ∷ b's' ∷ []) status
      (refl, (refl, (refl, (refl, (refl, (refl, tt)))))) refl

abbrev server : Server
server = record { connectors = (status, 7) ∷ (b'm' ∷ [], 8) ∷ (b'm' ∷ [], 9) ∷ []; exporters = [] }

abbrev stop_word : Bytes
stop_word = b's' ∷ b't' ∷ b'o' ∷ b'p' ∷ []

query_dispatched_example :
    handle_query server query_handler_chain
      (query_of connectors_query_handler.category stop_word (b'm' ∷ []))
    ≡ some (ok, calls connectors Queries.stop 8 ∷ [])
unfolding execute
query_dispatched_example =
    query_dispatched connectors_query_handler.category stop_word (b'm' ∷ [])
      (refl, (refl, (refl, (refl, (refl, (refl, (refl, (refl, (refl, (refl, tt))))))))))
      (refl, (refl, (refl, (refl, tt)))) server (general_query_handler ∷ [])
      (exporters_query_handler ∷ []) connectors_query_handler Queries.stop (refl, tt) refl refl
      (refl, (refl, tt))
