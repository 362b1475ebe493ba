-- ===== src/Tests/SinkTests.antt =====
-- src/execution_sink.hpp: two executions in a buffer that has room for two.
use lowlat_matching_engine.Common.{◌≡◌, arith, List, [], ◌∷◌}
use lowlat_matching_engine.Types.{Execution}
use lowlat_matching_engine.Sink.{
  ExecutionBuffer, no_execution, reserve, clear, buffer_sink, vector_sink, emit,
}
use lowlat_matching_engine.Sink.Buffer.{IsBuffer, contents, reserve-emit}

abbrev fresh : ExecutionBuffer
fresh = record { cells = λ _. no_execution; capacity = 0; size = 0 }

abbrev two_trades : List Execution
two_trades =
    record { incoming_order_id = 3; resting_order_id = 1; price = 5; qty = 7 }
    ∷ record { incoming_order_id = 3; resting_order_id = 2; price = 6; qty = 1 }
    ∷ []

fresh-IsBuffer : IsBuffer fresh
fresh-IsBuffer = record { fits = omega arith; word = omega arith }

reserve-emit_example :
    IsBuffer (emit buffer_sink (reserve fresh 2) two_trades)
    × (contents (emit buffer_sink (reserve fresh 2) two_trades) ≡ emit vector_sink [] two_trades)
    × (contents (clear (emit buffer_sink (reserve fresh 2) two_trades)) ≡ [])
reserve-emit_example = reserve-emit fresh 2 two_trades fresh-IsBuffer (omega arith) (omega arith)
