-- ===== src/Execution/Listing.antt =====
-- The list of executions: `TypeOrmExecutionRepository.findAll` (execution/infrastructure/
-- repositories), on which `ExecutionService.findAll` rests.
use workshop_service.Base.{Option, none, some, List, [], ◌∷◌, get_or}
use workshop_service.Text.{Text, text}
use workshop_service.Errors.{Result, ◌>>=◌}
use workshop_service.Execution.{ExecutionStatus, Execution, Readings, queued}
use workshop_service.Execution.Methods.{same_status}
use workshop_service.Execution.Mapper.{ExecutionRow, to_domain_list}
use workshop_service.Listing.{ascending, Query, Engine}

abbrev pub ExecutionEngine : Type 1
ExecutionEngine = Engine ExecutionRow Text

-- Where no status is asked for, the queue.
abbrev pub execution_query : Option ExecutionStatus → Query ExecutionRow Text
execution_query status = record {
  conditions = (λ (row : ExecutionRow). same_status row.status (get_or status queued)) ∷ [];
  order = some (text "queued_at", ascending);
  limit = none;
  offset = none;
}

unfoldable pub select_executions :
    ExecutionEngine
    → Readings
    → Option ExecutionStatus
    → List ExecutionRow
    → Result (List Execution)
select_executions engine now status t =
    engine.get_many (execution_query status) t >>= to_domain_list now
