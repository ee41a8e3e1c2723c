-- ===== src/Tests/Executions.antt =====
-- Executions: the theorems at concrete inputs.
use workshop_service.Base.{ℕ, ◌≡◌, refl, ◌⊎◌, none, some, List, [], ◌∷◌}
use workshop_service.Text.{
  text, trim, trim_start, trim_end, is_space, to_upper_case, upper_unit, replace_spaces, squeeze,
}
use workshop_service.Errors.{ok}
use workshop_service.Execution.{
  ExecutionProps, Execution, finished, queued, create, new_execution, required_identifier,
  optional_identifier, sanitize_failure_code,
}
use workshop_service.Execution.Methods.{start_diagnosis, ensure_transition, is_terminal}
use workshop_service.Execution.Identity.{normalize_identity}
use workshop_service.Execution.Lifecycle.{
  Command, diagnose, repair, complete, abort, obey, ◌⟶◌, IsCoherent, obey-⟶,
}
use workshop_service.Execution.Lifecycle.History.{obey_all, history-IsCoherent, obey_again}
use workshop_service.Execution.Lifecycle.Failing.{IsCode, sanitize_failure_code-IsCode}
use workshop_service.Execution.Mapper.{to_orm_entity, to_domain}
use workshop_service.Execution.Mapper.Roundtrip.{to_domain-to_orm_entity, new_execution-IsStorable}
use workshop_service.Execution.Repository.{
  World, same_row, find_where, find_by_saga_id, find_by_order_id, save,
}
use workshop_service.Execution.Service.{create_queued_execution, create_normalized, settle_identity}
use workshop_service.Execution.Service.Creation.{create_queued_execution_again}
use workshop_service.Execution.Service.Consistency.{IsConsistent}
use workshop_service.Execution.Service.Requests
use workshop_service.Execution.Service.Requests.{
  Request, serve, Served, serve-IsConsistent, Served-IsConsistent,
}
use workshop_service.Persistence.{find?, upsert}
use workshop_service.Tests.{answering-Answers, executions, outside, empty_world, reading, identity}

abbrev props : ExecutionProps
props = record {
  id = none;
  saga_id = text "saga-1";
  order_id = text "order-1";
  request_event_id = none;
  correlation_id = none;
  status = none;
  failure_code = none;
  failure_reason = none;
  queued_at = none;
  diagnosis_started_at = none;
  repair_started_at = none;
  finished_at = none;
  failed_at = none;
  created_at = none;
  updated_at = none;
}

-- The execution of these properties, created at 10.
abbrev fresh : Execution
fresh = record {
  id = text "x-1";
  saga_id = text "saga-1";
  order_id = text "order-1";
  request_event_id = none;
  correlation_id = none;
  status = queued;
  failure_code = none;
  failure_reason = none;
  queued_at = 10;
  diagnosis_started_at = none;
  repair_started_at = none;
  finished_at = none;
  failed_at = none;
  created_at = 10;
  updated_at = 10;
}

fresh_made : create (reading "x-1" 10) props ≡ ok fresh
unfolding create new_execution required_identifier optional_identifier trim trim_start trim_end
    is_space text
fresh_made = refl

-- A whole life, with a call that comes too late.
abbrev life : List (Command × ℕ)
life = (diagnose, 20) ∷ (repair, 30) ∷ (complete, 40) ∷ (abort (text "late") none, 50) ∷ []

abbrev done : Execution
done = record fresh {
  status = finished;
  diagnosis_started_at = some 20;
  finished_at = some 40;
  updated_at = 40;
}

obey-⟶_example :
    ((obey diagnose 20 fresh).1 ≡ fresh) ⊎ (fresh.status ⟶ (obey diagnose 20 fresh).1.status)
unfolding obey start_diagnosis ensure_transition is_terminal
obey-⟶_example = obey-⟶ diagnose 20 fresh refl

history-IsCoherent_example : IsCoherent (obey_all life fresh)
history-IsCoherent_example =
    history-IsCoherent (reading "x-1" 10) props life fresh refl refl fresh_made

obey_again_example :
    obey diagnose 90 (obey diagnose 20 fresh).1 ≡ (ok tt, (obey diagnose 20 fresh).1)
unfolding obey start_diagnosis ensure_transition is_terminal
obey_again_example = obey_again diagnose 20 90 fresh refl

code_made : sanitize_failure_code (text " no part ") ≡ ok (text "NO_PART")
unfolding sanitize_failure_code trim trim_start trim_end is_space text to_upper_case upper_unit
    replace_spaces squeeze
code_made = refl

sanitize_failure_code-IsCode_example : IsCode (text "NO_PART")
sanitize_failure_code-IsCode_example =
    sanitize_failure_code-IsCode (text " no part ") (text "NO_PART") code_made

to_domain-to_orm_entity_example : to_domain (reading "x-2" 99) (to_orm_entity fresh) ≡ ok fresh
unfolding create
to_domain-to_orm_entity_example =
    to_domain-to_orm_entity (reading "x-2" 99) fresh
      (new_execution-IsStorable (reading "x-1" 10) props fresh fresh_made)

-- The world after the request.
abbrev queued_once : World
queued_once = (create_queued_execution executions (reading "x-1" 10) identity empty_world).1

abbrev queued_execution_1 : Execution
queued_execution_1 = record fresh { request_event_id = some (text "event-1") }

create_queued_execution_again_example :
    create_queued_execution executions (reading "x-2" 20) identity queued_once
    ≡ (ok queued_execution_1, queued_once)
unfolding create_queued_execution create_normalized settle_identity normalize_identity
    required_identifier optional_identifier trim trim_start trim_end is_space text find_by_saga_id
    find_by_order_id find_where find? upsert save same_row create new_execution to_orm_entity
    to_domain
create_queued_execution_again_example =
    create_queued_execution_again executions (answering-Answers same_row) (reading "x-1" 10)
      (reading "x-2" 20) identity empty_world queued_once queued_execution_1 tt refl

no_executions : IsConsistent []
no_executions = record { storable = tt; coherent = tt; ids = tt; sagas = tt; orders = tt }

Served-IsConsistent_example :
    IsConsistent
      (serve executions outside
        (reading "x-1" 10)
        10
        (Requests.enqueue identity)
        empty_world).1.executions
unfolding find?
Served-IsConsistent_example =
    Served-IsConsistent executions outside empty_world
      (serve executions outside (reading "x-1" 10) 10 (Requests.enqueue identity) empty_world).1
      refl (Requests.then (reading "x-1" 10) 10 (Requests.enqueue identity) Requests.start refl)
