-- ===== src/Execution/Service.antt =====
-- ExecutionService (execution/application/services/execution.service.ts). The answer of an
-- operation is the execution itself: `toResponseDto` copies its fields under their names.
pub mod Creation
pub mod Consistency
pub mod Operations
pub mod Requests
use workshop_service.Base.{
  ℕ, ◌*◌, Bool, ◌&&◌, ◌||◌, not, Option, none, some, is_some, get_or, List, [], ◌∷◌, ◌++◌, take,
  if◌then◌else◌,
}
use workshop_service.Int.{pos, sub_ℕ}
use workshop_service.Number.{Number, finite, less, number}
use workshop_service.Text.{Text, text, ◌===◌, trim, is_empty, to_upper_case, replace_spaces}
use workshop_service.Errors
use workshop_service.Errors.{Failure, domain, text_detail, Result, ok, or_raise}
use workshop_service.Errors.Action.{Action, pure, raise, lift, modify, ◌>>=◌, ◌>>◌}
use workshop_service.Messaging.{Outside}
use workshop_service.Execution.{
  in_diagnosis, finished, failed, Execution, ExecutionProps, Readings, create, required_identifier,
}
use workshop_service.Execution.Identity.{Identity, normalize_identity}
use workshop_service.Execution.Methods
use workshop_service.Execution.Methods.{same_status, same_text}
use workshop_service.Execution.Repository.{
  World, ExecutionMetricStatus, ExecutionOrm, find_by_id, find_by_saga_id, find_by_order_id, save,
}
use workshop_service.Execution.Publisher.{publish_started, publish_finished, publish_failed}

-- A method of the entity, run on an execution that this call holds.
abbrev pub on_entity : {A : Type 0} → Action Execution A → Execution → Action World Execution
on_entity m e w =
    let (r, e') = m e in elim r [ ok a ↦ (ok e', w) | Result.err f ↦ (Result.err f, w) ]

unfoldable pub identity_conflict : Failure
identity_conflict = domain (record {
  code = text "EXECUTION_IDENTITY_CONFLICT";
  message = text "Execution identity conflicts with an existing record.";
  details = [];
})

-- The test on the two executions that are found by saga and by order.
abbrev pub same_identity : Execution → Execution → Identity → Bool
same_identity by_saga by_order n =
    by_saga.id === by_order.id
    && (by_saga.order_id === n.order_id)
    && (by_order.saga_id === n.saga_id)
    && same_text by_saga.request_event_id n.request_event_id
    && same_text by_saga.correlation_id n.correlation_id

-- The argument of `Execution.create`.
abbrev pub queued_props : Identity → ExecutionProps
queued_props n = record {
  id = none;
  saga_id = n.saga_id;
  order_id = n.order_id;
  request_event_id = n.request_event_id;
  correlation_id = n.correlation_id;
  status = none;
  failure_code = none;
  failure_reason = none;
  queued_at = none;
  diagnosis_started_at = none;
  repair_started_at = none;
  finished_at = none;
  failed_at = none;
  created_at = none;
  updated_at = none;
}

-- The rest of `createQueuedExecution`, from the two look-ups.
unfoldable pub settle_identity :
    ExecutionOrm
    → Readings
    → Identity
    → Option Execution
    → Option Execution
    → Action World Execution
settle_identity orm now n (some by_saga) (some by_order) =
    if same_identity by_saga by_order n then pure by_saga else raise identity_conflict
settle_identity orm now n (some by_saga) none = raise identity_conflict
settle_identity orm now n none (some by_order) = raise identity_conflict
settle_identity orm now n none none = do
  execution ← lift (create now (queued_props n))
  save orm now execution

-- `createQueuedExecution` from the normalised identifiers on.
unfoldable pub create_normalized : ExecutionOrm → Readings → Identity → Action World Execution
unfolding settle_identity
create_normalized orm now n = do
  by_saga ← find_by_saga_id orm now n.saga_id
  by_order ← find_by_order_id orm now n.order_id
  settle_identity orm now n by_saga by_order

-- `createQueuedExecution`
unfoldable pub create_queued_execution : ExecutionOrm → Readings → Identity → Action World Execution
unfolding create_normalized
create_queued_execution orm now raw = do
  n ← lift (normalize_identity raw)
  create_normalized orm now n

unfoldable pub execution_not_found : Text → Failure
execution_not_found id = domain (record {
  code = text "EXECUTION_NOT_FOUND";
  message = text "Execution was not found.";
  details = ("id", text_detail id) ∷ [];
})

-- `loadExecution`
unfoldable pub load_execution : ExecutionOrm → Readings → Text → Action World Execution
load_execution orm now id = do
  key ← lift (required_identifier (text "executionId") id)
  found ← find_by_id orm now key
  lift (or_raise found (execution_not_found id))

-- `findById`
unfoldable pub find_execution : ExecutionOrm → Readings → Text → Action World Execution
unfolding load_execution
find_execution orm now id = load_execution orm now id

-- `findByOrderId`
unfoldable pub find_execution_of_order :
    ExecutionOrm → Readings → Text → Action World (Option Execution)
find_execution_of_order orm now order_id = do
  key ← lift (required_identifier (text "orderId") order_id)
  find_by_order_id orm now key

-- `secondsBetween`
unfoldable pub seconds_between : ℕ → ℕ → Number
seconds_between start stop = finite (sub_ℕ (stop * 1000) (start * 1000))

-- `observeDuration`, up to the histogram (common/metrics/metrics.registry.ts): a negative
-- duration is not observed.
unfoldable pub observe_duration : ExecutionMetricStatus → Number → World → World
observe_duration status seconds w =
    if less seconds (number 0)
    then w
    else record w { durations = w.durations ++ ((status, seconds) ∷ []) }

-- `observeDurationForDiagnosis`
unfoldable pub observe_duration_for_diagnosis : Execution → World → World
unfolding observe_duration seconds_between
observe_duration_for_diagnosis e w = elim e.diagnosis_started_at [
  | none ↦ w
  | some at ↦ observe_duration ExecutionMetricStatus.diagnosis (seconds_between e.queued_at at) w
]

-- `observeDurationForRepair`
unfoldable pub observe_duration_for_repair : Execution → World → World
unfolding observe_duration seconds_between
observe_duration_for_repair e w = elim e.diagnosis_started_at [
  | none ↦ w
  | some start ↦ elim e.repair_started_at [
    | none ↦ w
    | some at ↦ observe_duration ExecutionMetricStatus.repair (seconds_between start at) w
  ]
]

-- `observeDurationForFinish`: from the repair, or from the diagnosis where there was none.
unfoldable pub observe_duration_for_finish : Execution → World → World
unfolding observe_duration seconds_between
observe_duration_for_finish e w = elim e.finished_at [
  | none ↦ w
  | some at ↦ elim e.repair_started_at [
    | some start ↦ observe_duration ExecutionMetricStatus.finished (seconds_between start at) w
    | none ↦ elim e.diagnosis_started_at [
      | none ↦ w
      | some start ↦ observe_duration ExecutionMetricStatus.finished (seconds_between start at) w
    ]
  ]
]

-- What `startDiagnosis` saves, and the duration that it observes.
unfoldable pub save_diagnosis : ExecutionOrm → Readings → Execution → Action World Execution
save_diagnosis orm now moved = do
  saved ← save orm now moved
  modify (observe_duration_for_diagnosis saved)
  pure saved

-- The loaded execution, moved and saved unless it is in diagnosis already.
unfoldable pub persist_diagnosis : ExecutionOrm → Readings → ℕ → Execution → Action World Execution
persist_diagnosis orm now at execution =
    if not (same_status execution.status in_diagnosis)
    then on_entity (Methods.start_diagnosis at) execution >>= save_diagnosis orm now
    else pure execution

unfoldable pub announce_started :
    ExecutionOrm → Outside → Readings → Execution → Action World Execution
announce_started orm o now persisted = do publish_started orm o now persisted.id; pure persisted

-- `startDiagnosis`
unfoldable pub start_diagnosis :
    ExecutionOrm → Outside → Readings → ℕ → Text → Action World Execution
start_diagnosis orm o now at id =
    load_execution orm now id >>= persist_diagnosis orm now at >>= announce_started orm o now

-- What `startRepair` saves, and the duration that it observes.
unfoldable pub save_repair : ExecutionOrm → Readings → Execution → Action World Execution
save_repair orm now moved = do
  saved ← save orm now moved
  modify (observe_duration_for_repair saved)
  pure saved

-- The loaded execution, moved and saved.
unfoldable pub persist_repair : ExecutionOrm → Readings → ℕ → Execution → Action World Execution
persist_repair orm now at execution =
    on_entity (Methods.start_repair at) execution >>= save_repair orm now

-- `startRepair`
unfoldable pub start_repair : ExecutionOrm → Readings → ℕ → Text → Action World Execution
start_repair orm now at id = load_execution orm now id >>= persist_repair orm now at

-- What `finish` saves, and the duration that it observes.
unfoldable pub save_finish : ExecutionOrm → Readings → Execution → Action World Execution
save_finish orm now moved = do
  saved ← save orm now moved
  modify (observe_duration_for_finish saved)
  pure saved

-- The loaded execution, moved and saved unless it is finished already.
unfoldable pub persist_finish : ExecutionOrm → Readings → ℕ → Execution → Action World Execution
persist_finish orm now at execution =
    if not (same_status execution.status finished)
    then on_entity (Methods.finish at) execution >>= save_finish orm now
    else pure execution

unfoldable pub announce_finished :
    ExecutionOrm → Outside → Readings → Execution → Action World Execution
announce_finished orm o now persisted = do publish_finished orm o now persisted.id; pure persisted

-- `finish`
unfoldable pub finish : ExecutionOrm → Outside → Readings → ℕ → Text → Action World Execution
finish orm o now at id =
    load_execution orm now id >>= persist_finish orm now at >>= announce_finished orm o now

-- `normalizeFailureCode`
unfoldable pub normalize_failure_code : Text → Result Text
normalize_failure_code value =
    Errors.◌>>=◌ (required_identifier (text "failureCode") value)
      (λ t. ok (replace_spaces (to_upper_case t)))

-- `normalizeFailureReason`
unfoldable pub normalize_failure_reason : Option Text → Option Text
normalize_failure_reason none = none
normalize_failure_reason (some value) =
    let normalized = trim value in if is_empty normalized then none else some (take 500 normalized)

-- The loaded execution, moved and saved unless it has failed with this code and reason already.
unfoldable pub persist_failure :
    ExecutionOrm → Readings → ℕ → Text → Option Text → Execution → Action World Execution
persist_failure orm now at code reason execution =
    if not (same_status execution.status failed)
      || not (same_text execution.failure_code (some code))
      || not (same_text execution.failure_reason reason)
    then on_entity (Methods.fail code reason at) execution >>= save orm now
    else pure execution

unfoldable pub announce_failed :
    ExecutionOrm → Outside → Readings → Text → Execution → Action World Execution
announce_failed orm o now code persisted = do
  publish_failed orm o now persisted.id code
  pure persisted

-- `fail` from the loaded execution on.
unfoldable pub fail_loaded :
    ExecutionOrm → Outside → Readings → ℕ → Text → Option Text → Execution → Action World Execution
unfolding persist_failure announce_failed
fail_loaded orm o now at failure_code failure_reason execution = do
  code ← lift (normalize_failure_code failure_code)
  persisted ← persist_failure orm now at code (normalize_failure_reason failure_reason) execution
  announce_failed orm o now code persisted

-- `fail`, with the two fields of FailExecutionDto.
unfoldable pub fail :
    ExecutionOrm → Outside → Readings → ℕ → Text → Text → Option Text → Action World Execution
fail orm o now at id failure_code failure_reason =
    load_execution orm now id >>= fail_loaded orm o now at failure_code failure_reason
