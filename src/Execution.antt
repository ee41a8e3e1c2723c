-- ===== src/Execution.antt =====
-- The execution of an order in the workshop: the entity and its state machine
-- (execution/domain/entities/execution.entity.ts). A `Date` is its number of milliseconds; a
-- reading of the clock or of the random generator is an argument.
pub mod Methods
pub mod Lifecycle
pub mod Listed
pub mod Listing
pub mod Mapper
pub mod Identity
pub mod Repository
pub mod Publisher
pub mod Service
use workshop_service.Base.{
  ℕ, Bool, true, false, ◌||◌, Option, none, some, [], ◌∷◌, ◌++◌, is_some, get_or, take,
  if◌then◌else◌, String,
}
use workshop_service.Text.{Text, text, trim, is_empty, to_upper_case, replace_spaces}
use workshop_service.Errors.{
  Failure, domain, error, DomainException, text_detail, Result, ok, err, ◌>>=◌, raise_if,
}

-- execution/domain/enums/execution-status.enum.ts
pub data ExecutionStatus : Type 0 where
  queued in_diagnosis in_repair finished failed : ExecutionStatus

pub record ExecutionProps : Type 0 where
  pub id : Option Text
  pub saga_id : Text
  pub order_id : Text
  pub request_event_id : Option Text
  pub correlation_id : Option Text
  pub status : Option ExecutionStatus
  pub failure_code : Option Text
  pub failure_reason : Option Text
  pub queued_at : Option ℕ
  pub diagnosis_started_at : Option ℕ
  pub repair_started_at : Option ℕ
  pub finished_at : Option ℕ
  pub failed_at : Option ℕ
  pub created_at : Option ℕ
  pub updated_at : Option ℕ

pub record Execution : Type 0 where
  pub id : Text
  pub saga_id : Text
  pub order_id : Text
  pub request_event_id : Option Text
  pub correlation_id : Option Text
  pub status : ExecutionStatus
  pub failure_code : Option Text
  pub failure_reason : Option Text
  pub queued_at : ℕ
  pub diagnosis_started_at : Option ℕ
  pub repair_started_at : Option ℕ
  pub finished_at : Option ℕ
  pub failed_at : Option ℕ
  pub created_at : ℕ
  pub updated_at : ℕ

-- What the constructor reads from outside: `randomUUID()` and its calls of `new Date()`.
pub record Readings : Type 0 where
  pub fresh_id : Text
  pub queued_now : ℕ
  pub created_now : ℕ
  pub updated_now : ℕ

-- `${field} is required.`, with the field's name.
unfoldable pub identifier_required : Text → Failure
identifier_required field = domain (record {
  code = text "EXECUTION_IDENTIFIER_REQUIRED";
  message = field ++ text " is required.";
  details = ("field", text_detail field) ∷ [];
})

-- `requiredIdentifier`
unfoldable pub required_identifier : Text → Text → Result Text
required_identifier field value =
    let normalized = trim value in
    if is_empty normalized then err (identifier_required field) else ok normalized

-- `optionalIdentifier`
unfoldable pub optional_identifier : Text → Option Text → Result (Option Text)
unfolding required_identifier
optional_identifier field none = ok none
optional_identifier field (some value) = required_identifier field value >>= λ t. ok (some t)

-- `private constructor`
unfoldable pub new_execution : Readings → ExecutionProps → Result Execution
new_execution now props = do
  saga_id ← required_identifier (text "sagaId") props.saga_id
  order_id ← required_identifier (text "orderId") props.order_id
  request_event_id ← optional_identifier (text "requestEventId") props.request_event_id
  correlation_id ← optional_identifier (text "correlationId") props.correlation_id
  ok (record {
    id = get_or props.id now.fresh_id;
    saga_id = saga_id;
    order_id = order_id;
    request_event_id = request_event_id;
    correlation_id = correlation_id;
    status = get_or props.status queued;
    failure_code = props.failure_code;
    failure_reason = props.failure_reason;
    queued_at = get_or props.queued_at now.queued_now;
    diagnosis_started_at = props.diagnosis_started_at;
    repair_started_at = props.repair_started_at;
    finished_at = props.finished_at;
    failed_at = props.failed_at;
    created_at = get_or props.created_at now.created_now;
    updated_at = get_or props.updated_at now.updated_now;
  })

-- `Execution.create`
unfoldable pub create : Readings → ExecutionProps → Result Execution
unfolding new_execution
create now props = new_execution now (record props { status = some queued })

-- `Execution.restore`
unfoldable pub restore : Readings → ExecutionProps → Result Execution
unfolding new_execution
restore now props = new_execution now props

unfoldable pub failure_code_required : Failure
failure_code_required = domain (record {
  code = text "EXECUTION_FAILURE_CODE_REQUIRED";
  message = text "Failure code is required.";
  details = [];
})

-- `sanitizeFailureCode`
unfoldable pub sanitize_failure_code : Text → Result Text
sanitize_failure_code value =
    let normalized = to_upper_case (trim value) in
    if is_empty normalized
    then err failure_code_required
    else ok (take 100 (replace_spaces normalized))

-- `sanitizeFailureReason`
unfoldable pub sanitize_failure_reason : Option Text → Option Text
sanitize_failure_reason none = none
sanitize_failure_reason (some value) =
    let normalized = trim value in if is_empty normalized then none else some (take 500 normalized)
