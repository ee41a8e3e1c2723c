-- ===== src/Execution/Mapper.antt =====
-- The rows of the table `executions` and the mapper between them and the entity
-- (execution/infrastructure/mappers/execution.mapper.ts).
pub mod Roundtrip
use workshop_service.Base.{ℕ, ◌≡◌, refl, false, Option, none, some, List}
use workshop_service.Text.{Text, trim, is_empty}
use workshop_service.Errors.{Result, ok, map_result}
use workshop_service.Execution.{
  ExecutionStatus, Execution, ExecutionProps, Readings, restore, required_identifier,
  optional_identifier,
}

-- execution/infrastructure/typeorm/execution.orm-entity.ts
pub record ExecutionRow : Type 0 where
  pub id : Text
  pub saga_id : Text
  pub order_id : Text
  pub request_event_id : Option Text
  pub correlation_id : Option Text
  pub status : ExecutionStatus
  pub failure_code : Option Text
  pub failure_reason : Option Text
  pub queued_at : ℕ
  pub diagnosis_started_at : Option ℕ
  pub repair_started_at : Option ℕ
  pub finished_at : Option ℕ
  pub failed_at : Option ℕ
  pub created_at : ℕ
  pub updated_at : ℕ

-- `toOrmEntity`
unfoldable pub to_orm_entity : Execution → ExecutionRow
to_orm_entity e = record {
  id = e.id;
  saga_id = e.saga_id;
  order_id = e.order_id;
  request_event_id = e.request_event_id;
  correlation_id = e.correlation_id;
  status = e.status;
  failure_code = e.failure_code;
  failure_reason = e.failure_reason;
  queued_at = e.queued_at;
  diagnosis_started_at = e.diagnosis_started_at;
  repair_started_at = e.repair_started_at;
  finished_at = e.finished_at;
  failed_at = e.failed_at;
  created_at = e.created_at;
  updated_at = e.updated_at;
}

-- `toDomain`. A row has every time that `restore` would read from the clock.
unfoldable pub to_domain : Readings → ExecutionRow → Result Execution
unfolding restore
to_domain now row = restore now (record {
  id = some row.id;
  saga_id = row.saga_id;
  order_id = row.order_id;
  request_event_id = row.request_event_id;
  correlation_id = row.correlation_id;
  status = some row.status;
  failure_code = row.failure_code;
  failure_reason = row.failure_reason;
  queued_at = some row.queued_at;
  diagnosis_started_at = row.diagnosis_started_at;
  repair_started_at = row.repair_started_at;
  finished_at = row.finished_at;
  failed_at = row.failed_at;
  created_at = some row.created_at;
  updated_at = some row.updated_at;
})

-- `toDomainList`
unfoldable pub to_domain_list : Readings → List ExecutionRow → Result (List Execution)
unfolding to_domain
to_domain_list now rows = map_result (to_domain now) rows

-- A text that the identifier checks accept and leave alone.
pub record IsIdentifier (t : Text) : Type 0 where
  pub trimmed : trim t ≡ t
  pub filled : is_empty t ≡ false

abbrev pub IsOptionalIdentifier : Option Text → Type 0
IsOptionalIdentifier none = Unit
IsOptionalIdentifier (some t) = IsIdentifier t

-- The identifiers that the constructor checks.
pub record IsStorable (row : ExecutionRow) : Type 0 where
  pub saga : IsIdentifier row.saga_id
  pub order : IsIdentifier row.order_id
  pub request : IsOptionalIdentifier row.request_event_id
  pub correlation : IsOptionalIdentifier row.correlation_id
