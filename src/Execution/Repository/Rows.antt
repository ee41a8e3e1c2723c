-- ===== src/Execution/Repository/Rows.antt =====
-- What the repository reads and writes, where the identifiers of the rows are accepted.
use workshop_service.Base.{◌≡◌, refl, Bool, Option, none, some, List, All}
use workshop_service.Errors.{ok}
use workshop_service.Persistence.{Answers, find?, upsert}
use workshop_service.Persistence.Tables.{find?-All}
use workshop_service.Execution.{Execution, Readings}
use workshop_service.Execution.Mapper.{ExecutionRow, to_orm_entity, to_domain, IsStorable}
use workshop_service.Execution.Mapper.Roundtrip.{to_domain-to_orm_entity}
use workshop_service.Execution.Repository.{
  World, ExecutionOrm, same_row, entity_of, find_where, save,
}

-- The entity of a row, field by field.
abbrev pub as_execution : ExecutionRow → Execution
as_execution row = record {
  id = row.id;
  saga_id = row.saga_id;
  order_id = row.order_id;
  request_event_id = row.request_event_id;
  correlation_id = row.correlation_id;
  status = row.status;
  failure_code = row.failure_code;
  failure_reason = row.failure_reason;
  queued_at = row.queued_at;
  diagnosis_started_at = row.diagnosis_started_at;
  repair_started_at = row.repair_started_at;
  finished_at = row.finished_at;
  failed_at = row.failed_at;
  created_at = row.created_at;
  updated_at = row.updated_at;
}

abbrev pub as_entity? : Option ExecutionRow → Option Execution
as_entity? none = none
as_entity? (some row) = some (as_execution row)

pub to_domain_of_IsStorable :
    (now : Readings) (row : ExecutionRow)
    → IsStorable row
    → to_domain now row ≡ ok (as_execution row)
unfolding to_orm_entity
to_domain_of_IsStorable now row h = to_domain-to_orm_entity now (as_execution row) h

entity_of_found :
    (now : Readings) (rows : List ExecutionRow) (p : ExecutionRow → Bool) (o : Option ExecutionRow)
    → All IsStorable rows
    → find? p rows ≡ o
    → entity_of now o ≡ ok (as_entity? o)
entity_of_found now rows p none h e = refl
entity_of_found now rows p (some row) h e =
    rw (to_domain_of_IsStorable now row (find?-All IsStorable p rows row h e))

module _ (orm : ExecutionOrm) (up : Answers orm) (now : Readings) where
  -- A look-up gives the entity of the first row that meets the condition.
  pub find_where_lem :
      (p : ExecutionRow → Bool) (w : World)
      → All IsStorable w.executions
      → find_where orm now p w ≡ (ok (as_entity? (find? p w.executions)), w)
  unfolding find_where
  find_where_lem p w h =
      rw (up.finds, find_where)
        (rw (entity_of_found now w.executions p (find? p w.executions) h refl))

  -- A save gives the entity back and writes its row.
  pub save_lem :
      (e : Execution) (w : World)
      → IsStorable (to_orm_entity e)
      → save orm now e w
        ≡ (ok e, record w { executions = upsert same_row (to_orm_entity e) w.executions })
  unfolding save
  save_lem e w h = rw (up.saves, save) (rw (to_domain-to_orm_entity now e h))
