-- ===== src/Execution/Repository.antt =====
-- TypeOrmExecutionRepository (execution/infrastructure/repositories/
-- typeorm-execution.repository.ts), over TypeORM's repository of the rows, and the state that the
-- execution module works on.
pub mod Rows
use workshop_service.Base.{ℕ, ◌≡◌, Bool, Option, none, some, List, if◌then◌else◌}
use workshop_service.Number.{Number}
use workshop_service.Text.{Text, ◌===◌}
use workshop_service.Errors
use workshop_service.Errors.{Result, ok, err}
use workshop_service.Errors.Action.{Action, lift, ◌>>=◌, ◌>>◌}
use workshop_service.Persistence.{Orm}
use workshop_service.Messaging.{Published}
use workshop_service.Execution.{Execution, Readings}
use workshop_service.Execution.Mapper.{ExecutionRow, to_orm_entity, to_domain}

-- The primary key of `executions`.
unfoldable pub same_row : ExecutionRow → ExecutionRow → Bool
same_row a b = b.id === a.id

-- execution/application/ports/execution-metrics.port.ts
pub data ExecutionMetricStatus : Type 0 where
  diagnosis repair finished : ExecutionMetricStatus

-- The table, the messages that the broker has confirmed, and the observed durations in seconds.
pub record World : Type 0 where
  pub executions : List ExecutionRow
  pub published : List Published
  pub durations : List (ExecutionMetricStatus × Number)

abbrev pub ExecutionOrm : Type 0
ExecutionOrm = Orm ExecutionRow same_row

-- A row read by `findOne`, as an entity: `entity ? ExecutionMapper.toDomain(entity) : null`.
abbrev pub entity_of : Readings → Option ExecutionRow → Result (Option Execution)
entity_of now none = ok none
entity_of now (some row) = Errors.◌>>=◌ (to_domain now row) (λ e. ok (some e))

-- `repository.findOne({ where })`
unfoldable pub find_where :
    ExecutionOrm → Readings → (ExecutionRow → Bool) → Action World (Option Execution)
find_where orm now p w = elim (orm.find_one p w.executions) [
  | ok row ↦ (entity_of now row, w)
  | err f ↦ (err f, w)
]

-- `findById`
unfoldable pub find_by_id : ExecutionOrm → Readings → Text → Action World (Option Execution)
unfolding find_where
find_by_id orm now id = find_where orm now (λ row. row.id === id)

-- `findBySagaId`
unfoldable pub find_by_saga_id : ExecutionOrm → Readings → Text → Action World (Option Execution)
unfolding find_where
find_by_saga_id orm now saga_id = find_where orm now (λ row. row.saga_id === saga_id)

-- `findByOrderId`
unfoldable pub find_by_order_id : ExecutionOrm → Readings → Text → Action World (Option Execution)
unfolding find_where
find_by_order_id orm now order_id = find_where orm now (λ row. row.order_id === order_id)

-- `save`
unfoldable pub save : ExecutionOrm → Readings → Execution → Action World Execution
save orm now e w = elim (orm.save (to_orm_entity e) w.executions) [
  | ok rows ↦ (to_domain now (to_orm_entity e), record w { executions = rows })
  | err f ↦ (err f, w)
]
