-- ===== src/Execution/Mapper/Roundtrip.antt =====
-- Executions through `ExecutionMapper`, to their rows and back.
use workshop_service.Base.{◌≡◌, refl, Option, none, some, arith}
use workshop_service.Text.{Text, text}
use workshop_service.Text.Laws.{trim-trim}
use workshop_service.Errors.{ok}
use workshop_service.Errors.Laws.{>>=-eq-ok}
use workshop_service.Execution.{
  Execution, ExecutionProps, Readings, new_execution, required_identifier, optional_identifier,
}
use workshop_service.Execution.Mapper.{
  to_orm_entity, to_domain, IsIdentifier, IsOptionalIdentifier, IsStorable,
}

-- A required identifier that is accepted is trimmed and not empty.
pub required_identifier-IsIdentifier :
    (field value t : Text) → required_identifier field value ≡ ok t → IsIdentifier t
unfolding required_identifier
required_identifier-IsIdentifier field value t h = ground (arith, trim-trim value)

pub optional_identifier-IsOptionalIdentifier :
    (field : Text) (value o : Option Text)
    → optional_identifier field value ≡ ok o
    → IsOptionalIdentifier o
unfolding optional_identifier
optional_identifier-IsOptionalIdentifier field none o h = ground arith
optional_identifier-IsOptionalIdentifier field (some v) o h = ground (arith, trim-trim v)

pub required_identifier_of_IsIdentifier :
    (field t : Text) → IsIdentifier t → required_identifier field t ≡ ok t
unfolding required_identifier
required_identifier_of_IsIdentifier field t h = rw (h.trimmed, h.filled)

pub optional_identifier_of_IsOptionalIdentifier :
    (field : Text) (o : Option Text) → IsOptionalIdentifier o → optional_identifier field o ≡ ok o
unfolding optional_identifier
optional_identifier_of_IsOptionalIdentifier field none h = refl
optional_identifier_of_IsOptionalIdentifier field (some t) h = rw (h.trimmed, h.filled)

-- An execution whose identifiers are accepted comes back from its row as it was, whatever the
-- clock says.
pub to_domain-to_orm_entity :
    (now : Readings) (e : Execution)
    → IsStorable (to_orm_entity e)
    → to_domain now (to_orm_entity e) ≡ ok e
unfolding to_domain to_orm_entity new_execution
to_domain-to_orm_entity now e h = ground (
  arith,
  required_identifier_of_IsIdentifier (text "sagaId") e.saga_id,
  required_identifier_of_IsIdentifier (text "orderId") e.order_id,
  optional_identifier_of_IsOptionalIdentifier (text "requestEventId") e.request_event_id,
  optional_identifier_of_IsOptionalIdentifier (text "correlationId") e.correlation_id,
)

-- An execution that the constructor gives has identifiers that are trimmed and not empty.
pub new_execution-IsStorable :
    (now : Readings) (props : ExecutionProps) (e : Execution)
    → new_execution now props ≡ ok e
    → IsStorable (to_orm_entity e)
unfolding new_execution to_orm_entity
new_execution-IsStorable now props e h =
    let (saga, s, h1) = >>=-eq-ok (required_identifier (text "sagaId") props.saga_id) _ h in
    let (order, o, h2) = >>=-eq-ok (required_identifier (text "orderId") props.order_id) _ h1 in
    let (request, r, h3) =
      >>=-eq-ok (optional_identifier (text "requestEventId") props.request_event_id) _ h2 in
    let (correlation, c, h4) =
      >>=-eq-ok (optional_identifier (text "correlationId") props.correlation_id) _ h3 in
    ground (
      arith,
      required_identifier-IsIdentifier _ _ saga s,
      required_identifier-IsIdentifier _ _ order o,
      optional_identifier-IsOptionalIdentifier _ _ request r,
      optional_identifier-IsOptionalIdentifier _ _ correlation c,
    )
