-- ===== src/Execution/Identity.antt =====
-- The identity of an execution request: the first part of `createQueuedExecution`
-- (execution/application/services/execution.service.ts), up to the look-ups.
use workshop_service.Base.{◌≡◌, Option, arith}
use workshop_service.Text.{Text, text}
use workshop_service.Errors.{Result, ok, ◌>>=◌}
use workshop_service.Errors.Laws.{>>=-eq-ok}
use workshop_service.Execution.{required_identifier, optional_identifier}
use workshop_service.Execution.Mapper.{IsIdentifier, IsOptionalIdentifier}
use workshop_service.Execution.Mapper.Roundtrip.{
  required_identifier-IsIdentifier, optional_identifier-IsOptionalIdentifier,
}

pub record Identity : Type 0 where
  pub saga_id : Text
  pub order_id : Text
  pub request_event_id : Option Text
  pub correlation_id : Option Text

-- The four identifiers, trimmed, or the exception of the first that is refused.
unfoldable pub normalize_identity : Identity → Result Identity
normalize_identity raw = do
  saga ← required_identifier (text "sagaId") raw.saga_id
  order ← required_identifier (text "orderId") raw.order_id
  request ← optional_identifier (text "requestEventId") raw.request_event_id
  correlation ← optional_identifier (text "correlationId") raw.correlation_id
  ok (record {
    saga_id = saga;
    order_id = order;
    request_event_id = request;
    correlation_id = correlation;
  })

-- Identifiers that the checks accept and leave alone.
pub record IsAccepted (n : Identity) : Type 0 where
  pub saga : IsIdentifier n.saga_id
  pub order : IsIdentifier n.order_id
  pub request : IsOptionalIdentifier n.request_event_id
  pub correlation : IsOptionalIdentifier n.correlation_id

pub normalize_identity-IsAccepted :
    (raw n : Identity) → normalize_identity raw ≡ ok n → IsAccepted n
unfolding normalize_identity
normalize_identity-IsAccepted raw n h =
    let (saga, s, h1) = >>=-eq-ok (required_identifier (text "sagaId") raw.saga_id) _ h in
    let (order, o, h2) = >>=-eq-ok (required_identifier (text "orderId") raw.order_id) _ h1 in
    let (request, r, h3) =
      >>=-eq-ok (optional_identifier (text "requestEventId") raw.request_event_id) _ h2 in
    let (correlation, c, h4) =
      >>=-eq-ok (optional_identifier (text "correlationId") raw.correlation_id) _ h3 in
    ground (
      arith,
      required_identifier-IsIdentifier _ _ saga s,
      required_identifier-IsIdentifier _ _ order o,
      optional_identifier-IsOptionalIdentifier _ _ request r,
      optional_identifier-IsOptionalIdentifier _ _ correlation c,
    )
