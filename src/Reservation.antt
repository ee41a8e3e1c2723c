-- ===== src/Reservation.antt =====
-- A stock reservation (part/domain/entities/stock-reservation.entity.ts).
use workshop_service.Base.{
  ℕ, Bool, true, false, Option, none, some, [], ◌∷◌, ◌++◌, get_or, if◌then◌else◌,
}
use workshop_service.Number.{Number, same}
use workshop_service.Text.{Text, text, trim, is_empty}
use workshop_service.Errors.{Failure, domain, text_detail, Result, ok, err, ◌>>=◌}
use workshop_service.Errors.Action.{Action, pure, raise}
use workshop_service.Part.{quantity_invalid}
use workshop_service.Part.Methods.{is_no_movement}

-- part/domain/enums/stock-reservation-status.enum.ts
pub data StockReservationStatus : Type 0 where
  reserved released committed failed : StockReservationStatus

-- `===` on statuses.
abbrev pub same_status : StockReservationStatus → StockReservationStatus → Bool
same_status reserved reserved = true
same_status released released = true
same_status committed committed = true
same_status failed failed = true
same_status s t = false

pub record StockReservationProps : Type 0 where
  pub id : Option Text
  pub saga_id : Text
  pub order_id : Text
  pub part_id : Text
  pub quantity : Number
  pub status : StockReservationStatus
  pub failure_code : Option Text
  pub failure_reason : Option Text
  pub released_by_event_id : Option Text
  pub released_at : Option ℕ
  pub created_at : Option ℕ
  pub updated_at : Option ℕ

pub record StockReservation : Type 0 where
  pub id : Text
  pub saga_id : Text
  pub order_id : Text
  pub part_id : Text
  pub quantity : Number
  pub status : StockReservationStatus
  pub failure_code : Option Text
  pub failure_reason : Option Text
  pub released_by_event_id : Option Text
  pub released_at : Option ℕ
  pub created_at : ℕ
  pub updated_at : ℕ

-- What the constructor reads from outside.
pub record ReservationReadings : Type 0 where
  pub fresh_id : Text
  pub created_now : ℕ
  pub updated_now : ℕ

unfoldable pub identifier_required : Text → Failure
identifier_required field = domain (record {
  code = text "STOCK_RESERVATION_IDENTIFIER_REQUIRED";
  message = field ++ text " is required.";
  details = ("field", text_detail field) ∷ [];
})

-- `validateIdentifier`
unfoldable pub validate_identifier : Text → Text → Result Text
validate_identifier field value =
    if is_empty (trim value) then err (identifier_required field) else ok (trim value)

-- `validateQuantity`
unfoldable pub validate_quantity : Number → Result Number
validate_quantity quantity =
    if is_no_movement quantity
    then err (quantity_invalid quantity (text "Reservation quantity must be a positive integer."))
    else ok quantity

-- `private constructor`, and `StockReservation.restore`, which only calls it.
unfoldable pub new_reservation :
    ReservationReadings → StockReservationProps → Result StockReservation
new_reservation now props = do
  saga_id ← validate_identifier (text "sagaId") props.saga_id
  order_id ← validate_identifier (text "orderId") props.order_id
  part_id ← validate_identifier (text "partId") props.part_id
  quantity ← validate_quantity props.quantity
  ok (record {
    id = get_or props.id now.fresh_id;
    saga_id = saga_id;
    order_id = order_id;
    part_id = part_id;
    quantity = quantity;
    status = props.status;
    failure_code = props.failure_code;
    failure_reason = props.failure_reason;
    released_by_event_id = props.released_by_event_id;
    released_at = props.released_at;
    created_at = get_or props.created_at now.created_now;
    updated_at = get_or props.updated_at now.updated_now;
  })

-- part/application/dto/stock-reservation.dto.ts
pub record ReserveStockCommand : Type 0 where
  pub saga_id : Text
  pub order_id : Text
  pub part_id : Text
  pub quantity : Number

-- The properties that a command is spread into, with a status and a failure.
abbrev pub props_of :
    ReserveStockCommand → StockReservationStatus → Option Text → Option Text → StockReservationProps
props_of c status failure_code failure_reason = record {
  id = none;
  saga_id = c.saga_id;
  order_id = c.order_id;
  part_id = c.part_id;
  quantity = c.quantity;
  status = status;
  failure_code = failure_code;
  failure_reason = failure_reason;
  released_by_event_id = none;
  released_at = none;
  created_at = none;
  updated_at = none;
}

-- `createReserved`, of a command.
unfoldable pub create_reserved : ReservationReadings → ReserveStockCommand → Result StockReservation
create_reserved now c = new_reservation now (props_of c reserved none none)

-- `createFailed`, of a command with a failure.
unfoldable pub create_failed :
    ReservationReadings → ReserveStockCommand → Text → Text → Result StockReservation
create_failed now c code reason = new_reservation now (props_of c failed (some code) (some reason))

-- `matchesReservationRequest`
unfoldable pub matches_reservation_request : StockReservation → Number → Bool
matches_reservation_request r quantity = same r.quantity quantity

unfoldable pub event_id_required : Failure
event_id_required = domain (record {
  code = text "STOCK_RELEASE_EVENT_ID_REQUIRED";
  message = text "releasedByEventId cannot be empty.";
  details = [];
})

-- `release`, once the event id is accepted.
abbrev pub set_released : Option Text → ℕ → StockReservation → StockReservation
set_released event at r = record r {
  status = released;
  failure_code = none;
  failure_reason = none;
  released_by_event_id = event;
  released_at = some at;
  updated_at = at;
}

-- `release`
unfoldable pub release : Option Text → ℕ → Action StockReservation (Unit {0})
release none at r = pure tt (set_released none at r)
release (some event) at r =
    if is_empty (trim event)
    then raise event_id_required r
    else pure tt (set_released (some (trim event)) at r)

-- `commit`
unfoldable pub commit : ℕ → Action StockReservation (Unit {0})
commit now r =
    pure tt (record r {
      status = committed;
      failure_code = none;
      failure_reason = none;
      updated_at = now;
    })

-- `fail`
unfoldable pub fail : Text → Text → ℕ → Action StockReservation (Unit {0})
fail code reason now r = pure tt (record r {
  status = failed;
  failure_code = some code;
  failure_reason = some reason;
  updated_at = now;
})
