-- ===== src/Events/Stocks.antt =====
-- StockEventsService (messaging/stock-events.service.ts), after the validation of its messages.
-- The reservations of one message are started together in the source, and their calls of the
-- database interleave; here each runs to its end before the next begins. An item has the two keys
-- that its type declares: others, which the source copies into the command, are left out.
use workshop_service.Base.{
  ℕ, suc, Bool, true, false, Option, none, some, List, [], ◌∷◌, ◌++◌, any, ltb, if◌then◌else◌,
}
use workshop_service.Number.{number}
use workshop_service.Text.{Text, text, ◌===◌}
use workshop_service.IsoDate.{to_iso_string}
use workshop_service.Errors.{error, Result, ok, err, cons_result}
use workshop_service.Errors.Action.{Action, raise, lift, ◌>>=◌}
use workshop_service.Messaging.{
  Value, undefined, num, str, array, object, Items, nil, cons, Fields, end, field, BrokerMessage,
  Published, Outside, create_deterministic_event_id,
}
use workshop_service.Broker.{field_of}
use workshop_service.Consumed.{MessageKey}
use workshop_service.Reservation.{StockReservation, failed, same_status}
use workshop_service.Inventory.{Inventory, Database, Moments}
use workshop_service.Reserving.{reserve}
use workshop_service.Releasing.{StockReleaseCommand, Hashing, event_text}
use workshop_service.Releasing.Work.{
  ResultStatus, item_released, item_failed, StockReleaseResultItem, StockReleaseOperation, Stock,
  Transactions, Draws,
}
use workshop_service.Releasing.Unit.{execute}
use workshop_service.Events.{Consuming, Visit, consume_once}
use workshop_service.Events.Requests.{
  Dates, ReleaseRequest, as_release_requested, as_reserve_requested, fields_of, type_error,
}

-- What the consumers of stock requests change, beside the ledger.
pub record Warehouse : Type 0 where
  pub stock : Stock
  pub published : List Published

abbrev pub in_inventory : {A : Type 0} → Action Inventory A → Action Warehouse A
in_inventory m w =
    let (r, i) = m w.stock.inventory in (r, record w { stock = record w.stock { inventory = i } })

abbrev pub in_stock : {A : Type 0} → Action Stock A → Action Warehouse A
in_stock m w = let (r, s) = m w.stock in (r, record w { stock = s })

-- `publisher.publish("workshop.topic", name, message)`
unfoldable pub publish : Outside → Text → BrokerMessage → Action Warehouse (Unit {0})
publish o name message w =
    let m : Published = record {
      exchange = text "workshop.topic";
      routing_key = name;
      message = message;
    } in
    elim (o.confirm m) [
      | ok done ↦ (ok tt, record w { published = w.published ++ (m ∷ []) })
      | err f ↦ (err f, w)
    ]

-- The call of `reserveStock` for an item; a part id that is no string has no `trim`.
abbrev pub reserve_with :
    Database → Moments → BrokerMessage → Value → Value → Action Inventory StockReservation
reserve_with db now m (str part_id) (num quantity) =
    reserve db now (record {
      saga_id = m.saga_id;
      order_id = m.order_id;
      part_id = part_id;
      quantity = quantity;
    })
reserve_with db now m part_id quantity = raise type_error

abbrev pub reserve_fields :
    Database → Moments → BrokerMessage → Option Fields → Action Inventory StockReservation
reserve_fields db now m none = raise type_error
reserve_fields db now m (some fields) =
    reserve_with db now m (field_of (text "partId") fields) (field_of (text "quantity") fields)

unfoldable pub reserve_item :
    Database → Moments → BrokerMessage → Value → Action Inventory StockReservation
unfolding type_error
reserve_item db now m item = reserve_fields db now m (fields_of item)

-- `Promise.all` over the items: all of them are tried, and a failure is thrown.
unfoldable pub reserve_all :
    Database → (ℕ → Moments) → ℕ → BrokerMessage → Items → Action Inventory (List StockReservation)
unfolding reserve_item
reserve_all db moments i m nil w = (ok [], w)
reserve_all db moments i m (cons item rest) w =
    let (r, w') = reserve_item db (moments i) m item w in
    let (rs, w'') = reserve_all db moments (suc i) m rest w' in (cons_result r rs, w'')

-- `reservationResultOccurredAt`
abbrev pub latest : ℕ → List StockReservation → ℕ
latest at [] = at
latest at (r ∷ rs) = latest (if ltb at r.created_at then r.created_at else at) rs

unfoldable pub reservation_result_occurred_at : List StockReservation → Result ℕ
reservation_result_occurred_at [] =
    err (error (text "A stock reservation result requires at least one reservation."))
reservation_result_occurred_at (r ∷ rs) = ok (latest r.created_at rs)

-- `failureCode ?? undefined`
abbrev pub or_undefined : Option Text → Value
or_undefined none = undefined
or_undefined (some s) = str s

unfoldable pub state_items : List StockReservation → Items
state_items [] = nil
state_items (r ∷ rs) =
    cons
      (object (
        field (text "partId") (str r.part_id) (
          field (text "quantity") (num r.quantity)
            (field (text "failureCode") (or_undefined r.failure_code) end))))
      (state_items rs)

abbrev pub has_failed : List StockReservation → Bool
has_failed rs = any (λ r. same_status r.status failed) rs

unfoldable pub reserve_result_name : List StockReservation → Text
reserve_result_name rs =
    if has_failed rs then text "stock.reservation.failed" else text "stock.reserved"

-- The event of the result.
unfoldable pub reserve_result : Outside → BrokerMessage → List StockReservation → ℕ → BrokerMessage
unfolding reserve_result_name state_items
reserve_result o m rs at = record {
  event_id =
      create_deterministic_event_id o (reserve_result_name rs)
        (m.saga_id ++ (text ":" ++ m.order_id)) m.event_id;
  event_name = reserve_result_name rs;
  event_version = number 1;
  occurred_at = to_iso_string at;
  correlation_id = m.correlation_id;
  causation_id = m.event_id;
  saga_id = m.saga_id;
  order_id = m.order_id;
  payload = object (field (text "reservations") (array (state_items rs)) end);
}

unfoldable pub announce_reservations :
    Outside → BrokerMessage → List StockReservation → Action Warehouse (Unit {0})
unfolding publish reserve_result reservation_result_occurred_at
announce_reservations o m rs = do
  at ← lift (reservation_result_occurred_at rs)
  publish o (reserve_result_name rs) (reserve_result o m rs at)

-- The operation that `consumeReserve` hands to `process`.
unfoldable pub reserve_operation :
    Outside → Database → (ℕ → Moments) → BrokerMessage → Items → Action Warehouse (Unit {0})
unfolding reserve_all announce_reservations
reserve_operation o db moments m items = do
  rs ← in_inventory (reserve_all db moments 0 m items)
  announce_reservations o m rs

-- `STOCK_RESERVE_CONSUMER` and `STOCK_RELEASE_CONSUMER`
unfoldable pub reserve_key : BrokerMessage → MessageKey
reserve_key m = record {
  consumer_name = text "workshop-stock-reserve-requested";
  event_id = m.event_id;
}

unfoldable pub release_key : ReleaseRequest → MessageKey
release_key input = record {
  consumer_name = text "workshop-stock-release-requested";
  event_id = input.event_id;
}

-- `consumeReserve`, with `process`
unfoldable pub consume_reserve :
    Outside
    → Database
    → (ℕ → Moments)
    → Visit
    → BrokerMessage
    → Action (Consuming Warehouse) (Unit {0})
unfolding reserve_key reserve_operation
consume_reserve o db moments v m = do
  items ← lift (as_reserve_requested m)
  consume_once false (reserve_key m) v (reserve_operation o db moments m items)

-- The argument of `stockRelease.execute`.
unfoldable pub release_command : ReleaseRequest → StockReleaseCommand
release_command input = record {
  command_event_id = input.event_id;
  saga_id = input.saga_id;
  order_id = input.order_id;
  correlation_id = input.correlation_id;
  reservations = input.reservations;
}

abbrev pub status_text : ResultStatus → Text
status_text item_released = text "RELEASED"
status_text item_failed = text "FAILED"

abbrev pub failure_field : Option Text → Fields
failure_field none = end
failure_field (some code) = field (text "failureCode") (str code) end

unfoldable pub result_items : List StockReleaseResultItem → Items
result_items [] = nil
result_items (x ∷ xs) =
    cons
      (object (
        field (text "partId") (str x.part_id) (
          field (text "quantity") (num x.quantity)
            (field (text "status") (str (status_text x.status)) (failure_field x.failure_code)))))
      (result_items xs)

-- `releaseResultEnvelope`
unfoldable pub release_result_envelope : StockReleaseOperation → BrokerMessage
unfolding result_items event_text
release_result_envelope p = record {
  event_id = p.result_event_id;
  event_name = event_text p.result_event_name;
  event_version = number 1;
  occurred_at = to_iso_string p.result_occurred_at;
  correlation_id = p.correlation_id;
  causation_id = p.command_event_id;
  saga_id = p.saga_id;
  order_id = p.order_id;
  payload = object (field (text "reservations") (array (result_items p.result_payload)) end);
}

-- The `try` block of `consumeRelease`, up to the mark.
unfoldable pub release_operation :
    Hashing → Transactions → Draws → ReleaseRequest → Action Warehouse (Unit {0})
unfolding release_command release_result_envelope publish
release_operation h t now input = do
  operation ← in_stock (execute h t now (release_command input))
  publish h.outside (event_text operation.result_event_name) (release_result_envelope operation)

-- `consumeRelease`
unfoldable pub consume_release :
    Dates
    → Hashing
    → Transactions
    → Draws
    → Visit
    → BrokerMessage
    → Action (Consuming Warehouse) (Unit {0})
unfolding release_key release_operation
consume_release dates h t now v m = do
  input ← lift (as_release_requested dates m)
  consume_once true (release_key input) v (release_operation h t now input)

-- The handler that `onModuleInit` subscribes to the queue of stock requests.
unfoldable pub handle_stock_request :
    Dates
    → Hashing
    → Transactions
    → (ℕ → Moments)
    → Draws
    → Visit
    → BrokerMessage
    → Action (Consuming Warehouse) (Unit {0})
unfolding consume_reserve consume_release
handle_stock_request dates h t moments now v m =
    if m.event_name === text "stock.reserve.requested"
    then consume_reserve h.outside t.database moments v m
    else if m.event_name === text "stock.release.requested"
    then consume_release dates h t now v m
    else raise (error (text "Unsupported workshop stock message."))
