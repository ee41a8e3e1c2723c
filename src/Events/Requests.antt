-- ===== src/Events/Requests.antt =====
-- The validation of the requests: `asExecutionRequested` and `isEmptyPayload` of
-- messaging/execution-events.service.ts; `asStockRequest`, `asReleaseRequested`, `normalized`,
-- `validIsoTimestamp` and `isRecord` of messaging/stock-events.service.ts. The envelope has the
-- types that the source declares for it, and the payload is any value.
use workshop_service.Base.{
  Bool, true, false, ◌&&◌, ◌||◌, not, Option, none, some, List, [], if◌then◌else◌,
}
use workshop_service.Number.{Number, number, is_integer, at_most, same}
use workshop_service.Text.{Text, text, ◌===◌, trim, is_empty, includes}
use workshop_service.Errors.{Failure, error, Result, ok, err, ◌>>=◌, ◌>>◌, raise_if, cons_result}
use workshop_service.Messaging.{
  Value, undefined, null, boolean, num, str, array, object, Items, nil, cons, Fields, end,
  BrokerMessage,
}
use workshop_service.Broker.{field_of}
use workshop_service.Releasing.{StockReleaseCommandItem, has_duplicates}

-- `!Number.isNaN(Date.parse(value))` of the runtime.
pub record Dates : Type 0 where
  pub is_date : Text → Bool

-- `isEmptyPayload`
unfoldable pub is_empty_payload : Value → Bool
is_empty_payload (object end) = true
is_empty_payload v = false

unfoldable pub invalid_execution : Failure
invalid_execution = error (text "Invalid execution.requested message.")

-- The condition of `asExecutionRequested`, under which it throws.
unfoldable pub is_invalid_execution : Dates → BrokerMessage → Bool
unfolding is_empty_payload
is_invalid_execution dates m =
    is_empty (trim m.event_id)
    || not (m.event_name === text "execution.requested")
    || not (same m.event_version (number 1))
    || not (dates.is_date m.occurred_at)
    || is_empty (trim m.correlation_id)
    || is_empty (trim m.causation_id)
    || is_empty (trim m.saga_id)
    || is_empty (trim m.order_id)
    || not (is_empty_payload m.payload)

-- `asExecutionRequested`
unfoldable pub as_execution_requested : Dates → BrokerMessage → Result BrokerMessage
unfolding is_invalid_execution invalid_execution
as_execution_requested dates m =
    if is_invalid_execution dates m
    then err invalid_execution
    else ok (record {
      event_id = trim m.event_id;
      event_name = text "execution.requested";
      event_version = number 1;
      occurred_at = m.occurred_at;
      correlation_id = trim m.correlation_id;
      causation_id = trim m.causation_id;
      saga_id = trim m.saga_id;
      order_id = trim m.order_id;
      payload = object end;
    })

-- `isRecord`, with the fields.
abbrev pub fields_of : Value → Option Fields
fields_of (object fields) = some fields
fields_of v = none

-- `normalized`
unfoldable pub normalized : Value → Option Text
normalized (str s) = if is_empty (trim s) then none else some (trim s)
normalized v = none

-- `Array.isArray(value)`, with the items.
abbrev pub items_of : Value → Option Items
items_of (array items) = some items
items_of v = none

-- `Number.isInteger(value)` and `!(value <= 0)`
unfoldable pub positive_integer : Value → Option Number
positive_integer (num n) = if is_integer n && not (at_most n (number 0)) then some n else none
positive_integer v = none

unfoldable pub invalid_release : Failure
invalid_release = error (text "Invalid stock.release.requested message.")

abbrev pub item_with : Option Text → Option Number → Result StockReleaseCommandItem
item_with (some part) (some quantity) = ok (record { part_id = part; quantity = quantity })
item_with (some part) none = err invalid_release
item_with none quantity = err invalid_release

abbrev pub item_from : Option Fields → Result StockReleaseCommandItem
item_from none = err invalid_release
item_from (some fields) =
    item_with (normalized (field_of (text "partId") fields))
      (positive_integer (field_of (text "quantity") fields))

-- The callback of `map` in `asReleaseRequested`.
unfoldable pub release_item : Value → Result StockReleaseCommandItem
unfolding normalized positive_integer
release_item v = item_from (fields_of v)

unfoldable pub release_items : Items → Result (List StockReleaseCommandItem)
unfolding release_item
release_items nil = ok []
release_items (cons v rest) = cons_result (release_item v) (release_items rest)

-- `validIsoTimestamp`, of a string.
abbrev pub valid_iso_timestamp : Dates → Text → Bool
valid_iso_timestamp dates s = includes (text "T") s && dates.is_date s

pub record ReleaseRequest : Type 0 where
  pub event_id : Text
  pub occurred_at : Text
  pub correlation_id : Text
  pub causation_id : Text
  pub saga_id : Text
  pub order_id : Text
  pub reservations : List StockReleaseCommandItem

-- `payload.reservations`, where the payload is a record with an array of that name.
abbrev pub reservations_in : Option Fields → Option Items
reservations_in none = none
reservations_in (some fields) = items_of (field_of (text "reservations") fields)

abbrev pub has_no_items : Option Items → Bool
has_no_items none = true
has_no_items (some nil) = true
has_no_items (some (cons v rest)) = false

abbrev pub listed : Option Items → Items
listed none = nil
listed (some items) = items

-- The condition of `asReleaseRequested`, under which it throws.
unfoldable pub is_invalid_release : Dates → BrokerMessage → Bool
is_invalid_release dates m =
    not (m.event_name === text "stock.release.requested")
    || not (same m.event_version (number 1))
    || is_empty (trim m.event_id)
    || not (valid_iso_timestamp dates m.occurred_at)
    || is_empty (trim m.correlation_id)
    || is_empty (trim m.causation_id)
    || is_empty (trim m.saga_id)
    || is_empty (trim m.order_id)
    || has_no_items (reservations_in (fields_of m.payload))

abbrev pub release_request_of : BrokerMessage → List StockReleaseCommandItem → ReleaseRequest
release_request_of m items = record {
  event_id = trim m.event_id;
  occurred_at = m.occurred_at;
  correlation_id = trim m.correlation_id;
  causation_id = trim m.causation_id;
  saga_id = trim m.saga_id;
  order_id = trim m.order_id;
  reservations = items;
}

-- `asReleaseRequested`
unfoldable pub as_release_requested : Dates → BrokerMessage → Result ReleaseRequest
unfolding is_invalid_release release_items invalid_release
as_release_requested dates m = do
  raise_if (is_invalid_release dates m) invalid_release
  items ← release_items (listed (reservations_in (fields_of m.payload)))
  raise_if (has_duplicates items) invalid_release
  ok (release_request_of m items)

-- `!value`
abbrev pub is_falsy : Value → Bool
is_falsy undefined = true
is_falsy null = true
is_falsy (boolean b) = not b
is_falsy (num n) = same n (number 0) || not (same n n)
is_falsy (str s) = is_empty s
is_falsy (array items) = false
is_falsy (object fields) = false

-- A call or a read on a value that has no such member.
unfoldable pub type_error : Failure
type_error = error (text "TypeError")

abbrev pub is_absent : Option Number → Bool
is_absent none = true
is_absent (some n) = false

-- The callback of `some` in `asStockRequest`.
unfoldable pub is_invalid_item : Value → Result Bool
unfolding positive_integer type_error
is_invalid_item undefined = err type_error
is_invalid_item null = err type_error
is_invalid_item (object fields) = ok (
    is_falsy (field_of (text "partId") fields)
    || is_absent (positive_integer (field_of (text "quantity") fields)))
is_invalid_item v = ok true

abbrev pub or_later : Result Bool → Result Bool → Result Bool
or_later (ok true) r = ok true
or_later (ok false) r = r
or_later (err f) r = err f

unfoldable pub has_invalid_item : Items → Result Bool
unfolding is_invalid_item
has_invalid_item nil = ok false
has_invalid_item (cons v rest) = or_later (is_invalid_item v) (has_invalid_item rest)

abbrev pub has_invalid : Option Items → Result Bool
has_invalid none = ok true
has_invalid (some items) = has_invalid_item items

unfoldable pub invalid_reserve : Failure
invalid_reserve = error (text "Invalid stock.reserve.requested message.")

-- The envelope's part of the condition of `asStockRequest`.
unfoldable pub is_invalid_reserve : BrokerMessage → Bool
is_invalid_reserve m =
    not (m.event_name === text "stock.reserve.requested")
    || not (same m.event_version (number 1))
    || is_empty m.event_id
    || is_empty m.correlation_id
    || is_empty m.causation_id
    || is_empty m.saga_id
    || is_empty m.order_id

-- `asStockRequest`, with the name of a reserve request: the items of the message.
unfoldable pub as_reserve_requested : BrokerMessage → Result Items
unfolding is_invalid_reserve has_invalid_item invalid_reserve
as_reserve_requested m = do
  invalid ←
      or_later (ok (is_invalid_reserve m)) (has_invalid (reservations_in (fields_of m.payload)))
  raise_if invalid invalid_reserve
  ok (listed (reservations_in (fields_of m.payload)))
