-- ===== src/Releasing.antt =====
-- StockReleaseService (part/application/services/stock-release.service.ts): the command of a stock
-- release, as it is normalised and hashed.
pub mod Work
pub mod Unit
pub mod Laws
pub mod Balance
use workshop_service.Base.{
  ℕ, Bool, true, false, ◌||◌, Option, none, some, List, [], ◌∷◌, ◌++◌, any, if◌then◌else◌, String,
}
use workshop_service.Number.{Number}
use workshop_service.Text.{Text, text, trim, is_empty, ◌===◌}
use workshop_service.Errors.{Failure, domain, Result, ok, err, ◌>>=◌, ◌>>◌, map_result, raise_if}
use workshop_service.Messaging.{
  Value, str, num, array, object, Items, nil, cons, end, field, Outside,
  create_deterministic_event_id,
}
use workshop_service.Part.Methods.{is_no_movement}

pub record StockReleaseCommandItem : Type 0 where
  pub part_id : Text
  pub quantity : Number

pub record StockReleaseCommand : Type 0 where
  pub command_event_id : Text
  pub saga_id : Text
  pub order_id : Text
  pub correlation_id : Text
  pub reservations : List StockReleaseCommandItem

-- `JSON.stringify` of the runtime, with the hash.
pub record Hashing : Type 0 where
  pub outside : Outside
  pub stringify : Value → Text

abbrev pub release_invalid : Text → Failure
release_invalid message =
    domain (record { code = text "STOCK_RELEASE_INVALID"; message = message; details = [] })

-- `required`
unfoldable pub required : Text → Text → Result Text
required value name =
    if is_empty (trim value)
    then err (release_invalid (text "The " ++ (name ++ text " is required.")))
    else ok (trim value)

-- `normalizeItem`
unfoldable pub normalize_item : StockReleaseCommandItem → Result StockReleaseCommandItem
unfolding required
normalize_item item = do
  raise_if (is_no_movement item.quantity)
      (release_invalid (text "Stock release quantity must be a positive integer."))
  part_id ← required item.part_id (text "part ID")
  ok (record { part_id = part_id; quantity = item.quantity })

-- `new Set(partIds).size !== partIds.length`
abbrev pub has_duplicates : List StockReleaseCommandItem → Bool
has_duplicates [] = false
has_duplicates (x ∷ xs) = any (λ y. y.part_id === x.part_id) xs || has_duplicates xs

abbrev pub has_none : List StockReleaseCommandItem → Bool
has_none [] = true
has_none (x ∷ xs) = false

-- `normalizeCommand`
unfoldable pub normalize_command : StockReleaseCommand → Result StockReleaseCommand
unfolding normalize_item required
normalize_command c = do
  items ← map_result normalize_item c.reservations
  raise_if (has_none items) (release_invalid (text "At least one stock reservation is required."))
  raise_if (has_duplicates items)
      (release_invalid (text "Stock release reservations cannot contain duplicate part IDs."))
  event ← required c.command_event_id (text "command event ID")
  saga ← required c.saga_id (text "saga ID")
  order ← required c.order_id (text "order ID")
  correlation ← required c.correlation_id (text "correlation ID")
  ok (record {
    command_event_id = event;
    saga_id = saga;
    order_id = order;
    correlation_id = correlation;
    reservations = items;
  })

abbrev pub item_values : List StockReleaseCommandItem → Items
item_values [] = nil
item_values (x ∷ xs) =
    cons
      (object
        (field (text "partId") (str x.part_id) (field (text "quantity") (num x.quantity) end)))
      (item_values xs)

-- `createStockReleaseCommandHash`
unfoldable pub create_stock_release_command_hash : Hashing → StockReleaseCommand → Text
create_stock_release_command_hash h c = h.outside.sha256 (
    h.stringify (
      object (
        field (text "commandEventId") (str c.command_event_id) (
          field (text "sagaId") (str c.saga_id) (
            field (text "orderId") (str c.order_id) (
              field (text "correlationId") (str c.correlation_id)
                (field (text "reservations") (array (item_values c.reservations)) end)))))))

-- `"stock.released" | "stock.release.failed"`
pub data ResultEvent : Type 0 where
  stock_released stock_release_failed : ResultEvent

unfoldable pub event_text : ResultEvent → Text
event_text stock_released = text "stock.released"
event_text stock_release_failed = text "stock.release.failed"

-- `createStockReleaseResultEventId`
unfoldable pub create_stock_release_result_event_id :
    Hashing → ResultEvent → Text → Text → Text → Text
unfolding event_text
create_stock_release_result_event_id h name saga_id order_id command_event_id =
    create_deterministic_event_id h.outside (event_text name) (saga_id ++ (text ":" ++ order_id))
      command_event_id
