-- ===== src/Releasing/Work.antt =====
-- TypeOrmStockReleaseUnitOfWork (part/infrastructure/persistence), which releases the reservations
-- of a command in one transaction, and StockReleaseOperationMapper (part/infrastructure/mappers).
use workshop_service.Base.{ℕ, Bool, ◌&&◌, not, Option, none, some, List, [], ◌∷◌, if◌then◌else◌}
use workshop_service.Number.{Number, less, same, plus, minus}
use workshop_service.Text.{Text, text, ◌===◌}
use workshop_service.Errors
use workshop_service.Errors.{
  Failure, domain, error, Result, ok, err, or_raise, raise_if, map_result,
}
use workshop_service.Errors.Action.{Action, pure, ◌>>=◌, ◌>>◌}
use workshop_service.Persistence.{Orm}
use workshop_service.Reservation
use workshop_service.Reservation.{StockReservationStatus, same_status}
use workshop_service.Execution.Methods.{same_text}
use workshop_service.Inventory.{PartRow, ReservationRow, Inventory, Database}
use workshop_service.Releasing.{StockReleaseCommandItem, StockReleaseCommand, ResultEvent}

-- `"RELEASED" | "FAILED"`
pub data ResultStatus : Type 0 where
  item_released item_failed : ResultStatus

pub record StockReleaseResultItem : Type 0 where
  pub part_id : Text
  pub quantity : Number
  pub status : ResultStatus
  pub failure_code : Option Text

pub record StockReleaseOperation : Type 0 where
  pub command_event_id : Text
  pub saga_id : Text
  pub order_id : Text
  pub correlation_id : Text
  pub command_hash : Text
  pub result_event_name : ResultEvent
  pub result_event_id : Text
  pub result_occurred_at : ℕ
  pub result_payload : List StockReleaseResultItem

-- part/infrastructure/typeorm/stock-release-operation.orm-entity.ts
pub record OperationRow : Type 0 where
  pub id : Text
  pub command_event_id : Text
  pub saga_id : Text
  pub order_id : Text
  pub correlation_id : Text
  pub command_hash : Text
  pub result_event_name : Option ResultEvent
  pub result_event_id : Option Text
  pub result_occurred_at : Option ℕ
  pub result_payload : Option (List StockReleaseResultItem)

unfoldable pub same_operation : OperationRow → OperationRow → Bool
same_operation a b = b.id === a.id

-- The tables that a transaction sees.
pub record Stock : Type 0 where
  pub inventory : Inventory
  pub operations : List OperationRow

-- The repositories of a transaction; `localeCompare(a, b) <= 0` of the runtime; and the test of
-- a driver's error for the code of a duplicate key.
pub record Transactions : Type 0 where
  pub database : Database
  pub operations : Orm OperationRow same_operation
  pub insert : OperationRow → List OperationRow → Result (List OperationRow)
  pub in_locale_order : Text → Text → Bool
  pub is_duplicate_entry : Text → Bool

-- What one execution draws: the generated key of the operation, and the time.
pub record Draws : Type 0 where
  pub operation_id : Text
  pub at : ℕ

unfoldable pub result_incomplete : Failure
result_incomplete = domain (record {
  code = text "STOCK_RELEASE_RESULT_INCOMPLETE";
  message = text "The persisted stock release result is incomplete.";
  details = [];
})

-- `!value` is also true of the empty string.
abbrev pub filled_text : Option Text → Result Text
filled_text none = err result_incomplete
filled_text (some []) = err result_incomplete
filled_text (some (c ∷ s)) = ok (c ∷ s)

-- `StockReleaseOperationMapper.toApplication`
unfoldable pub to_application : OperationRow → Result StockReleaseOperation
to_application row = Errors.◌>>=◌ (or_raise row.result_event_name result_incomplete) λ name.
    Errors.◌>>=◌ (filled_text row.result_event_id) λ id.
      Errors.◌>>=◌ (or_raise row.result_occurred_at result_incomplete) λ at.
        Errors.◌>>=◌ (or_raise row.result_payload result_incomplete) λ items. ok (record {
          command_event_id = row.command_event_id;
          saga_id = row.saga_id;
          order_id = row.order_id;
          correlation_id = row.correlation_id;
          command_hash = row.command_hash;
          result_event_name = name;
          result_event_id = id;
          result_occurred_at = at;
          result_payload = items;
        })

-- `released` and `failed`
unfoldable pub released_item : StockReleaseCommandItem → StockReleaseResultItem
released_item item = record {
  part_id = item.part_id;
  quantity = item.quantity;
  status = item_released;
  failure_code = none;
}

unfoldable pub failed_item : StockReleaseCommandItem → Text → StockReleaseResultItem
failed_item item code = record {
  part_id = item.part_id;
  quantity = item.quantity;
  status = item_failed;
  failure_code = some code;
}

-- `findOne`, and `save`, of the three tables.
abbrev pub find_one_reservation :
    Transactions → (ReservationRow → Bool) → Action Stock (Option ReservationRow)
find_one_reservation t p w = (t.database.reservations.find_one p w.inventory.reservations, w)

abbrev pub find_one_part : Transactions → (PartRow → Bool) → Action Stock (Option PartRow)
find_one_part t p w = (t.database.parts.find_one p w.inventory.parts, w)

abbrev pub find_operation : Transactions → Text → Action Stock (Option OperationRow)
find_operation t id w = (t.operations.find_one (λ row. row.command_event_id === id) w.operations, w)

abbrev pub write_parts : Result (List PartRow) → Action Stock (Unit {0})
write_parts (ok rows) w = (
  ok tt,
  record w { inventory = record { parts = rows; reservations = w.inventory.reservations } },
)
write_parts (err f) w = (err f, w)

abbrev pub save_part_row : Transactions → PartRow → Action Stock (Unit {0})
save_part_row t row w = write_parts (t.database.parts.save row w.inventory.parts) w

abbrev pub write_reservations : Result (List ReservationRow) → Action Stock (Unit {0})
write_reservations (ok rows) w =
    (ok tt, record w { inventory = record { parts = w.inventory.parts; reservations = rows } })
write_reservations (err f) w = (err f, w)

abbrev pub save_reservation_row : Transactions → ReservationRow → Action Stock (Unit {0})
save_reservation_row t row w =
    write_reservations (t.database.reservations.save row w.inventory.reservations) w

abbrev pub write_operations : Result (List OperationRow) → Action Stock (Unit {0})
write_operations (ok rows) w = (ok tt, record w { operations = rows })
write_operations (err f) w = (err f, w)

-- What `releaseOne` writes in the two rows.
unfoldable pub released_part : Number → ℕ → PartRow → PartRow
released_part quantity at row = record row {
  reserved_quantity = minus row.reserved_quantity quantity;
  available_quantity = plus row.available_quantity quantity;
  updated_at = at;
}

unfoldable pub released_reservation : Text → ℕ → ReservationRow → ReservationRow
released_reservation event at row = record row {
  status = Reservation.released;
  failure_code = none;
  failure_reason = none;
  released_by_event_id = some event;
  released_at = some at;
  updated_at = at;
}

-- `releaseOne`, from the part on.
unfoldable pub release_part :
    Transactions
    → StockReleaseCommand
    → StockReleaseCommandItem
    → ℕ
    → ReservationRow
    → Option PartRow
    → Action Stock StockReleaseResultItem
release_part t c item at r none = pure (failed_item item (text "PART_NOT_FOUND"))
release_part t c item at r (some part) =
    if less part.reserved_quantity item.quantity
    then pure (failed_item item (text "PART_RESERVED_STOCK_INSUFFICIENT"))
    else do
      save_part_row t (released_part item.quantity at part)
      save_reservation_row t (released_reservation c.command_event_id at r)
      pure (released_item item)

-- `releaseOne`, from the status of the reservation on.
unfoldable pub release_status :
    Transactions
    → StockReleaseCommand
    → StockReleaseCommandItem
    → ℕ
    → ReservationRow
    → StockReservationStatus
    → Action Stock StockReleaseResultItem
unfolding release_part
release_status t c item at r Reservation.released =
    if same_text r.released_by_event_id (some c.command_event_id)
    then pure (released_item item)
    else pure (failed_item item (text "STOCK_RESERVATION_ALREADY_RELEASED"))
release_status t c item at r Reservation.committed =
    pure (failed_item item (text "STOCK_RESERVATION_ALREADY_COMMITTED"))
release_status t c item at r Reservation.failed =
    pure (failed_item item (text "STOCK_RESERVATION_NOT_ACTIVE"))
release_status t c item at r Reservation.reserved = do
  part ← find_one_part t (λ row. row.id === item.part_id)
  release_part t c item at r part

-- `releaseOne`, from the reservation on.
unfoldable pub release_found :
    Transactions
    → StockReleaseCommand
    → StockReleaseCommandItem
    → ℕ
    → Option ReservationRow
    → Action Stock StockReleaseResultItem
unfolding release_status
release_found t c item at none = pure (failed_item item (text "STOCK_RESERVATION_NOT_FOUND"))
release_found t c item at (some r) =
    if not (same r.quantity item.quantity)
    then pure (failed_item item (text "STOCK_RESERVATION_QUANTITY_MISMATCH"))
    else release_status t c item at r r.status

-- `releaseOne`
unfoldable pub release_one :
    Transactions
    → StockReleaseCommand
    → ℕ
    → StockReleaseCommandItem
    → Action Stock StockReleaseResultItem
unfolding release_found
release_one t c at item = do
  r ← find_one_reservation t (λ row.
      row.saga_id === c.saga_id && row.order_id === c.order_id && row.part_id === item.part_id)
  release_found t c item at r
