-- ===== src/Tests/Releases.antt =====
-- Stock releases: the theorems at concrete inputs.
use workshop_service.Base.{◌≡◌, refl, true, false, none, [], ◌∷◌}
use workshop_service.Number.{number}
use workshop_service.Text.{text, trim, trim_start, trim_end, is_space}
use workshop_service.Errors.{ok, map_result}
use workshop_service.Persistence.{find?}
use workshop_service.Reservation.{reserved}
use workshop_service.Inventory.{PartRow, ReservationRow, same_part, same_reservation}
use workshop_service.Inventory.Rows.{DatabaseAnswers}
use workshop_service.Reserving.Balance.{IsBalanced}
use workshop_service.Releasing.{
  StockReleaseCommandItem, StockReleaseCommand, Hashing, required, normalize_item,
  normalize_command,
}
use workshop_service.Releasing.Work.{
  OperationRow, Stock, Transactions, Draws, same_operation, release_one,
}
use workshop_service.Releasing.Balance.{IsReleasable, release_one-IsBalanced}
use workshop_service.Tests.{answering, answering-Answers, outside}

abbrev pads_row : PartRow
pads_row = record {
  id = text "p-1";
  code = text "PAD-001";
  name = text "Brake pads";
  description = none;
  unit_price = number 50;
  available_quantity = number 10;
  reserved_quantity = number 2;
  minimum_quantity = number 1;
  unit = text "pc";
  active = true;
  created_at = 1;
  updated_at = 1;
}

abbrev held_row : ReservationRow
held_row = record {
  id = text "r-1";
  saga_id = text "saga-1";
  order_id = text "order-1";
  part_id = text "p-1";
  quantity = number 2;
  status = reserved;
  failure_code = none;
  failure_reason = none;
  released_by_event_id = none;
  released_at = none;
  created_at = 2;
  updated_at = 2;
}

-- An operation of the event, stored with another hash.
abbrev pub earlier : OperationRow
earlier = record {
  id = text "o-1";
  command_event_id = text "e-1";
  saga_id = text "saga-1";
  order_id = text "order-1";
  correlation_id = text "k-1";
  command_hash = text "other";
  result_event_name = none;
  result_event_id = none;
  result_occurred_at = none;
  result_payload = none;
}

abbrev pub stock : Stock
stock = record {
  inventory = record { parts = pads_row ∷ []; reservations = held_row ∷ [] };
  operations = earlier ∷ [];
}

abbrev pub transactions : Transactions
transactions = record {
  database = record { parts = answering same_part; reservations = answering same_reservation };
  operations = answering same_operation;
  insert = λ row rows. ok (row ∷ rows);
  in_locale_order = λ a b. true;
  is_duplicate_entry = λ m. false;
}

transactions-Answers : DatabaseAnswers transactions.database
transactions-Answers = record {
  parts = answering-Answers same_part;
  reservations = answering-Answers same_reservation;
}

abbrev pub hashing : Hashing
hashing = record { outside = outside; stringify = λ v. text "new" }

abbrev pub draws : Draws
draws = record { operation_id = text "o-9"; at = 9 }

abbrev item : StockReleaseCommandItem
item = record { part_id = text "p-1"; quantity = number 2 }

abbrev command : StockReleaseCommand
command = record {
  command_event_id = text "e-1";
  saga_id = text "saga-1";
  order_id = text "order-1";
  correlation_id = text "k-1";
  reservations = item ∷ [];
}

command-normal : normalize_command command ≡ ok command
unfolding normalize_command normalize_item required map_result trim trim_start trim_end is_space
    text
command-normal = refl

-- A command of nothing.
abbrev nothing : StockReleaseCommand
nothing = record command { reservations = [] }

stock-IsReleasable : IsReleasable stock.inventory
unfolding find?
stock-IsReleasable = record {
  stocked = (record { available = refl; reserved = refl }, tt);
  counted = (refl, tt);
  parts = (refl, tt);
  reservations = (refl, tt);
}

release_one-IsBalanced_example :
    IsBalanced
      (text "p-1")
      stock.inventory
      (release_one transactions command 9 item stock).1.inventory
release_one-IsBalanced_example =
    release_one-IsBalanced transactions transactions-Answers command 9 item (text "p-1") stock
      stock-IsReleasable
