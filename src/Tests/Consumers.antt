-- ===== src/Tests/Consumers.antt =====
-- The consumers of messages: the theorems at concrete inputs.
use workshop_service.Base.{
  ℕ, ◌≡◌, ◌<◌, refl, true, false, not, ◌⊎◌, none, some, [], ◌∷◌, ◌++◌, arith, ◌+◌,
}
use workshop_service.Number.{number}
use workshop_service.Text.{text, ◌===◌, trim, trim_start, trim_end, is_space, includes, is_prefix}
use workshop_service.Errors.{Failure, Result, ok, err, error}
use workshop_service.Errors.Action.{Action}
use workshop_service.Persistence.{find?, upsert}
use workshop_service.Messaging.{
  Value, num, str, array, object, Items, nil, cons, end, field, BrokerMessage,
}
use workshop_service.Broker.{field_of}
use workshop_service.Inventory.{Moments, Inventory, reservation_to_orm}
use workshop_service.Reserving
use workshop_service.Inventory
use workshop_service.Reserving.Outcomes.{AreFresh}
use workshop_service.Reserving.Sound.{AreApart}
use workshop_service.Releasing.{
  create_stock_release_command_hash, normalize_command, stock_released,
}
use workshop_service.Releasing.Work.{
  OperationRow, StockReleaseOperation, same_operation, to_application, item_released,
}
use workshop_service.Consumed.{
  Ledger, claim, put, insert_row, after_insert, same_key, mark_processed, update_row, require_one,
  first_row,
}
use workshop_service.Execution.Service.{create_queued_execution, create_normalized, settle_identity}
use workshop_service.Execution.Identity.{normalize_identity}
use workshop_service.Execution.Repository.{
  World, same_row, find_where, find_by_saga_id, find_by_order_id, save,
}
use workshop_service.Execution.Mapper.{to_orm_entity, to_domain}
use workshop_service.Execution.{
  Execution, create, new_execution, required_identifier, optional_identifier, queued,
}
use workshop_service.Events.{Consuming, Visit, attempt_of, consume_once, consume_claimed, perform}
use workshop_service.Events.Once.{consume_once_again, consume_once_retried, MayClaim, MayClaimLater}
use workshop_service.Events.Requests.{
  Dates, as_execution_requested, is_invalid_execution, is_empty_payload, ReleaseRequest,
  as_release_requested, is_invalid_release, release_items, release_item, normalized,
  positive_integer, as_reserve_requested, is_invalid_reserve, has_invalid_item, is_invalid_item,
}
use workshop_service.Events.Executions.{
  identity_of, consume_execution_requested, consume_execution_requested_again,
}
use workshop_service.Events.Stocks.{Warehouse, consume_release, release_command, reserve_operation}
use workshop_service.Events.Accepted.{as_release_requested-fits}
use workshop_service.Events.Results.{release_message, consume_release_again}
use workshop_service.Tests.{answering-Answers, executions, outside, empty_world, reading}
use workshop_service.Tests.Inventories.{database, inventory}
use workshop_service.Tests.Releases.{transactions, hashing, draws}
use workshop_service.Tests.Messages.{key, empty_ledger}

abbrev visit : Visit
visit = record { now = 5; later = 6; token = text "t-1"; lease = 300; mark_fault = none }

abbrev next_visit : Visit
next_visit = record { now = 7; later = 8; token = text "t-2"; lease = 300; mark_fault = none }

-- An operation that counts.
abbrev counting : Action ℕ (Unit {0})
counting n = (ok tt, n + 1)

abbrev broken : Action ℕ (Unit {0})
broken n = (err (error (text "Messaging is disabled.")), n + 1)

abbrev before : Consuming ℕ
before = record { service = 0; ledger = empty_ledger }

abbrev after : Consuming ℕ
after = (consume_once false key visit counting before).1

consume_once_again_example : consume_once true key next_visit broken after ≡ (ok tt, after)
unfolding consume_once consume_claimed claim insert_row after_insert put same_key perform
    mark_processed update_row require_one ◌===◌ text
consume_once_again_example =
    consume_once_again false true key visit next_visit counting broken before after refl

abbrev claimed_ledger : Ledger
claimed_ledger = put key (first_row (attempt_of key visit)) empty_ledger

-- A visit whose mark meets a fault of the database.
abbrev faulty_visit : Visit
faulty_visit = record visit { mark_fault = some (error (text "ECONNRESET")) }

consume_once_retried_example :
    ((faulty_visit.mark_fault ≡ none)
      × MayClaim false key faulty_visit broken next_visit
          (error (text "Messaging is disabled."))
          1
          before)
    ⊎ ((g : Failure) × (faulty_visit.mark_fault ≡ some g)
        × MayClaimLater false key faulty_visit broken next_visit g 1 before)
unfolding claim insert_row after_insert put
consume_once_retried_example =
    consume_once_retried false key faulty_visit broken next_visit (text "t-1") claimed_ledger
      (error (text "Messaging is disabled.")) 1 before refl refl

abbrev dates : Dates
dates = record { is_date = λ s. not (s === []) }

abbrev execution_message : BrokerMessage
execution_message = record {
  event_id = text " e-7 ";
  event_name = text "execution.requested";
  event_version = number 1;
  occurred_at = text "2026-01-01T00:00:00Z";
  correlation_id = text "k-1";
  causation_id = text "c-1";
  saga_id = text "saga-1";
  order_id = text "order-1";
  payload = object end;
}

abbrev execution_input : BrokerMessage
execution_input = record execution_message { event_id = text "e-7" }

abbrev created : Result Execution × World
created =
    create_queued_execution executions (reading "x-1" 10) (identity_of execution_input) empty_world

abbrev execution_of_7 : Execution
execution_of_7 = record {
  id = text "x-1";
  saga_id = text "saga-1";
  order_id = text "order-1";
  request_event_id = some (text "e-7");
  correlation_id = some (text "k-1");
  status = queued;
  failure_code = none;
  failure_reason = none;
  queued_at = 10;
  diagnosis_started_at = none;
  repair_started_at = none;
  finished_at = none;
  failed_at = none;
  created_at = 10;
  updated_at = 10;
}

consume_execution_requested_again_example :
    (consume_execution_requested dates executions
      (reading "x-2" 20)
      next_visit
      execution_message
      (record { service = created.1; ledger = empty_ledger })).1.service
    ≡ created.1
unfolding as_execution_requested is_invalid_execution is_empty_payload identity_of
    create_queued_execution create_normalized settle_identity normalize_identity required_identifier
    optional_identifier trim trim_start trim_end is_space text find_by_saga_id find_by_order_id
    find_where find? upsert save same_row create new_execution to_orm_entity to_domain ◌===◌
consume_execution_requested_again_example =
    consume_execution_requested_again dates executions (answering-Answers same_row)
      execution_message execution_input refl (reading "x-1" 10) (reading "x-2" 20) next_visit
      empty_world created.1 execution_of_7 empty_ledger tt refl

-- The draws of the i-th call.
abbrev moments : ℕ → Moments
moments i = record {
  at = 5;
  part = record { fresh_id = text "p-9"; created_now = 5; updated_now = 5 };
  attempt = record { fresh_id = 65 ∷ i ∷ []; created_now = 5 + i; updated_now = 5 };
  failure = record { fresh_id = 66 ∷ i ∷ []; created_now = 5 + i; updated_now = 5 };
}

moments-AreFresh : (i : ℕ) → AreFresh (moments i) inventory
unfolding find? ◌===◌ reservation_to_orm text
moments-AreFresh i = record { attempt = refl; failure = refl }

moments-AreApart : (i j : ℕ) → i < j → AreApart (moments i) (moments j)
unfolding ◌===◌
moments-AreApart i j h = record {
  attempts = ground arith;
  attempt_failure = refl;
  failure_attempt = refl;
  failures = ground arith;
}

-- Two items: pads that are there, and a part that is not.
abbrev items : Items
items =
    cons
      (object
        (field (text "partId") (str (text "p-1")) (field (text "quantity") (num (number 3)) end)))
      (cons
        (object
          (field (text "partId") (str (text "p-2")) (field (text "quantity") (num (number 1)) end)))
        nil)

abbrev reserve_request : BrokerMessage
reserve_request = record execution_input {
  event_name = text "stock.reserve.requested";
  saga_id = text "saga-2";
  payload = object (field (text "reservations") (array items) end);
}

abbrev warehouse : Consuming Warehouse
warehouse = record {
  service = record { stock = record { inventory = inventory; operations = [] }; published = [] };
  ledger = empty_ledger;
}

reserve_request-accepted : as_reserve_requested reserve_request ≡ ok items
unfolding as_reserve_requested is_invalid_reserve has_invalid_item is_invalid_item positive_integer
    field_of text ◌===◌
reserve_request-accepted = refl

abbrev reserved_once : Result (Unit {0}) × Warehouse
reserved_once = reserve_operation outside database moments reserve_request items warehouse.service

abbrev release_item_value : Value
release_item_value =
    object
      (field (text "partId") (str (text " p-1 ")) (field (text "quantity") (num (number 2)) end))

abbrev release_request : BrokerMessage
release_request = record execution_message {
  event_name = text "stock.release.requested";
  payload = object (field (text "reservations") (array (cons release_item_value nil)) end);
}

abbrev release_input : ReleaseRequest
release_input = record {
  event_id = text "e-7";
  occurred_at = text "2026-01-01T00:00:00Z";
  correlation_id = text "k-1";
  causation_id = text "c-1";
  saga_id = text "saga-1";
  order_id = text "order-1";
  reservations = record { part_id = text "p-1"; quantity = number 2 } ∷ [];
}

release_request-accepted : as_release_requested dates release_request ≡ ok release_input
unfolding as_release_requested is_invalid_release release_items release_item normalized
    positive_integer field_of text ◌===◌ trim trim_start trim_end is_space includes is_prefix
release_request-accepted = refl

as_release_requested-fits_example :
    normalize_command (release_command release_input) ≡ ok (release_command release_input)
as_release_requested-fits_example =
    as_release_requested-fits dates release_request release_input release_request-accepted

-- The operation of this request, as it is stored: the hash of the test is the same for all.
abbrev operation : StockReleaseOperation
operation = record {
  command_event_id = text "e-7";
  saga_id = text "saga-1";
  order_id = text "order-1";
  correlation_id = text "k-1";
  command_hash = text "new";
  result_event_name = stock_released;
  result_event_id = text "e-8";
  result_occurred_at = 6;
  result_payload =
      record {
        part_id = text "p-1";
        quantity = number 2;
        status = item_released;
        failure_code = none;
      }
      ∷ [];
}

abbrev operation_row : OperationRow
operation_row = record {
  id = text "o-7";
  command_event_id = operation.command_event_id;
  saga_id = operation.saga_id;
  order_id = operation.order_id;
  correlation_id = operation.correlation_id;
  command_hash = operation.command_hash;
  result_event_name = some operation.result_event_name;
  result_event_id = some operation.result_event_id;
  result_occurred_at = some operation.result_occurred_at;
  result_payload = some operation.result_payload;
}

abbrev released : Consuming Warehouse
released = record {
  service = record {
    stock = record { inventory = inventory; operations = operation_row ∷ [] };
    published = [];
  };
  ledger = empty_ledger;
}

consume_release_again_example :
    let later =
      (consume_release dates hashing transactions draws next_visit release_request
        released).1.service in
    (later.stock ≡ released.service.stock)
    × ((later.published ≡ []) ⊎ (later.published ≡ [] ++ (release_message operation ∷ [])))
unfolding find? ◌===◌ text to_application create_stock_release_command_hash release_command
consume_release_again_example =
    consume_release_again dates hashing transactions (answering-Answers same_operation) draws
      next_visit release_request release_input operation operation_row released
      release_request-accepted refl refl refl refl
