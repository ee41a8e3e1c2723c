-- ===== src/Releasing/Unit.antt =====
-- The transaction of TypeOrmStockReleaseUnitOfWork, and StockReleaseService over it.
use workshop_service.Base.{
  ℕ, Bool, true, false, ◌&&◌, not, Option, none, some, List, [], ◌∷◌, any, if◌then◌else◌,
}
use workshop_service.Text.{Text, text, ◌===◌}
use workshop_service.Errors
use workshop_service.Errors.{
  Failure, domain, error, Result, ok, err, or_raise, raise_if, map_result,
}
use workshop_service.Errors.Action.{Action, pure, lift, gets, ◌>>=◌, ◌>>◌, try_catch}
use workshop_service.Releasing.{
  StockReleaseCommandItem, StockReleaseCommand, Hashing, stock_released, stock_release_failed,
  create_stock_release_result_event_id, normalize_command, create_stock_release_command_hash,
}
use workshop_service.Releasing.Work.{
  item_released, item_failed, StockReleaseResultItem, StockReleaseOperation, OperationRow, Stock,
  Transactions, Draws, to_application, find_operation, write_operations, release_one,
}

-- The items by `localeCompare` of their parts; equal ones keep their order.
abbrev pub insert_by :
    (Text → Text → Bool)
    → StockReleaseCommandItem
    → List StockReleaseCommandItem
    → List StockReleaseCommandItem
insert_by before x [] = x ∷ []
insert_by before x (y ∷ ys) =
    let rest = insert_by before x ys in if before x.part_id y.part_id then x ∷ y ∷ ys else y ∷ rest

unfoldable pub sort_by :
    (Text → Text → Bool) → List StockReleaseCommandItem → List StockReleaseCommandItem
sort_by before [] = []
sort_by before (x ∷ xs) = insert_by before x (sort_by before xs)

-- The loop of `releaseReservations`: the results in the order of the releases.
unfoldable pub release_all :
    Transactions
    → StockReleaseCommand
    → ℕ
    → List StockReleaseCommandItem
    → Action Stock (List StockReleaseResultItem)
release_all t c at [] = pure []
release_all t c at (item ∷ items) = do
  result ← release_one t c at item
  results ← release_all t c at items
  pure (result ∷ results)

-- `results.get(partId)`. The parts of a command are distinct, and a result has its item's part.
unfoldable pub result_of : Text → List StockReleaseResultItem → Option StockReleaseResultItem
result_of part_id [] = none
result_of part_id (x ∷ xs) = if x.part_id === part_id then some x else result_of part_id xs

unfoldable pub result_missing : Failure
result_missing = error (text "Cannot destructure property 'status' of undefined")

-- `releaseReservations`: the results in the order of the request. A result that were missing would
-- be `undefined`, which the caller cannot read.
unfoldable pub release_reservations :
    Transactions → StockReleaseCommand → ℕ → Action Stock (List StockReleaseResultItem)
unfolding release_all
release_reservations t c at = do
  results ← release_all t c at (sort_by t.in_locale_order c.reservations)
  lift
      (map_result (λ item. or_raise (result_of item.part_id results) result_missing) c.reservations)

-- `assertSameCommand`
unfoldable pub command_conflict : Failure
command_conflict = domain (record {
  code = text "STOCK_RELEASE_COMMAND_CONFLICT";
  message = text "The command event ID is already associated with different content.";
  details = [];
})

abbrev pub is_same_command : OperationRow → StockReleaseCommand → Text → Bool
is_same_command row c hash =
    row.command_hash === hash
    && row.saga_id === c.saga_id
    && row.order_id === c.order_id
    && row.correlation_id === c.correlation_id

-- The operation that is stored for the event, if it is of the same command.
unfoldable pub answer_existing :
    StockReleaseCommand → Text → OperationRow → Result StockReleaseOperation
answer_existing c hash row =
    Errors.◌>>◌ (raise_if (not (is_same_command row c hash)) command_conflict) (to_application row)

abbrev pub is_failed : StockReleaseResultItem → Bool
is_failed x = elim x.status [ item_released ↦ false | item_failed ↦ true ]

-- The row that is inserted first, and with the result.
abbrev pub pending_row : Draws → StockReleaseCommand → Text → OperationRow
pending_row now c hash = record {
  id = now.operation_id;
  command_event_id = c.command_event_id;
  saga_id = c.saga_id;
  order_id = c.order_id;
  correlation_id = c.correlation_id;
  command_hash = hash;
  result_event_name = none;
  result_event_id = none;
  result_occurred_at = none;
  result_payload = none;
}

unfoldable pub complete_row :
    Hashing → Draws → StockReleaseCommand → Text → List StockReleaseResultItem → OperationRow
complete_row h now c hash results =
    let name = if any is_failed results then stock_release_failed else stock_released in
    record (pending_row now c hash) {
      result_event_name = some name;
      result_event_id =
          some
            (create_stock_release_result_event_id h name c.saga_id c.order_id c.command_event_id);
      result_occurred_at = some now.at;
      result_payload = some results;
    }

-- `executeTransaction`, for an event with no operation.
unfoldable pub perform :
    Hashing → Transactions → Draws → StockReleaseCommand → Text → Action Stock StockReleaseOperation
unfolding release_reservations complete_row
perform h t now c hash = do
  before ← gets (λ w. w.operations)
  write_operations (t.insert (pending_row now c hash) before)
  results ← release_reservations t c now.at
  inserted ← gets (λ w. w.operations)
  write_operations (t.operations.save (complete_row h now c hash results) inserted)
  lift (to_application (complete_row h now c hash results))

unfoldable pub perform_unless :
    Hashing
    → Transactions
    → Draws
    → StockReleaseCommand
    → Text
    → Option OperationRow
    → Action Stock StockReleaseOperation
unfolding perform answer_existing
perform_unless h t now c hash (some row) = lift (answer_existing c hash row)
perform_unless h t now c hash none = perform h t now c hash

-- `executeTransaction`
unfoldable pub execute_transaction :
    Hashing → Transactions → Draws → StockReleaseCommand → Text → Action Stock StockReleaseOperation
unfolding perform_unless
execute_transaction h t now c hash = do
  existing ← find_operation t c.command_event_id
  perform_unless h t now c hash existing

-- `dataSource.transaction`: a throw rolls the tables back.
abbrev pub transaction : {A : Type 0} → Action Stock A → Action Stock A
transaction m w = let (r, w') = m w in elim r [ ok a ↦ (ok a, w') | err f ↦ (err f, w) ]

-- `isDuplicateKeyError`
unfoldable pub is_duplicate_key_error : Transactions → Failure → Bool
is_duplicate_key_error t (domain e) = false
is_duplicate_key_error t (error message) = t.is_duplicate_entry message

-- The `catch` block of `execute`, from the look-up on.
abbrev pub answer_after :
    StockReleaseCommand → Text → Failure → Option OperationRow → Result StockReleaseOperation
answer_after c hash f none = err f
answer_after c hash f (some row) = answer_existing c hash row

unfoldable pub recover :
    Transactions → StockReleaseCommand → Text → Failure → Action Stock StockReleaseOperation
unfolding is_duplicate_key_error answer_existing
recover t c hash f w =
    if is_duplicate_key_error t f
    then (find_operation t c.command_event_id >>= λ row. lift (answer_after c hash f row)) w
    else (err f, w)

-- `execute` of the unit of work
unfoldable pub execute_work :
    Hashing → Transactions → Draws → StockReleaseCommand → Text → Action Stock StockReleaseOperation
unfolding execute_transaction recover
execute_work h t now c hash =
    try_catch (transaction (execute_transaction h t now c hash)) (recover t c hash)

-- `StockReleaseService.execute`
unfoldable pub execute :
    Hashing → Transactions → Draws → StockReleaseCommand → Action Stock StockReleaseOperation
unfolding execute_work
execute h t now raw = do
  c ← lift (normalize_command raw)
  execute_work h t now c (create_stock_release_command_hash h c)
