-- ===== src/Releasing/Laws.antt =====
-- Repeated and refused stock releases.
use workshop_service.Base.{◌≡◌, refl, Bool, true, false, some, arith, ap, ◌∙◌, if◌then◌else◌}
use workshop_service.Text.{Text, ◌===◌}
use workshop_service.Errors.{Failure, Result, ok, err}
use workshop_service.Errors.Action.{lift, ◌>>=◌, try_catch}
use workshop_service.Persistence.{Answers, find?}
use workshop_service.Releasing.{
  StockReleaseCommand, Hashing, normalize_command, create_stock_release_command_hash,
}
use workshop_service.Releasing.Work.{
  StockReleaseOperation, OperationRow, Stock, Transactions, Draws, to_application,
  result_incomplete,
}
use workshop_service.Releasing.Unit.{
  is_same_command, command_conflict, answer_existing, transaction, is_duplicate_key_error, recover,
  execute_transaction, perform_unless, execute_work, execute,
}

recover_unchanged :
    (t : Transactions) (c : StockReleaseCommand) (hash : Text) (f : Failure) (w : Stock)
    → (recover t c hash f w).1 ≡ w
unfolding recover
recover_unchanged t c hash f w = ground arith

execute_work_thrown :
    (t : Transactions) (c : StockReleaseCommand) (hash : Text) (w w' : Stock)
    (r : Result StockReleaseOperation) (f : Failure)
    → (try_catch (transaction (λ _. (r, w'))) (recover t c hash) w).0 ≡ err f
    → (try_catch (transaction (λ _. (r, w'))) (recover t c hash) w).1 ≡ w
execute_work_thrown t c hash w w' (ok a) f h = cc
execute_work_thrown t c hash w w' (err g) f h = recover_unchanged t c hash g w

execute_after :
    (h : Hashing) (t : Transactions) (now : Draws) (r : Result StockReleaseCommand) (w : Stock)
    (f : Failure)
    → ((lift r >>= λ c. execute_work h t now c (create_stock_release_command_hash h c)) w).0 ≡ err f
    → ((lift r >>= λ c. execute_work h t now c (create_stock_release_command_hash h c)) w).1 ≡ w
unfolding execute_work
execute_after h t now (ok c) w f e =
    let hash = create_stock_release_command_hash h c in
    execute_work_thrown t c hash w (execute_transaction h t now c hash w).1
      (execute_transaction h t now c hash w).0 f e
execute_after h t now (err g) w f e = refl

-- A release that throws, at whatever step and with whatever faults of the database, has released
-- nothing and left no operation behind.
pub execute_error_unchanged :
    (h : Hashing) (t : Transactions) (now : Draws) (raw : StockReleaseCommand) (w : Stock)
    (f : Failure)
    → (execute h t now raw w).0 ≡ err f
    → (execute h t now raw w).1 ≡ w
unfolding execute
execute_error_unchanged h t now raw w f e = execute_after h t now (normalize_command raw) w f e

conflicting :
    (t : Transactions) (r : Result StockReleaseOperation)
    → r ≡ err command_conflict
    → (f : Failure) → r ≡ err f
    → is_duplicate_key_error t f ≡ false
unfolding is_duplicate_key_error command_conflict
conflicting t r q f e = ground arith

incomplete_row :
    (t : Transactions) (row : OperationRow) (f : Failure)
    → to_application row ≡ err f
    → is_duplicate_key_error t f ≡ false
unfolding to_application is_duplicate_key_error result_incomplete
incomplete_row t row f e = ground arith

-- A transaction that only answers.
answered :
    (t : Transactions) (c : StockReleaseCommand) (hash : Text) (w : Stock)
    (r : Result StockReleaseOperation)
    → ((f : Failure) → r ≡ err f → is_duplicate_key_error t f ≡ false)
    → try_catch (transaction (lift r)) (recover t c hash) w ≡ (r, w)
unfolding recover
answered t c hash w (ok a) k = refl
answered t c hash w (err f) k = rw (k f refl, recover) refl

answered_row :
    (t : Transactions) (c : StockReleaseCommand) (hash : Text) (w : Stock) (row : OperationRow)
    (b : Bool)
    → is_same_command row c hash ≡ b
    → try_catch (transaction (lift (answer_existing c hash row))) (recover t c hash) w
      ≡ (if b then to_application row else err command_conflict, w)
unfolding answer_existing
answered_row t c hash w row true e =
    rw (e, answer_existing) (answered t c hash w (to_application row) (incomplete_row t row))
answered_row t c hash w row false e =
    rw (e, answer_existing)
      (answered t c hash w (err command_conflict) (conflicting t (err command_conflict) refl))

-- A command whose event has a stored operation changes nothing: it is answered with that
-- operation if its hash, saga, order and correlation are the stored ones, and is refused as a
-- conflict otherwise. The command is one that normalises to `c`, and the look-up answers.
pub execute_again :
    (h : Hashing) (t : Transactions) (now : Draws) (raw c : StockReleaseCommand) (w : Stock)
    (row : OperationRow)
    → Answers t.operations
    → normalize_command raw ≡ ok c
    → find? (λ x. x.command_event_id === c.command_event_id) w.operations ≡ some row
    → execute h t now raw w ≡ (
      if is_same_command row c (create_stock_release_command_hash h c)
          then to_application row
          else err command_conflict,
      w,
    )
unfolding execute execute_work execute_transaction perform_unless
execute_again h t now raw c w row up norm found =
    let hash = create_stock_release_command_hash h c in
    ap (λ r. (lift r >>= λ c'. execute_work h t now c' (create_stock_release_command_hash h c')) w)
      norm
    ∙ ap
        (λ y.
          try_catch (transaction ((λ _. (y, w)) >>= perform_unless h t now c hash))
            (recover t c hash) w)
        (up.finds (λ x. x.command_event_id === c.command_event_id) w.operations ∙ ap ok found)
    ∙ answered_row t c hash w row (is_same_command row c hash) refl
