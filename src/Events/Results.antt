-- ===== src/Events/Results.antt =====
-- The results that the consumers of stock requests publish.
use workshop_service.Base.{
  ℕ, suc, ◌≡◌, refl, true, some, List, [], ◌∷◌, ◌++◌, sym, ap, ◌∙◌, ◌⊎◌, inl, inr, if◌then◌else◌,
}
use mathlib.Core.Path.{subst}
use workshop_service.Text.{text, ◌===◌}
use workshop_service.Errors.{Result, ok, err}
use workshop_service.Errors.Action.{lift, ◌>>=◌}
use workshop_service.Messaging.{Items, nil, cons, BrokerMessage, Published, Outside}
use workshop_service.Persistence.{Answers, find?}
use workshop_service.Reservation.{StockReservation}
use workshop_service.Inventory.{Inventory}
use workshop_service.Releasing.{
  Hashing, create_stock_release_command_hash, event_text, normalize_command,
}
use workshop_service.Releasing.Work.{
  StockReleaseOperation, OperationRow, Transactions, Draws, to_application,
}
use workshop_service.Releasing.Unit.{is_same_command, execute, command_conflict}
use workshop_service.Releasing.Laws.{execute_again}
use workshop_service.Events.{Consuming, Visit, consume_once}
use workshop_service.Events.Once.{consume_once-Ran}
use workshop_service.Events.Requests.{Dates, ReleaseRequest, as_release_requested}
use workshop_service.Events.Stocks.{
  Warehouse, in_stock, publish, reserve_result_name, reserve_result, release_command,
  release_result_envelope, release_operation, release_key, consume_release,
}
use workshop_service.Events.Accepted.{as_release_requested-fits}

-- The message of a stored operation, as it is published.
abbrev pub release_message : StockReleaseOperation → Published
release_message p = record {
  exchange = text "workshop.topic";
  routing_key = event_text p.result_event_name;
  message = release_result_envelope p;
}

module _ (h : Hashing) (t : Transactions) (up : Answers t.operations) (now : Draws)
    (input : ReleaseRequest) (p : StockReleaseOperation) (row : OperationRow) (w : Warehouse)
    (normal : normalize_command (release_command input) ≡ ok (release_command input))
    (stored : find? (λ x. x.command_event_id === input.event_id) w.stock.operations ≡ some row)
    (same : is_same_command row
        (release_command input)
        (create_stock_release_command_hash h (release_command input))
      ≡ true)
    (done : to_application row ≡ ok p)
    (confirmed : h.outside.confirm (release_message p) ≡ ok tt) where
  answered_again : execute h t now (release_command input) w.stock ≡ (ok p, w.stock)
  unfolding release_command
  answered_again =
      execute_again h t now (release_command input) (release_command input) w.stock row up normal
        stored
      ∙ ap (λ b. (if b then to_application row else err command_conflict, w.stock)) same
      ∙ ap (λ r. (r, w.stock)) done

  released_again :
      release_operation h t now input w
      ≡ (ok tt, record w { published = w.published ++ (release_message p ∷ []) })
  unfolding release_operation publish
  released_again =
      ap
        (λ y.
          ((in_stock (λ _. y)) >>= λ operation.
          publish h.outside (event_text operation.result_event_name)
            (release_result_envelope operation))
            w)
        answered_again
      ∙ ap (λ r. announce r) confirmed
    where
      announce : Result (Unit {0}) → Result (Unit {0}) × Warehouse
      announce r = elim r [
        | ok d ↦ (ok tt, record w { published = w.published ++ (release_message p ∷ []) })
        | err f ↦ (err f, w)
      ]

-- A release request whose operation is stored may be delivered again, its mark lost: whatever
-- becomes of the claim and of the mark, no stock moves, and nothing or exactly the message of the
-- stored operation is published. The request is accepted, the look-up of operations answers, the
-- operation is that of the same command and complete, and the broker confirms its message.
pub consume_release_again :
    (dates : Dates) (h : Hashing) (t : Transactions) (up : Answers t.operations) (now : Draws)
    (v : Visit) (m : BrokerMessage) (input : ReleaseRequest) (p : StockReleaseOperation)
    (row : OperationRow) (c : Consuming Warehouse)
    → as_release_requested dates m ≡ ok input
    → find? (λ x. x.command_event_id === input.event_id) c.service.stock.operations ≡ some row
    → is_same_command row
        (release_command input)
        (create_stock_release_command_hash h (release_command input))
      ≡ true
    → to_application row ≡ ok p
    → h.outside.confirm (release_message p) ≡ ok tt
    → let after = (consume_release dates h t now v m c).1.service in
      (after.stock ≡ c.service.stock)
      × ((after.published ≡ c.service.published)
          ⊎ (after.published ≡ c.service.published ++ (release_message p ∷ [])))
unfolding consume_release
consume_release_again dates h t up now v m input p row c accepted stored same done confirmed =
    let Kept : Warehouse → Type 0 = λ w.
      (w.stock ≡ c.service.stock)
      × ((w.published ≡ c.service.published)
          ⊎ (w.published ≡ c.service.published ++ (release_message p ∷ []))) in
    let run =
      released_again h t up now input p row c.service
        (as_release_requested-fits dates m input accepted) stored same done confirmed in
    subst
      (λ r.
        Kept
          ((lift r >>= λ i. consume_once true (release_key i) v (release_operation h t now i))
            c).1.service)
      (sym accepted)
      (elim (consume_once-Ran true (release_key input) v (release_operation h t now input) c) [
        | inl kept ↦ subst Kept (sym kept) (refl, inl refl)
        | inr ran ↦ subst Kept (sym ran) (subst (λ y. Kept y.1) (sym run) (refl, inr refl))
      ])

-- The number of items of a message.
unfoldable pub count : Items → ℕ
count nil = 0
count (cons v rest) = suc (count rest)

-- The message of a reserve result.
abbrev pub reserve_message : Outside → BrokerMessage → List StockReservation → ℕ → Published
reserve_message o m rs at = record {
  exchange = text "workshop.topic";
  routing_key = reserve_result_name rs;
  message = reserve_result o m rs at;
}
