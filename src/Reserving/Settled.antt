-- ===== src/Reserving/Settled.antt =====
-- `applyReservationSettlement` where the part of the reservation is not active.
use workshop_service.Base.{◌≡◌, ◌&&◌, none, some, ap, ◌∙◌, if◌then◌else◌, not}
use workshop_service.Text.{Text, text, ◌===◌}
use workshop_service.Errors.{ok}
use workshop_service.Errors.Action.{◌>>=◌, pure}
use workshop_service.Persistence.{find?}
use workshop_service.Persistence.Tables.{find?-All}
use workshop_service.Reservation
use workshop_service.Reservation.{StockReservation, same_status, reserved, failed}
use workshop_service.Inventory.{ReservationRow, Inventory, Database, Moments, is_reservation_of}
use workshop_service.Inventory.Rows.{
  as_part?, as_reservation, as_reservation?, ArePartsReadable, AreReservationsReadable,
  DatabaseAnswers, IsAcceptedReservation, find_part_lem, find_reservation_lem, save_reservation_lem,
}
use workshop_service.Reserving.{
  Settlement, settle, settle_found, apply_settlement, settle_with, fail_settlement,
}
use workshop_service.Reserving.Steps.{with_reservation}

-- The reservation, failed for its part.
abbrev pub closed : Moments → StockReservation → StockReservation
closed now r = record r {
  status = failed;
  failure_code = some (text "PART_NOT_FOUND");
  failure_reason = some (text "Part was not found while settling the stock reservation.");
  updated_at = now.at;
}

-- Where the database answers and its rows can be read, releasing or committing a RESERVED
-- reservation whose part is not active returns the reservation as FAILED and saves it so, and
-- leaves every row of the parts as it is, with the stock that was reserved for it.
pub settle_inactive :
    (db : Database) (up : DatabaseAnswers db) (now : Moments) (s : Settlement)
    (saga order part : Text) (w : Inventory) (row : ReservationRow)
    → ArePartsReadable w.parts
    → AreReservationsReadable w.reservations
    → find? (is_reservation_of saga order part) w.reservations ≡ some row
    → row.status ≡ reserved
    → find? (λ x. x.id === row.part_id && x.active) w.parts ≡ none
    → settle db now s saga order part w
      ≡ (ok (closed now (as_reservation row)), with_reservation (closed now (as_reservation row)) w)
unfolding settle settle_found apply_settlement settle_with fail_settlement Reservation.fail
settle_inactive db up now s saga order part w row hp hr found st missing =
    let r = as_reservation row in
    let old =
      find?-All (λ x. IsAcceptedReservation (as_reservation x)) (is_reservation_of saga order part)
        w.reservations row hr found in
    let fit : IsAcceptedReservation (closed now r) = record {
      saga = old.saga;
      order = old.order;
      part = old.part;
      quantity = old.quantity;
    } in
    ap (λ y. ((λ _. y) >>= settle_found db now s saga order part) w)
      (find_reservation_lem db up now saga order part w hr)
    ∙ ap (λ o. settle_found db now s saga order part (as_reservation? o) w) found
    ∙ ap (λ k. (if not (same_status k reserved) then pure r else apply_settlement db now s r) w) st
    ∙ ap (λ y. ((λ _. y) >>= settle_with db now s r) w) (find_part_lem db up now row.part_id w hp)
    ∙ ap (λ o. settle_with db now s r (as_part? o) w) missing
    ∙ save_reservation_lem db up now (closed now r) w fit
