-- ===== src/Reserving/Leak.antt =====
-- `reserveStock` where the saga id of the request is blank.
use workshop_service.Base.{◌≡◌, refl, ◌&&◌, Option, none, some, List, [], ◌∷◌, arith, ap, ◌∙◌}
use workshop_service.Text.{Text, text, ◌===◌, trim}
use workshop_service.Errors.{ok, err}
use workshop_service.Errors.Action.{◌>>=◌, lift, try_catch}
use workshop_service.Part.Methods.{reserve_stock}
use workshop_service.Persistence.{find?}
use workshop_service.Reservation.{
  ReserveStockCommand, ReservationReadings, StockReservationStatus, props_of, new_reservation,
  validate_identifier, identifier_required, create_reserved, create_failed,
}
use workshop_service.Inventory.{
  PartRow, ReservationRow, Inventory, Database, Moments, is_reservation_of, save_reservation,
}
use workshop_service.Inventory.Rows.{
  as_part, as_part?, as_reservation?, ArePartsReadable, AreReservationsReadable, IsAcceptedPart,
  DatabaseAnswers, find_part_lem, find_reservation_lem, save_part_lem,
}
use workshop_service.Reserving.{
  reserve, reserve_from, reserve_unless, recover_reservation, record_failure, attempt_reservation,
}
use workshop_service.Reserving.Steps.{taken, with_part, after_part, after_move}

-- No stored reservation has a blank saga id.
none_of_blank :
    (saga order part : Text) (rows : List ReservationRow)
    → trim saga ≡ []
    → AreReservationsReadable rows
    → find? (is_reservation_of saga order part) rows ≡ none
unfolding find? ◌===◌
none_of_blank saga order part [] b h = refl
none_of_blank saga order part (row ∷ rows) b h =
    let rest = none_of_blank saga order part rows b h.1 in ground (arith, b, h.0.saga, rest)

refused_blank :
    (now : ReservationReadings) (c : ReserveStockCommand) (s : StockReservationStatus)
    (code reason : Option Text)
    → trim c.saga_id ≡ []
    → new_reservation now (props_of c s code reason) ≡ err (identifier_required (text "sagaId"))
unfolding new_reservation validate_identifier
refused_blank now c s code reason b = rw (b, new_reservation, validate_identifier) refl

module _ (db : Database) (up : DatabaseAnswers db) (now : Moments) (c : ReserveStockCommand)
    (b : trim c.saga_id ≡ []) where
  attempt_blank :
      (x : PartRow) (w : Inventory)
      → IsAcceptedPart (taken c.quantity now.at (as_part x))
      → reserve_stock c.quantity now.at (as_part x) ≡ (ok tt, taken c.quantity now.at (as_part x))
      → attempt_reservation db now c (as_part x) w ≡ (
        err (identifier_required (text "sagaId")),
        with_part (taken c.quantity now.at (as_part x)) w,
      )
  unfolding attempt_reservation create_reserved
  attempt_blank x w fit h =
      ap (λ y. after_move db now c y (as_part x) w) h
      ∙ ap (λ y. after_part db now c (λ _. y) w)
          (save_part_lem db up now (taken c.quantity now.at (as_part x)) w fit)
      ∙ ap
          (λ m.
            (lift m >>= save_reservation db now)
              (with_part (taken c.quantity now.at (as_part x)) w))
          (refused_blank now.attempt c _ none none b)

  record_blank :
      (code reason : Text) (w : Inventory)
      → record_failure db now c code reason w ≡ (err (identifier_required (text "sagaId")), w)
  unfolding record_failure create_failed
  record_blank code reason w =
      ap (λ m. (lift m >>= save_reservation db now) w)
        (refused_blank now.failure c _ (some code) (some reason) b)

  -- Where the database answers and its rows can be read, a request with a blank saga id for an
  -- active part that has the stock is refused with an
  -- exception, and the stock of the part stays reserved in the database, with no reservation
  -- that holds it.
  pub reserve_blank_leaks :
      (w : Inventory) (x : PartRow)
      → ArePartsReadable w.parts
      → AreReservationsReadable w.reservations
      → find? (λ row. row.id === c.part_id && row.active) w.parts ≡ some x
      → IsAcceptedPart (taken c.quantity now.at (as_part x))
      → reserve_stock c.quantity now.at (as_part x) ≡ (ok tt, taken c.quantity now.at (as_part x))
      → reserve db now c w ≡ (
        err (identifier_required (text "sagaId")),
        with_part (taken c.quantity now.at (as_part x)) w,
      )
  unfolding reserve reserve_unless reserve_from recover_reservation identifier_required
  reserve_blank_leaks w x hp hr found fit h =
      ap (λ y. ((λ _. y) >>= reserve_unless db now c) w)
        (find_reservation_lem db up now c.saga_id c.order_id c.part_id w hr)
      ∙ ap (λ o. reserve_unless db now c (as_reservation? o) w)
          (none_of_blank c.saga_id c.order_id c.part_id w.reservations b hr)
      ∙ ap (λ y. ((λ _. y) >>= reserve_from db now c) w) (find_part_lem db up now c.part_id w hp)
      ∙ ap (λ o. reserve_from db now c (as_part? o) w) found
      ∙ ap (λ y. try_catch (λ _. y) (recover_reservation db now c) w) (attempt_blank x w fit h)
      ∙ record_blank _ _ (with_part (taken c.quantity now.at (as_part x)) w)
