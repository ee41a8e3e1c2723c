-- ===== src/Reserving/Repeated.antt =====
-- A call of `reserveStock` after one that returned.
use workshop_service.Base.{
  ◌≡◌, refl, sym, ap, ◌∙◌, inl, inr, Bool, true, false, Option, none, some, List, [], ◌∷◌, arith,
  if◌then◌else◌, Bool-cases, ◌&&◌,
}
use mathlib.Core.Path.{subst}
use workshop_service.Number.{Number, same}
use workshop_service.Text.{Text, ◌===◌}
use workshop_service.Text.Laws.{===-refl}
use workshop_service.Errors.{Result, ok, err}
use workshop_service.Errors.Action.{◌>>=◌, lift, try_catch}
use workshop_service.Part.Stock.{IsStocked, move-IsStocked, move}
use workshop_service.Part.Stock
use workshop_service.Part.Methods.{is_no_movement}
use workshop_service.Persistence.{find?, upsert}
use workshop_service.Persistence.Tables.{find?-All, upsert-All}
use workshop_service.Reservation.{
  StockReservation, reserved, failed, ReserveStockCommand, matches_reservation_request,
  create_failed,
}
use workshop_service.Inventory.{
  PartRow, ReservationRow, Inventory, Database, Moments, is_reservation_of, reservation_to_orm,
  same_reservation, save_reservation,
}
use workshop_service.Inventory.Rows.{
  as_part, as_part?, as_reservation, as_reservation?, AreReservationsReadable, IsAcceptedPart,
  IsAcceptedReservation, DatabaseAnswers, find_part_lem, find_reservation_lem, save_reservation_lem,
}
use workshop_service.Reserving.{
  record_failure, reserve, reserve_from, reserve_unless, recover_reservation,
  stock_reservation_conflict,
}
use workshop_service.Reserving.Outcomes.{IsSound}
use workshop_service.Reserving.Steps.{
  taken, reserve_stock_cases, reservation_for, IsKeyed, taken-IsAccepted, with_reservation,
  with_part, new_reservation_lem, new_reservation_refused, reservation_for-IsAccepted,
  attempt_refused, attempt_taken,
}
use workshop_service.Reserving.Balance.{reserve_again}

find?-upsert_new :
    {Row : Type 0} (same_key : Row → Row → Bool) (p : Row → Bool) (r : Row) (t : List Row)
    → p r ≡ true
    → find? p t ≡ none
    → find? p (upsert same_key r t) ≡ some r
unfolding find? upsert
find?-upsert_new same_key p r [] h e = ground arith
find?-upsert_new same_key p r (x ∷ t) h e = ground (arith, find?-upsert_new same_key p r t)

module _ (c : ReserveStockCommand) where
  -- The reservation that a call returned is stored under the key of its command.
  abbrev IsStored : Result StockReservation × Inventory → Type 0
  IsStored (err f, w) = Unit {0}
  IsStored (ok r, w) =
      (row : ReservationRow) × (find? (is_reservation_of c.saga_id c.order_id c.part_id)
          w.reservations
        ≡ some row)
      × (as_reservation row ≡ r)
      × AreReservationsReadable w.reservations

module _ (db : Database) (up : DatabaseAnswers db) (now : Moments) (c : ReserveStockCommand)
    (k : IsKeyed c) (w : Inventory) (sound : IsSound w)
    (new : find? (is_reservation_of c.saga_id c.order_id c.part_id) w.reservations ≡ none) where
  made-IsStored :
      (r : StockReservation) (w' : Inventory)
      → IsAcceptedReservation r
      → r.saga_id ≡ c.saga_id
      → r.order_id ≡ c.order_id
      → r.part_id ≡ c.part_id
      → w'.reservations ≡ w.reservations
      → IsStored c (ok r, with_reservation r w')
  unfolding reservation_to_orm
  made-IsStored r w' fit saga order part e = (
    reservation_to_orm r,
    subst
        (λ t.
          find? (is_reservation_of c.saga_id c.order_id c.part_id)
            (upsert same_reservation (reservation_to_orm r) t)
          ≡ some (reservation_to_orm r))
        (sym e)
        (find?-upsert_new same_reservation (is_reservation_of c.saga_id c.order_id c.part_id)
          (reservation_to_orm r) w.reservations
          (ground (
            arith,
            k.saga,
            k.order,
            k.part,
            ===-refl c.saga_id,
            ===-refl c.order_id,
            ===-refl c.part_id,
          ))
          new),
    refl,
    subst (λ t. AreReservationsReadable (upsert same_reservation (reservation_to_orm r) t)) (sym e)
        (upsert-All (λ row. IsAcceptedReservation (as_reservation row)) same_reservation
          (reservation_to_orm r) w.reservations sound.readable_reservations fit),
  )

  failure-IsStored : (code reason : Text) → IsStored c (record_failure db now c code reason w)
  unfolding record_failure create_failed
  failure-IsStored code reason = elim (Bool-cases (is_no_movement c.quantity)) [
    | inl bad ↦
        let (f, e) = new_reservation_refused now.failure c failed (some code) (some reason) k bad in
        subst (λ m. IsStored c ((lift m >>= save_reservation db now) w)) (sym e) tt
    | inr good ↦
        let r = reservation_for now.failure c failed (some code) (some reason) in
        let fit =
          reservation_for-IsAccepted now.failure c failed (some code) (some reason) k good in
        subst (λ m. IsStored c ((lift m >>= save_reservation db now) w))
          (sym (new_reservation_lem now.failure c failed (some code) (some reason) k good))
          (subst (IsStored c) (sym (save_reservation_lem db up now r w fit))
            (made-IsStored r w fit refl refl refl refl))
  ]

  part-IsStored :
      (o : Option PartRow)
      → find? (λ row. row.id === c.part_id && row.active) w.parts ≡ o
      → IsStored c (reserve_from db now c (as_part? o) w)
  unfolding reserve_from recover_reservation move
  part-IsStored none found = failure-IsStored _ _
  part-IsStored (some x) found =
      let p = as_part x in
      let readable =
        find?-All (λ row. IsAcceptedPart (as_part row)) (λ row. row.id === c.part_id && row.active)
          w.parts x sound.readable_parts found in
      let stocked =
        find?-All (λ row. IsStocked (as_part row)) (λ row. row.id === c.part_id && row.active)
          w.parts x sound.stocked found in
      elim (reserve_stock_cases c.quantity now.at p) [
        | inl (e, h) ↦
            subst (λ y. IsStored c (try_catch (λ _. y) (recover_reservation db now c) w))
              (sym (attempt_refused db up now c k p e w h)) (failure-IsStored e.code e.message)
        | inr (h, good) ↦
            let s =
              subst IsStocked (ap (λ m. m.1) h)
                (move-IsStocked Stock.reserve c.quantity now.at p stocked) in
            let fit = taken-IsAccepted c.quantity now.at p readable s in
            let r = reservation_for now.attempt c reserved none none in
            subst (λ y. IsStored c (try_catch (λ _. y) (recover_reservation db now c) w))
              (sym (attempt_taken db up now c k p w fit h good))
              (made-IsStored r (with_part (taken c.quantity now.at p) w)
                (reservation_for-IsAccepted now.attempt c reserved none none k good) refl refl refl
                refl)
      ]

  new-IsStored : IsStored c (reserve_unless db now c none w)
  unfolding reserve_unless
  new-IsStored =
      subst (λ y. IsStored c (((λ _. y) >>= reserve_from db now c) w))
        (sym (find_part_lem db up now c.part_id w sound.readable_parts))
        (part-IsStored (find? (λ row. row.id === c.part_id && row.active) w.parts) refl)

module _ (db : Database) (up : DatabaseAnswers db) (now : Moments) (c : ReserveStockCommand)
    (k : IsKeyed c) (w : Inventory) (sound : IsSound w) where
  existing_lem :
      (row : ReservationRow)
      → reserve_unless db now c (some (as_reservation row)) w ≡ (
        if same row.quantity c.quantity
            then ok (as_reservation row)
            else err (stock_reservation_conflict c row.quantity),
        w,
      )
  unfolding reserve_unless matches_reservation_request
  existing_lem row = ground arith

  existing-IsStored :
      (row : ReservationRow)
      → find? (is_reservation_of c.saga_id c.order_id c.part_id) w.reservations ≡ some row
      → (b : Bool)
      → IsStored c (
        if b then ok (as_reservation row) else err (stock_reservation_conflict c row.quantity),
        w,
      )
  existing-IsStored row e true = (row, e, refl, sound.readable_reservations)
  existing-IsStored row e false = tt

  unless-IsStored :
      (o : Option ReservationRow)
      → find? (is_reservation_of c.saga_id c.order_id c.part_id) w.reservations ≡ o
      → IsStored c (reserve_unless db now c (as_reservation? o) w)
  unless-IsStored none e = new-IsStored db up now c k w sound e
  unless-IsStored (some row) e =
      subst (IsStored c) (sym (existing_lem row))
        (existing-IsStored row e (same row.quantity c.quantity))

  reserve-IsStored : IsStored c (reserve db now c w)
  unfolding reserve
  reserve-IsStored =
      subst (λ y. IsStored c (((λ _. y) >>= reserve_unless db now c) w))
        (sym (
          find_reservation_lem db up now c.saga_id c.order_id c.part_id w
            sound.readable_reservations))
        (unless-IsStored (find? (is_reservation_of c.saga_id c.order_id c.part_id) w.reservations)
          refl)

  -- Where the database answers, the tables are sound and the identifiers are trimmed: after a call
  -- that returned a reservation, be it one that was there, a new one or a recorded failure, every
  -- further call for the same saga, order and part changes nothing; it returns that reservation if
  -- it asks for its quantity, and is refused as a conflict with that quantity if it asks for another.
  pub reserve_twice :
      (now' : Moments) (quantity : Number) (r : StockReservation) (w' : Inventory)
      → reserve db now c w ≡ (ok r, w')
      → let c' = record c { quantity = quantity } in
        reserve db now' c' w' ≡ (
          if same r.quantity quantity then ok r else err (stock_reservation_conflict c' r.quantity),
          w',
        )
  unfolding matches_reservation_request
  reserve_twice now' quantity r w' returned =
      let c' = record c { quantity = quantity } in
      let stored : IsStored c (ok r, w') = subst (IsStored c) returned reserve-IsStored in
      let (row, found, e, readable) = stored in
      reserve_again db up now' c' w' row readable found
      ∙ ap
          (λ (x : StockReservation). (
            if same x.quantity quantity
                then ok x
                else err (stock_reservation_conflict c' x.quantity),
            w',
          ))
          e
