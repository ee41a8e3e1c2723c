-- ===== src/Reserving/Sound.antt =====
-- The tables after `reserveStock`, and the identifiers that other calls will draw.
use workshop_service.Base.{◌≡◌, refl, false, none, some, sym}
use mathlib.Core.Path.{subst}
use workshop_service.Text.{Text, ◌===◌}
use workshop_service.Persistence.{find?}
use workshop_service.Persistence.Tables.{upsert-All, upsert-Distinct, find?-upsert-none}
use workshop_service.Part.{Part}
use workshop_service.Part.Stock.{IsStocked}
use workshop_service.Reservation.{StockReservation, reserved, failed, ReserveStockCommand}
use workshop_service.Inventory.{
  PartRow, Inventory, Moments, part_to_orm, reservation_to_orm, same_part, same_reservation,
}
use workshop_service.Inventory.Rows.{
  as_part, as_part-part_to_orm, as_reservation, IsAcceptedPart, IsAcceptedReservation,
}
use workshop_service.Reserving.Steps.{
  taken, reservation_for, IsKeyed, with_reservation, with_part, reservation_for-IsAccepted,
}
use workshop_service.Reserving.Outcomes.{IsSound, AreFresh, Ends, unchanged, recorded, took}

with_reservation-IsSound :
    (r : StockReservation) (w : Inventory)
    → IsAcceptedReservation r
    → IsSound w
    → IsSound (with_reservation r w)
unfolding reservation_to_orm
with_reservation-IsSound r w fit sound = record {
  readable_parts = sound.readable_parts;
  readable_reservations =
      upsert-All (λ row. IsAcceptedReservation (as_reservation row)) same_reservation
        (reservation_to_orm r) w.reservations sound.readable_reservations fit;
  stocked = sound.stocked;
  ids = sound.ids;
}

with_part-IsSound :
    (p : Part) (x : PartRow) (w : Inventory)
    → find? (λ row. row.id === p.id) w.parts ≡ some x
    → x.id ≡ p.id
    → IsAcceptedPart p
    → IsStocked p
    → IsSound w
    → IsSound (with_part p w)
unfolding part_to_orm same_part
with_part-IsSound p x w found key fit stocked sound = record {
  readable_parts =
      upsert-All (λ row. IsAcceptedPart (as_part row)) same_part (part_to_orm p) w.parts
        sound.readable_parts (subst IsAcceptedPart (sym (as_part-part_to_orm p)) fit);
  readable_reservations = sound.readable_reservations;
  stocked =
      upsert-All (λ row. IsStocked (as_part row)) same_part (part_to_orm p) w.parts sound.stocked
        (subst IsStocked (sym (as_part-part_to_orm p)) stocked);
  ids = upsert-Distinct same_part (λ row. row.id) (part_to_orm p) w.parts x found key sound.ids;
}

-- A call leaves sound tables sound.
pub Ends-IsSound :
    (now : Moments) (c : ReserveStockCommand) (w w' : Inventory)
    → IsKeyed c
    → IsSound w
    → Ends now c w w'
    → IsSound w'
Ends-IsSound now c w w' k sound (unchanged e) = subst IsSound (sym e) sound
Ends-IsSound now c w w' k sound (recorded code reason good e) = subst IsSound (sym e) (
    with_reservation-IsSound (reservation_for now.failure c failed code reason) w
      (reservation_for-IsAccepted now.failure c failed code reason k good) sound)
Ends-IsSound now c w w' k sound (took x by_id key good fit s a r e) =
    let p' = taken c.quantity now.at (as_part x) in
    subst IsSound (sym e) (
      with_reservation-IsSound (reservation_for now.attempt c reserved none none) (with_part p' w)
        (reservation_for-IsAccepted now.attempt c reserved none none k good)
        (with_part-IsSound p' x w
          (subst (λ i. find? (λ row. row.id === i) w.parts ≡ some x) (sym key) by_id) refl fit s
          sound))

-- The identifiers of two calls differ.
pub record AreApart (a b : Moments) : Type 0 where
  pub attempts : (a.attempt.fresh_id === b.attempt.fresh_id) ≡ false
  pub attempt_failure : (a.attempt.fresh_id === b.failure.fresh_id) ≡ false
  pub failure_attempt : (a.failure.fresh_id === b.attempt.fresh_id) ≡ false
  pub failures : (a.failure.fresh_id === b.failure.fresh_id) ≡ false

still_new :
    (r : StockReservation) (key : Text) (w : Inventory)
    → (r.id === key) ≡ false
    → find? (λ row. row.id === key) w.reservations ≡ none
    → find? (λ row. row.id === key) (with_reservation r w).reservations ≡ none
unfolding reservation_to_orm
still_new r key w apart new =
    find?-upsert-none same_reservation (λ row. row.id === key) (reservation_to_orm r) w.reservations
      apart new

pub Ends-AreFresh :
    (now later : Moments) (c : ReserveStockCommand) (w w' : Inventory)
    → AreApart now later
    → AreFresh later w
    → Ends now c w w'
    → AreFresh later w'
Ends-AreFresh now later c w w' apart fresh (unchanged e) = subst (AreFresh later) (sym e) fresh
Ends-AreFresh now later c w w' apart fresh (recorded code reason good e) =
    let r = reservation_for now.failure c failed code reason in
    subst (AreFresh later) (sym e) (record {
      attempt = still_new r later.attempt.fresh_id w apart.failure_attempt fresh.attempt;
      failure = still_new r later.failure.fresh_id w apart.failures fresh.failure;
    })
Ends-AreFresh now later c w w' apart fresh (took x by_id key good fit s a r e) =
    let made = reservation_for now.attempt c reserved none none in
    let held = with_part (taken c.quantity now.at (as_part x)) w in
    subst (AreFresh later) (sym e) (record {
      attempt = still_new made later.attempt.fresh_id held apart.attempts fresh.attempt;
      failure = still_new made later.failure.fresh_id held apart.attempt_failure fresh.failure;
    })
