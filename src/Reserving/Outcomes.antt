-- ===== src/Reserving/Outcomes.antt =====
-- The ways in which `reserveStock` leaves the tables.
use workshop_service.Base.{
  ℕ, ◌+◌, ◌≡◌, refl, false, ◌&&◌, inl, inr, Option, none, some, arith, All, sym, ap,
}
use mathlib.Core.Path.{subst}
use workshop_service.Number.{Number, size}
use workshop_service.Text.{Text, ◌===◌}
use workshop_service.Text.Laws.{===_iff}
use workshop_service.Errors.{ok}
use workshop_service.Errors.Action.{◌>>=◌, try_catch}
use workshop_service.Part.{Part}
use workshop_service.Part.Methods.{reserve_stock, is_no_movement}
use workshop_service.Part.Stock.{IsStocked, move-IsStocked, move-Balances, move}
use workshop_service.Part.Stock
use workshop_service.Persistence.{find?}
use workshop_service.Persistence.Tables.{Distinct, find?-All, find?-holds}
use workshop_service.Reservation.{StockReservation, reserved, failed, ReserveStockCommand}
use workshop_service.Inventory.{PartRow, Inventory, Database, Moments, is_reservation_of}
use workshop_service.Inventory.Rows.{
  as_part, as_part?, as_reservation?, ArePartsReadable, AreReservationsReadable, IsAcceptedPart,
  DatabaseAnswers, find_part_lem, find_reservation_lem,
}
use workshop_service.Inventory.Sums.{find?-key}
use workshop_service.Reserving.{
  record_failure, reserve, reserve_from, reserve_unless, recover_reservation,
}
use workshop_service.Reserving.Steps.{
  taken, reserve_stock_cases, reservation_for, IsKeyed, taken-IsAccepted, with_reservation,
  with_part, record_failure_cases, attempt_refused, attempt_taken,
}

-- The tables as the service keeps them: rows that can be read, stocks that are counts, and
-- part ids that are distinct.
pub record IsSound (w : Inventory) : Type 0 where
  pub readable_parts : ArePartsReadable w.parts
  pub readable_reservations : AreReservationsReadable w.reservations
  pub stocked : All (λ row. IsStocked (as_part row)) w.parts
  pub ids : Distinct (λ row. row.id) w.parts

-- The identifiers that the operation draws are new.
pub record AreFresh (now : Moments) (w : Inventory) : Type 0 where
  pub attempt : find? (λ row. row.id === now.attempt.fresh_id) w.reservations ≡ none
  pub failure : find? (λ row. row.id === now.failure.fresh_id) w.reservations ≡ none

-- What taking does to a stocked part.
taken_counts :
    (q : Number) (at : ℕ) (p : Part)
    → IsStocked p
    → reserve_stock q at p ≡ (ok tt, taken q at p)
    → IsStocked (taken q at p)
      × (size (taken q at p).available_quantity + size q ≡ size p.available_quantity)
      × (size (taken q at p).reserved_quantity ≡ size p.reserved_quantity + size q)
unfolding move
taken_counts q at p s h =
    let b = move-Balances Stock.reserve q at p s (ap (λ m. m.0) h) in
    let counts =
      subst
        (λ p'.
          (size p'.available_quantity + size q ≡ size p.available_quantity)
          × (size p'.reserved_quantity ≡ size p.reserved_quantity + size q))
        (ap (λ m. m.1) h) b.2 in
    (subst IsStocked (ap (λ m. m.1) h) (move-IsStocked Stock.reserve q at p s), counts.0, counts.1)

-- What a call leaves: the tables as they were, a FAILED reservation more, or the quantity taken
-- from the part and a RESERVED reservation more.
pub data Ends (now : Moments) (c : ReserveStockCommand) (w w' : Inventory) : Type 0 where
  unchanged : w' ≡ w → Ends now c w w'
  recorded :
      (code reason : Option Text)
      → is_no_movement c.quantity ≡ false
      → w' ≡ with_reservation (reservation_for now.failure c failed code reason) w
      → Ends now c w w'
  took :
      (x : PartRow)
      → find? (λ row. row.id === c.part_id) w.parts ≡ some x
      → x.id ≡ c.part_id
      → is_no_movement c.quantity ≡ false
      → IsAcceptedPart (taken c.quantity now.at (as_part x))
      → IsStocked (taken c.quantity now.at (as_part x))
      → size (taken c.quantity now.at (as_part x)).available_quantity + size c.quantity
        ≡ size x.available_quantity
      → size (taken c.quantity now.at (as_part x)).reserved_quantity
        ≡ size x.reserved_quantity + size c.quantity
      → w'
        ≡ with_reservation
            (reservation_for now.attempt c reserved none none)
            (with_part (taken c.quantity now.at (as_part x)) w)
      → Ends now c w w'

module _ (db : Database) (up : DatabaseAnswers db) (now : Moments) (c : ReserveStockCommand)
    (k : IsKeyed c) (w : Inventory) (sound : IsSound w) where
  failure-Ends : (code reason : Text) → Ends now c w (record_failure db now c code reason w).1
  failure-Ends code reason = elim (record_failure_cases db up now c k code reason w) [
    | inl same ↦ unchanged same
    | inr (good, made) ↦ recorded (some code) (some reason) good made
  ]

  from_Ends :
      (x : PartRow)
      → find? (λ row. row.id === c.part_id && row.active) w.parts ≡ some x
      → Ends now c w (reserve_from db now c (some (as_part x)) w).1
  unfolding reserve_from recover_reservation
  from_Ends x found =
      let p = as_part x in
      let readable =
        find?-All (λ row. IsAcceptedPart (as_part row)) (λ row. row.id === c.part_id && row.active)
          w.parts x sound.readable_parts found in
      let stocked =
        find?-All (λ row. IsStocked (as_part row)) (λ row. row.id === c.part_id && row.active)
          w.parts x sound.stocked found in
      elim (reserve_stock_cases c.quantity now.at p) [
        | inl (e, h) ↦
            subst (λ y. Ends now c w (try_catch (λ _. y) (recover_reservation db now c) w).1)
              (sym (attempt_refused db up now c k p e w h)) (failure-Ends e.code e.message)
        | inr (h, good) ↦
            let (s, a, r) = taken_counts c.quantity now.at p stocked h in
            let fit = taken-IsAccepted c.quantity now.at p readable s in
            let by_id =
              find?-key (λ row. row.id) (λ row. row.active) c.part_id x w.parts sound.ids found in
            let key =
              (===_iff x.id c.part_id).0
                (find?-holds (λ row. row.id === c.part_id) w.parts x by_id) in
            subst (λ y. Ends now c w (try_catch (λ _. y) (recover_reservation db now c) w).1)
              (sym (attempt_taken db up now c k p w fit h good))
              (took x by_id key good fit s a r refl)
      ]

  part-Ends :
      (o : Option PartRow)
      → find? (λ row. row.id === c.part_id && row.active) w.parts ≡ o
      → Ends now c w (reserve_from db now c (as_part? o) w).1
  unfolding reserve_from
  part-Ends none found = failure-Ends _ _
  part-Ends (some x) found = from_Ends x found

  unless-Ends : (o : Option StockReservation) → Ends now c w (reserve_unless db now c o w).1
  unfolding reserve_unless
  unless-Ends none =
      subst (λ y. Ends now c w (((λ _. y) >>= reserve_from db now c) w).1)
        (sym (find_part_lem db up now c.part_id w sound.readable_parts))
        (part-Ends (find? (λ row. row.id === c.part_id && row.active) w.parts) refl)
  unless-Ends (some r) = unchanged (ground arith)

  pub reserve-Ends : Ends now c w (reserve db now c w).1
  unfolding reserve
  reserve-Ends =
      subst (λ y. Ends now c w (((λ _. y) >>= reserve_unless db now c) w).1)
        (sym (
          find_reservation_lem db up now c.saga_id c.order_id c.part_id w
            sound.readable_reservations))
        (unless-Ends (
          as_reservation?
            (find? (is_reservation_of c.saga_id c.order_id c.part_id) w.reservations)))
