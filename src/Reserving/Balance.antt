-- ===== src/Reserving/Balance.antt =====
-- What a reservation does to the books: the reserved stock of each part against the
-- reservations that are outstanding.
use workshop_service.Base.{
  ℕ, ◌+◌, ◌≡◌, refl, ◌&&◌, Option, none, some, arith, sym, ap, ◌∙◌, if◌then◌else◌,
}
use mathlib.Core.Path.{subst}
use workshop_service.Number.{size}
use workshop_service.Text.{Text, ◌===◌}
use workshop_service.Errors.{ok, err}
use workshop_service.Errors.Action.{◌>>=◌}
use workshop_service.Persistence.{find?}
use workshop_service.Reservation.{
  reserved, failed, same_status, ReserveStockCommand, matches_reservation_request,
}
use workshop_service.Inventory.{
  PartRow, ReservationRow, Inventory, Database, Moments, part_to_orm, reservation_to_orm, same_part,
  same_reservation, is_reservation_of,
}
use workshop_service.Inventory.Rows.{
  as_part, as_reservation, as_reservation?, AreReservationsReadable, DatabaseAnswers,
  find_reservation_lem,
}
use workshop_service.Inventory.Sums.{sum_of, sum_of-upsert, sum_of-upsert_new}
use workshop_service.Reserving.{stock_reservation_conflict, reserve, reserve_unless}
use workshop_service.Reserving.Outcomes.{
  IsSound, AreFresh, Ends, unchanged, recorded, took, reserve-Ends,
}
use workshop_service.Reserving.Steps.{taken, reservation_for, IsKeyed, with_reservation, with_part}

-- The steps that a part row keeps reserved, and available, for a part id.
unfoldable pub reserved_in : Text → PartRow → ℕ
reserved_in id row = if row.id === id then size row.reserved_quantity else 0

unfoldable pub stock_in : Text → PartRow → ℕ
stock_in id row =
    if row.id === id then size row.available_quantity + size row.reserved_quantity else 0

-- The steps that a reservation holds of a part id: its quantity while it is RESERVED.
unfoldable pub held_in : Text → ReservationRow → ℕ
held_in id row =
    if row.part_id === id && same_status row.status reserved then size row.quantity else 0

-- The books of a part before and after: the reserved stock has changed by what the outstanding
-- reservations have, and the stock as a whole not at all.
pub record IsBalanced (id : Text) (w w' : Inventory) : Type 0 where
  pub held :
      sum_of (reserved_in id) w'.parts + sum_of (held_in id) w.reservations
      ≡ sum_of (reserved_in id) w.parts + sum_of (held_in id) w'.reservations
  pub stock : sum_of (stock_in id) w'.parts ≡ sum_of (stock_in id) w.parts

same_books : (id : Text) (w w' : Inventory) → w' ≡ w → IsBalanced id w w'
same_books id w w' e = subst (λ x. IsBalanced id w x) (sym e) (record { held = refl; stock = refl })

no_hold :
    (id : Text) (now : Moments) (c : ReserveStockCommand) (code reason : Option Text)
    → held_in id (reservation_to_orm (reservation_for now.failure c failed code reason)) ≡ 0
unfolding held_in reservation_to_orm
no_hold id now c code reason = ground arith

-- A FAILED reservation more holds nothing.
failed_books :
    (id : Text) (now : Moments) (c : ReserveStockCommand) (code reason : Option Text)
    (w : Inventory)
    → AreFresh now w
    → IsBalanced id w (with_reservation (reservation_for now.failure c failed code reason) w)
unfolding same_reservation reservation_to_orm
failed_books id now c code reason w fresh = record {
  held = omega (
    arith,
    sum_of-upsert_new (held_in id) same_reservation
        (reservation_to_orm (reservation_for now.failure c failed code reason)) w.reservations
        fresh.failure,
    no_hold id now c code reason,
  );
  stock = refl;
}

-- The part and the reservation, saved.
taken_books :
    (id : Text) (now : Moments) (c : ReserveStockCommand) (w : Inventory) (x : PartRow)
    → AreFresh now w
    → find? (λ row. row.id === c.part_id) w.parts ≡ some x
    → x.id ≡ c.part_id
    → size (taken c.quantity now.at (as_part x)).available_quantity + size c.quantity
      ≡ size x.available_quantity
    → size (taken c.quantity now.at (as_part x)).reserved_quantity
      ≡ size x.reserved_quantity + size c.quantity
    → IsBalanced id w (
        with_reservation
          (reservation_for now.attempt c reserved none none)
          (with_part (taken c.quantity now.at (as_part x)) w))
unfolding same_part same_reservation part_to_orm reservation_to_orm reserved_in held_in stock_in
taken_books id now c w x fresh found key a r =
    let p' = part_to_orm (taken c.quantity now.at (as_part x)) in
    let r' = reservation_to_orm (reservation_for now.attempt c reserved none none) in
    let found' : find? (same_part p') w.parts ≡ some x =
      subst (λ k. find? (λ row. row.id === k) w.parts ≡ some x) (sym key) found in
    record {
      held = ground (
        arith,
        key,
        a,
        r,
        sum_of-upsert (reserved_in id) same_part p' x w.parts found',
        sum_of-upsert_new (held_in id) same_reservation r' w.reservations fresh.attempt,
      );
      stock = ground (arith, key, a, r, sum_of-upsert (stock_in id) same_part p' x w.parts found');
    }

-- The same for each way in which a call ends.
pub Ends-IsBalanced :
    (id : Text) (now : Moments) (c : ReserveStockCommand) (w w' : Inventory)
    → AreFresh now w
    → Ends now c w w'
    → IsBalanced id w w'
Ends-IsBalanced id now c w w' fresh (unchanged e) = same_books id w w' e
Ends-IsBalanced id now c w w' fresh (recorded code reason good e) =
    subst (λ x. IsBalanced id w x) (sym e) (failed_books id now c code reason w fresh)
Ends-IsBalanced id now c w w' fresh (took x by_id key good fit s a r e) =
    subst (λ y. IsBalanced id w y) (sym e) (taken_books id now c w x fresh by_id key a r)

-- On a database that answers, with sound tables, for a command with trimmed identifiers that are not
-- blank and fresh reservation ids: whether `reserveStock` returns a reservation, records a failure or
-- throws, the reserved stock of every part moves with the outstanding reservations, and no stock is
-- made or lost.
pub reserve-IsBalanced :
    (db : Database) (up : DatabaseAnswers db) (now : Moments) (c : ReserveStockCommand)
    (k : IsKeyed c) (id : Text) (w : Inventory) (sound : IsSound w) (fresh : AreFresh now w)
    → IsBalanced id w (reserve db now c w).1
reserve-IsBalanced db up now c k id w sound fresh =
    Ends-IsBalanced id now c w (reserve db now c w).1 fresh (reserve-Ends db up now c k w sound)

-- Where the database answers and its reservations can be read, a request that has a reservation
-- answers it, where the quantity is the same, and is refused as
-- a conflict with the quantity of that reservation, where it is not; the tables stay as they are.
pub reserve_again :
    (db : Database) (up : DatabaseAnswers db) (now : Moments) (c : ReserveStockCommand)
    (w : Inventory) (row : ReservationRow)
    → AreReservationsReadable w.reservations
    → find? (is_reservation_of c.saga_id c.order_id c.part_id) w.reservations ≡ some row
    → reserve db now c w ≡ (
      if matches_reservation_request (as_reservation row) c.quantity
          then ok (as_reservation row)
          else err (stock_reservation_conflict c row.quantity),
      w,
    )
unfolding reserve reserve_unless
reserve_again db up now c w row h found =
    ap (λ y. ((λ _. y) >>= reserve_unless db now c) w)
      (find_reservation_lem db up now c.saga_id c.order_id c.part_id w h)
    ∙ ap (λ o. reserve_unless db now c (as_reservation? o) w) found
    ∙ ground arith
