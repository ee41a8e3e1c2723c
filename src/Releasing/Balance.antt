-- ===== src/Releasing/Balance.antt =====
-- What releasing one reservation does to the books of the parts.
use workshop_service.Base.{
  ℕ, ◌≡◌, refl, Bool, true, false, ◌&&◌, Option, none, some, arith, All, sym, inl, inr, Bool-cases,
}
use mathlib.Core.Path.{subst}
use workshop_service.Number.{Number, less, same, IsCount}
use workshop_service.Text.{Text, ◌===◌}
use workshop_service.Text.Laws.{===_iff}
use workshop_service.Errors.Action.{Action, ◌>>=◌, ◌>>◌, pure}
use workshop_service.Part.Stock.{IsStocked}
use workshop_service.Persistence.{find?, upsert}
use workshop_service.Persistence.Tables.{find?-own, Distinct, find?-All, find?-holds}
use workshop_service.Reservation
use workshop_service.Reservation.{StockReservationStatus, same_status}
use workshop_service.Inventory.{PartRow, ReservationRow, Inventory, same_part, same_reservation}
use workshop_service.Inventory.Rows.{as_part, DatabaseAnswers}
use workshop_service.Inventory.Sums.{sum_of-upsert}
use workshop_service.Reserving.Balance.{IsBalanced, reserved_in, stock_in, held_in}
use workshop_service.Releasing.{StockReleaseCommandItem, StockReleaseCommand}
use workshop_service.Releasing.Work.{
  Stock, Transactions, released_part, released_reservation, release_part, release_status,
  release_found, release_one, write_parts, write_reservations, save_reservation_row, released_item,
  StockReleaseResultItem,
}

-- The part and the reservation as `releaseOne` writes them.
abbrev pub after_release : Text → ℕ → Number → PartRow → ReservationRow → Inventory → Inventory
after_release event at q x r w = record {
  parts = upsert same_part (released_part q at x) w.parts;
  reservations = upsert same_reservation (released_reservation event at r) w.reservations;
}

release_books :
    (id event : Text) (at : ℕ) (item : StockReleaseCommandItem) (x : PartRow) (r : ReservationRow)
    (w : Inventory)
    → find? (λ row. row.id === x.id) w.parts ≡ some x
    → find? (λ row. row.id === r.id) w.reservations ≡ some r
    → x.id ≡ item.part_id
    → r.part_id ≡ item.part_id
    → r.status ≡ Reservation.reserved
    → same r.quantity item.quantity ≡ true
    → IsCount r.quantity
    → IsStocked (as_part x)
    → less x.reserved_quantity item.quantity ≡ false
    → IsBalanced id w (after_release event at item.quantity x r w)
unfolding same_part same_reservation released_part released_reservation reserved_in held_in stock_in
release_books id event at item x r w fx fr kx kr st eq cq sx le =
    let p' = released_part item.quantity at x in
    let r' = released_reservation event at r in
    record {
      held = ground (
        arith,
        kx,
        kr,
        st,
        eq,
        le,
        sum_of-upsert (reserved_in id) same_part p' x w.parts fx,
        sum_of-upsert (held_in id) same_reservation r' r w.reservations fr,
      );
      stock = ground (arith, kx, eq, le, sum_of-upsert (stock_in id) same_part p' x w.parts fx);
    }

-- The tables as the releases find them.
pub record IsReleasable (w : Inventory) : Type 0 where
  pub stocked : All (λ row. IsStocked (as_part row)) w.parts
  pub counted : All (λ row. IsCount row.quantity) w.reservations
  pub parts : Distinct (λ row. row.id) w.parts
  pub reservations : Distinct (λ row. row.id) w.reservations

same_status_reserved :
    (s : StockReservationStatus)
    → s ≡ Reservation.reserved
    → same_status s Reservation.reserved ≡ true
same_status_reserved s e = rw e refl

module _ (t : Transactions) (up : DatabaseAnswers t.database) (c : StockReleaseCommand) (at : ℕ)
    (item : StockReleaseCommandItem) (id : Text) (w : Stock) (fit : IsReleasable w.inventory) where
  abbrev Kept : Action Stock StockReleaseResultItem → Type 0
  Kept m = IsBalanced id w.inventory (m w).1.inventory

  abbrev of_item : ReservationRow → Bool
  of_item row =
      row.saga_id === c.saga_id && row.order_id === c.order_id && row.part_id === item.part_id

  released-Kept :
      (x : PartRow) (r : ReservationRow)
      → IsBalanced id w.inventory
          (after_release c.command_event_id at item.quantity x r w.inventory)
      → less x.reserved_quantity item.quantity ≡ false
      → Kept (release_part t c item at r (some x))
  unfolding release_part
  released-Kept x r h le =
      let p' = released_part item.quantity at x in
      let r' = released_reservation c.command_event_id at r in
      rw (le, release_part)
        (subst
          (λ y. Kept (write_parts y >> (save_reservation_row t r' >> pure (released_item item))))
          (sym (up.parts.saves p' w.inventory.parts))
          (subst
            (λ y.
              IsBalanced id w.inventory
                ((write_reservations y >> pure (released_item item)) (record w {
                  inventory = record {
                    parts = upsert same_part p' w.inventory.parts;
                    reservations = w.inventory.reservations;
                  };
                })).1.inventory)
            (sym (up.reservations.saves r' w.inventory.reservations)) h))

  part-Kept :
      (r : ReservationRow) (o : Option PartRow)
      → find? of_item w.inventory.reservations ≡ some r
      → r.status ≡ Reservation.reserved
      → same r.quantity item.quantity ≡ true
      → find? (λ row. row.id === item.part_id) w.inventory.parts ≡ o
      → Kept (release_part t c item at r o)
  unfolding release_part
  part-Kept r none fr st eq fx = record { held = refl; stock = refl }
  part-Kept r (some x) fr st eq fx = elim (Bool-cases (less x.reserved_quantity item.quantity)) [
    | inl short ↦ rw (short, release_part) (record { held = refl; stock = refl })
    | inr enough ↦
        let of : of_item r ≡ true = find?-holds of_item w.inventory.reservations r fr in
        released-Kept x r
          (release_books id c.command_event_id at item x r w.inventory
            (find?-own (λ row. row.id) (λ row. row.id === item.part_id) x w.inventory.parts
              fit.parts fx)
            (find?-own (λ row. row.id) of_item r w.inventory.reservations fit.reservations fr)
            ((===_iff x.id item.part_id).0
              (find?-holds (λ row. row.id === item.part_id) w.inventory.parts x fx))
            ((===_iff r.part_id item.part_id).0 (ground arith)) st eq
            (find?-All (λ row. IsCount row.quantity) of_item w.inventory.reservations r fit.counted
              fr)
            (find?-All (λ row. IsStocked (as_part row)) (λ row. row.id === item.part_id)
              w.inventory.parts x fit.stocked fx)
            enough)
          enough
  ]

  status-Kept :
      (r : ReservationRow) (s : StockReservationStatus)
      → find? of_item w.inventory.reservations ≡ some r
      → same r.quantity item.quantity ≡ true
      → r.status ≡ s
      → Kept (release_status t c item at r s)
  unfolding release_status
  status-Kept r Reservation.reserved fr eq st =
      subst (λ y. Kept ((λ v. (y, v)) >>= release_part t c item at r))
        (sym (up.parts.finds (λ row. row.id === item.part_id) w.inventory.parts))
        (part-Kept r (find? (λ row. row.id === item.part_id) w.inventory.parts) fr st eq refl)
  status-Kept r Reservation.released fr eq st = ground arith
  status-Kept r Reservation.committed fr eq st = record { held = refl; stock = refl }
  status-Kept r Reservation.failed fr eq st = record { held = refl; stock = refl }

  found-Kept :
      (o : Option ReservationRow)
      → find? of_item w.inventory.reservations ≡ o
      → Kept (release_found t c item at o)
  unfolding release_found
  found-Kept none fr = record { held = refl; stock = refl }
  found-Kept (some r) fr = elim (Bool-cases (same r.quantity item.quantity)) [
    | inl eq ↦ rw (eq, release_found) (status-Kept r r.status fr eq refl)
    | inr other ↦ rw (other, release_found) (record { held = refl; stock = refl })
  ]

  -- Releasing one requested item, with whatever result, takes from the reserved stock of every
  -- part exactly what the outstanding reservations lose, and neither makes nor loses stock: on
  -- tables that answer, where the stocks and the reserved quantities are counts and ids distinct.
  pub release_one-IsBalanced : IsBalanced id w.inventory (release_one t c at item w).1.inventory
  unfolding release_one
  release_one-IsBalanced =
      subst (λ y. Kept ((λ v. (y, v)) >>= release_found t c item at))
        (sym (up.reservations.finds of_item w.inventory.reservations))
        (found-Kept (find? of_item w.inventory.reservations) refl)
