-- ===== src/Inventory/Rows.antt =====
-- What the repositories of parts and reservations read and write, where the rows can be read.
use workshop_service.Base.{
  ◌≡◌, refl, Bool, false, ◌&&◌, Option, none, some, List, [], ◌∷◌, arith, All, get_or, sym, ap, ◌∙◌,
  if◌then◌else◌,
}
use mathlib.Core.Path.{subst}
use workshop_service.Text.{Text, ◌===◌, trim, is_empty}
use workshop_service.Errors.{ok}
use workshop_service.Persistence.{Answers, find?, upsert}
use workshop_service.Persistence.Tables.{find?-All}
use workshop_service.Part.{Part, PartReadings, create_part, create_code, validate}
use workshop_service.Part.Methods.{is_no_movement}
use workshop_service.Reservation.{
  StockReservation, ReservationReadings, new_reservation, validate_identifier, validate_quantity,
}
use workshop_service.Inventory.{
  PartRow, ReservationRow, part_to_orm, part_to_domain, reservation_to_orm, reservation_to_domain,
  same_part, same_reservation, Inventory, Database, Moments, part_of, reservation_of, find_part,
  save_part, is_reservation_of, find_reservation, save_reservation,
}

-- The part of a row, field by field.
abbrev pub as_part : PartRow → Part
as_part row = record {
  id = row.id;
  code = row.code;
  name = row.name;
  description = get_or row.description [];
  unit_price = row.unit_price;
  available_quantity = row.available_quantity;
  reserved_quantity = row.reserved_quantity;
  minimum_quantity = row.minimum_quantity;
  unit = row.unit;
  active = row.active;
  created_at = row.created_at;
  updated_at = row.updated_at;
}

-- A part that its constructor accepts as it is.
pub record IsAcceptedPart (p : Part) : Type 0 where
  pub code : create_code p.code ≡ ok p.code
  pub valid : validate p ≡ ok tt

abbrev pub as_reservation : ReservationRow → StockReservation
as_reservation row = record {
  id = row.id;
  saga_id = row.saga_id;
  order_id = row.order_id;
  part_id = row.part_id;
  quantity = row.quantity;
  status = row.status;
  failure_code = row.failure_code;
  failure_reason = row.failure_reason;
  released_by_event_id = row.released_by_event_id;
  released_at = row.released_at;
  created_at = row.created_at;
  updated_at = row.updated_at;
}

abbrev pub IsKey : Text → Type 0
IsKey t = (trim t ≡ t) × (is_empty t ≡ false)

-- A reservation that its constructor accepts as it is.
pub record IsAcceptedReservation (r : StockReservation) : Type 0 where
  pub saga : IsKey r.saga_id
  pub order : IsKey r.order_id
  pub part : IsKey r.part_id
  pub quantity : is_no_movement r.quantity ≡ false

pub part_to_domain_lem :
    (now : PartReadings) (row : PartRow)
    → IsAcceptedPart (as_part row)
    → part_to_domain now row ≡ ok (as_part row)
unfolding part_to_domain create_part
part_to_domain_lem now row h = ground arith

stored_description : (d : Text) → get_or (if is_empty d then none else some d) [] ≡ d
stored_description [] = refl
stored_description (c ∷ d) = refl

pub as_part-part_to_orm : (p : Part) → as_part (part_to_orm p) ≡ p
unfolding part_to_orm
as_part-part_to_orm p = ground (arith, stored_description p.description)

-- An accepted part comes back from its row as it was, also one with an empty description.
pub part_to_domain-part_to_orm :
    (now : PartReadings) (p : Part) → IsAcceptedPart p → part_to_domain now (part_to_orm p) ≡ ok p
part_to_domain-part_to_orm now p h =
    part_to_domain_lem now (part_to_orm p) (subst IsAcceptedPart (sym (as_part-part_to_orm p)) h)
    ∙ ap ok (as_part-part_to_orm p)

pub reservation_to_domain_lem :
    (now : ReservationReadings) (row : ReservationRow)
    → IsAcceptedReservation (as_reservation row)
    → reservation_to_domain now row ≡ ok (as_reservation row)
unfolding reservation_to_domain new_reservation validate_identifier validate_quantity
reservation_to_domain_lem now row h = ground arith

-- A reservation with trimmed identifiers and a quantity that its constructor accepts comes back
-- from its row as it was.
pub reservation_to_domain-reservation_to_orm :
    (now : ReservationReadings) (r : StockReservation)
    → IsAcceptedReservation r
    → reservation_to_domain now (reservation_to_orm r) ≡ ok r
unfolding reservation_to_orm
reservation_to_domain-reservation_to_orm now r h =
    reservation_to_domain_lem now (reservation_to_orm r) h

abbrev pub as_part? : Option PartRow → Option Part
as_part? none = none
as_part? (some row) = some (as_part row)

abbrev pub as_reservation? : Option ReservationRow → Option StockReservation
as_reservation? none = none
as_reservation? (some row) = some (as_reservation row)

-- Every row can be read back.
abbrev pub ArePartsReadable : List PartRow → Type 0
ArePartsReadable = All (λ row. IsAcceptedPart (as_part row))

abbrev pub AreReservationsReadable : List ReservationRow → Type 0
AreReservationsReadable = All (λ row. IsAcceptedReservation (as_reservation row))

pub part_of_found :
    (now : PartReadings) (rows : List PartRow) (p : PartRow → Bool) (o : Option PartRow)
    → ArePartsReadable rows
    → find? p rows ≡ o
    → part_of now o ≡ ok (as_part? o)
part_of_found now rows p none h e = refl
part_of_found now rows p (some row) h e =
    rw (part_to_domain_lem now row (find?-All (λ x. IsAcceptedPart (as_part x)) p rows row h e))

reservation_of_found :
    (now : ReservationReadings) (rows : List ReservationRow) (p : ReservationRow → Bool)
    (o : Option ReservationRow)
    → AreReservationsReadable rows
    → find? p rows ≡ o
    → reservation_of now o ≡ ok (as_reservation? o)
reservation_of_found now rows p none h e = refl
reservation_of_found now rows p (some row) h e = rw (
    reservation_to_domain_lem now row
      (find?-All (λ x. IsAcceptedReservation (as_reservation x)) p rows row h e))

-- Both tables answer.
pub record DatabaseAnswers (db : Database) : Type 0 where
  pub parts : Answers db.parts
  pub reservations : Answers db.reservations

module _ (db : Database) (up : DatabaseAnswers db) (now : Moments) where
  pub find_part_lem :
      (id : Text) (w : Inventory)
      → ArePartsReadable w.parts
      → find_part db now id w
        ≡ (ok (as_part? (find? (λ row. row.id === id && row.active) w.parts)), w)
  unfolding find_part
  find_part_lem id w h =
      rw (up.parts.finds, find_part)
        (rw (
          part_of_found now.part w.parts (λ row. row.id === id && row.active)
            (find? (λ row. row.id === id && row.active) w.parts) h refl))

  pub find_reservation_lem :
      (saga order part : Text) (w : Inventory)
      → AreReservationsReadable w.reservations
      → find_reservation db now saga order part w
        ≡ (ok (as_reservation? (find? (is_reservation_of saga order part) w.reservations)), w)
  unfolding find_reservation
  find_reservation_lem saga order part w h =
      rw (up.reservations.finds, find_reservation)
        (rw (
          reservation_of_found now.attempt w.reservations (is_reservation_of saga order part)
            (find? (is_reservation_of saga order part) w.reservations) h refl))

  pub save_part_lem :
      (p : Part) (w : Inventory)
      → IsAcceptedPart p
      → save_part db now p w ≡ (ok p, record w { parts = upsert same_part (part_to_orm p) w.parts })
  unfolding save_part
  save_part_lem p w h =
      rw (up.parts.saves, save_part) (rw (part_to_domain-part_to_orm now.part p h))

  pub save_reservation_lem :
      (r : StockReservation) (w : Inventory)
      → IsAcceptedReservation r
      → save_reservation db now r w ≡ (
        ok r,
        record w { reservations = upsert same_reservation (reservation_to_orm r) w.reservations },
      )
  unfolding save_reservation
  save_reservation_lem r w h =
      rw (up.reservations.saves, save_reservation)
        (rw (reservation_to_domain-reservation_to_orm now.attempt r h))
