-- ===== src/Inventory.antt =====
-- The tables `parts` and `stock_reservations`, their mappers and their TypeORM repositories
-- (part/infrastructure/mappers, part/infrastructure/repositories). The driver gives a decimal
-- column as a string; it stands here for the number that it denotes.
pub mod Sums
pub mod Rows
use workshop_service.Base.{
  ℕ, Bool, true, false, ◌&&◌, Option, none, some, List, [], ◌∷◌, is_some, get_or, if◌then◌else◌,
}
use workshop_service.Number.{Number}
use workshop_service.Text.{Text, ◌===◌, trim, is_empty}
use workshop_service.Errors
use workshop_service.Errors.{Result, ok, err}
use workshop_service.Errors.Action.{Action}
use workshop_service.Persistence.{Orm}
use workshop_service.Part.{Part, PartProps, PartReadings, create_part}
use workshop_service.Reservation.{
  StockReservationStatus, StockReservation, StockReservationProps, ReservationReadings,
  new_reservation,
}

-- part/infrastructure/typeorm/part.orm-entity.ts
pub record PartRow : Type 0 where
  pub id : Text
  pub code : Text
  pub name : Text
  pub description : Option Text
  pub unit_price : Number
  pub available_quantity : Number
  pub reserved_quantity : Number
  pub minimum_quantity : Number
  pub unit : Text
  pub active : Bool
  pub created_at : ℕ
  pub updated_at : ℕ

-- part/infrastructure/typeorm/stock-reservation.orm-entity.ts
pub record ReservationRow : Type 0 where
  pub id : Text
  pub saga_id : Text
  pub order_id : Text
  pub part_id : Text
  pub quantity : Number
  pub status : StockReservationStatus
  pub failure_code : Option Text
  pub failure_reason : Option Text
  pub released_by_event_id : Option Text
  pub released_at : Option ℕ
  pub created_at : ℕ
  pub updated_at : ℕ

-- `PartMapper.toOrmEntity`: an empty description is stored as NULL.
unfoldable pub part_to_orm : Part → PartRow
part_to_orm p = record {
  id = p.id;
  code = p.code;
  name = p.name;
  description = if is_empty p.description then none else some p.description;
  unit_price = p.unit_price;
  available_quantity = p.available_quantity;
  reserved_quantity = p.reserved_quantity;
  minimum_quantity = p.minimum_quantity;
  unit = p.unit;
  active = p.active;
  created_at = p.created_at;
  updated_at = p.updated_at;
}

-- `PartMapper.toDomain`, which validates the row.
unfoldable pub part_to_domain : PartReadings → PartRow → Result Part
part_to_domain now row = create_part now (record {
  id = some row.id;
  code = row.code;
  name = row.name;
  description = row.description;
  unit_price = row.unit_price;
  available_quantity = row.available_quantity;
  reserved_quantity = some row.reserved_quantity;
  minimum_quantity = row.minimum_quantity;
  unit = row.unit;
  active = some row.active;
  created_at = some row.created_at;
  updated_at = some row.updated_at;
})

-- `StockReservationMapper.toOrmEntity`
unfoldable pub reservation_to_orm : StockReservation → ReservationRow
reservation_to_orm r = record {
  id = r.id;
  saga_id = r.saga_id;
  order_id = r.order_id;
  part_id = r.part_id;
  quantity = r.quantity;
  status = r.status;
  failure_code = r.failure_code;
  failure_reason = r.failure_reason;
  released_by_event_id = r.released_by_event_id;
  released_at = r.released_at;
  created_at = r.created_at;
  updated_at = r.updated_at;
}

-- `StockReservationMapper.toDomain`
unfoldable pub reservation_to_domain :
    ReservationReadings → ReservationRow → Result StockReservation
reservation_to_domain now row = new_reservation now (record {
  id = some row.id;
  saga_id = row.saga_id;
  order_id = row.order_id;
  part_id = row.part_id;
  quantity = row.quantity;
  status = row.status;
  failure_code = row.failure_code;
  failure_reason = row.failure_reason;
  released_by_event_id = row.released_by_event_id;
  released_at = row.released_at;
  created_at = some row.created_at;
  updated_at = some row.updated_at;
})

-- The primary keys.
unfoldable pub same_part : PartRow → PartRow → Bool
same_part a b = b.id === a.id

unfoldable pub same_reservation : ReservationRow → ReservationRow → Bool
same_reservation a b = b.id === a.id

pub record Inventory : Type 0 where
  pub parts : List PartRow
  pub reservations : List ReservationRow

pub record Database : Type 0 where
  pub parts : Orm PartRow same_part
  pub reservations : Orm ReservationRow same_reservation

-- What one operation reads from the clock and the generator of identifiers: `at` for a change of
-- an entity, and the readings of the constructors.
pub record Moments : Type 0 where
  pub at : ℕ
  pub part : PartReadings
  pub attempt : ReservationReadings
  pub failure : ReservationReadings

abbrev pub part_of : PartReadings → Option PartRow → Result (Option Part)
part_of now none = ok none
part_of now (some row) = Errors.◌>>=◌ (part_to_domain now row) (λ p. ok (some p))

abbrev pub reservation_of :
    ReservationReadings → Option ReservationRow → Result (Option StockReservation)
reservation_of now none = ok none
reservation_of now (some row) = Errors.◌>>=◌ (reservation_to_domain now row) (λ r. ok (some r))

-- `TypeOrmPartRepository.findById`: an active part.
unfoldable pub find_part : Database → Moments → Text → Action Inventory (Option Part)
find_part db now id w = elim (db.parts.find_one (λ row. row.id === id && row.active) w.parts) [
  | ok row ↦ (part_of now.part row, w)
  | err f ↦ (err f, w)
]

-- `TypeOrmPartRepository.save`
unfoldable pub save_part : Database → Moments → Part → Action Inventory Part
save_part db now p w = elim (db.parts.save (part_to_orm p) w.parts) [
  | ok rows ↦ (part_to_domain now.part (part_to_orm p), record w { parts = rows })
  | err f ↦ (err f, w)
]

-- The condition of `findBySagaIdOrderIdPartId`.
abbrev pub is_reservation_of : Text → Text → Text → ReservationRow → Bool
is_reservation_of saga_id order_id part_id row =
    row.saga_id === trim saga_id && row.order_id === trim order_id && row.part_id === trim part_id

-- `TypeOrmStockReservationRepository.findBySagaIdOrderIdPartId`
unfoldable pub find_reservation :
    Database → Moments → Text → Text → Text → Action Inventory (Option StockReservation)
find_reservation db now saga_id order_id part_id w =
    elim (db.reservations.find_one (is_reservation_of saga_id order_id part_id) w.reservations) [
      | ok row ↦ (reservation_of now.attempt row, w)
      | err f ↦ (err f, w)
    ]

-- `TypeOrmStockReservationRepository.save`
unfoldable pub save_reservation :
    Database → Moments → StockReservation → Action Inventory StockReservation
save_reservation db now r w = elim (db.reservations.save (reservation_to_orm r) w.reservations) [
  | ok rows ↦
      (reservation_to_domain now.attempt (reservation_to_orm r), record w { reservations = rows })
  | err f ↦ (err f, w)
]
