-- ===== src/Tests/Inventories.antt =====
-- Parts, reservations and the service over them: the theorems at concrete inputs.
use workshop_service.Base.{false, ◌≤◌, ◌≡◌, refl, true, ◌↔◌, none, [], ◌∷◌, arith}
use workshop_service.Number.{number, IsCount, size}
use workshop_service.Text.{
  text, ◌===◌, trim, trim_start, trim_end, is_space, to_upper_case, upper_unit,
}
use workshop_service.Errors.{ok, err}
use workshop_service.Persistence.{find?, upsert}
use workshop_service.Part.{
  Part, create_part, create_code, is_valid_code, match_letters, match_digits, validate,
  validate_name, validate_description, validate_unit_price, validate_available_quantity,
  validate_reserved_quantity, validate_minimum_quantity, validate_unit,
}
use workshop_service.Part.Methods.{
  reserve_stock, validate_movement_quantity, ensure_available_stock,
}
use workshop_service.Part.Stock
use workshop_service.Part.Stock.{
  move, IsStocked, Balances, move-IsStocked, move_error_unchanged, move-Balances, move_when_enough,
}
use workshop_service.Reservation.{
  reserved, StockReservation, ReserveStockCommand, identifier_required, create_reserved,
  new_reservation, validate_identifier, validate_quantity,
}
use workshop_service.Inventory.{
  PartRow, Inventory, Database, Moments, part_to_orm, part_to_domain, reservation_to_orm, same_part,
  same_reservation, find_reservation, find_part, save_part, save_reservation, reservation_to_domain,
}
use workshop_service.Inventory.Rows.{
  IsAcceptedPart, IsAcceptedReservation, DatabaseAnswers, part_to_domain-part_to_orm,
}
use workshop_service.Reserving.{reserve, stock_reservation_conflict}
use workshop_service.Reserving.Steps.{reservation_for, IsKeyed, with_part}
use workshop_service.Reserving.Balance.{IsBalanced, reserve-IsBalanced}
use workshop_service.Reserving.Repeated.{reserve_twice}
use workshop_service.Reserving.Outcomes.{IsSound, AreFresh}
use workshop_service.Reserving.Leak.{reserve_blank_leaks}
use workshop_service.Tests.{answering, answering-Answers}

abbrev pub pads : Part
pads = record {
  id = text "p-1";
  code = text "PAD-001";
  name = text "Brake pads";
  description = [];
  unit_price = number 50;
  available_quantity = number 10;
  reserved_quantity = number 2;
  minimum_quantity = number 1;
  unit = text "pc";
  active = true;
  created_at = 1;
  updated_at = 1;
}

pub pads-IsAccepted : IsAcceptedPart pads
unfolding create_code is_valid_code match_letters match_digits validate validate_name
    validate_description validate_unit_price validate_available_quantity validate_reserved_quantity
    validate_minimum_quantity validate_unit trim trim_start trim_end is_space to_upper_case
    upper_unit text
pads-IsAccepted = record { code = refl; valid = refl }

pads-IsStocked : IsStocked pads
pads-IsStocked = record { available = refl; reserved = refl }

part_to_domain-part_to_orm_example :
    part_to_domain (record { fresh_id = []; created_now = 9; updated_now = 9 }) (part_to_orm pads)
    ≡ ok pads
part_to_domain-part_to_orm_example =
    part_to_domain-part_to_orm (record { fresh_id = []; created_now = 9; updated_now = 9 }) pads
      pads-IsAccepted

move-IsStocked_example : IsStocked (move Stock.reserve (number 3) 5 pads).1
move-IsStocked_example = move-IsStocked Stock.reserve (number 3) 5 pads pads-IsStocked

move-Balances_example :
    IsCount (number 3)
    × (1 ≤ size (number 3))
    × Balances Stock.reserve (size (number 3)) pads (move Stock.reserve (number 3) 5 pads).1
unfolding move reserve_stock
move-Balances_example = move-Balances Stock.reserve (number 3) 5 pads pads-IsStocked refl

move_when_enough_example :
    ((move Stock.reserve (number 3) 5 pads).0 ≡ ok tt)
    ↔ (size (number 3) ≤ size pads.available_quantity)
move_when_enough_example =
    move_when_enough Stock.reserve (number 3) 5 pads pads-IsStocked refl (omega arith)

abbrev pub database : Database
database = record { parts = answering same_part; reservations = answering same_reservation }

pub database-Answers : DatabaseAnswers database
database-Answers = record {
  parts = answering-Answers same_part;
  reservations = answering-Answers same_reservation;
}

abbrev pub moments : Moments
moments = record {
  at = 5;
  part = record { fresh_id = text "p-9"; created_now = 5; updated_now = 5 };
  attempt = record { fresh_id = text "r-9"; created_now = 5; updated_now = 5 };
  failure = record { fresh_id = text "r-10"; created_now = 5; updated_now = 5 };
}

abbrev pub held : StockReservation
held = record {
  id = text "r-1";
  saga_id = text "saga-1";
  order_id = text "order-1";
  part_id = text "p-1";
  quantity = number 2;
  status = reserved;
  failure_code = none;
  failure_reason = none;
  released_by_event_id = none;
  released_at = none;
  created_at = 2;
  updated_at = 2;
}

held-IsAccepted : IsAcceptedReservation held
unfolding trim trim_start trim_end is_space text
held-IsAccepted = record {
  saga = (refl, refl);
  order = (refl, refl);
  part = (refl, refl);
  quantity = refl;
}

-- Brake pads with one reservation of them.
abbrev stored : PartRow
unfolding part_to_orm
stored = part_to_orm pads

abbrev pub inventory : Inventory
inventory = record { parts = part_to_orm pads ∷ []; reservations = reservation_to_orm held ∷ [] }

pub inventory-IsSound : IsSound inventory
unfolding part_to_orm reservation_to_orm find?
inventory-IsSound = record {
  readable_parts = (pads-IsAccepted, tt);
  readable_reservations = (held-IsAccepted, tt);
  stocked = (pads-IsStocked, tt);
  ids = (refl, tt);
}

abbrev request : ReserveStockCommand
request = record {
  saga_id = text "saga-2";
  order_id = text "order-2";
  part_id = text "p-1";
  quantity = number 3;
}

request-IsKeyed : IsKeyed request
unfolding trim trim_start trim_end is_space text
request-IsKeyed = record { saga = (refl, refl); order = (refl, refl); part = (refl, refl) }

moments-AreFresh : AreFresh moments inventory
unfolding find? ◌===◌ reservation_to_orm text
moments-AreFresh = record { attempt = refl; failure = refl }

reserve-IsBalanced_example :
    IsBalanced (text "p-1") inventory (reserve database moments request inventory).1
reserve-IsBalanced_example =
    reserve-IsBalanced database database-Answers moments request request-IsKeyed (text "p-1")
      inventory inventory-IsSound moments-AreFresh

abbrev made : StockReservation
made = reservation_for moments.attempt request reserved none none

abbrev after_request : Inventory
after_request = (reserve database moments request inventory).1

made_returned : reserve database moments request inventory ≡ (ok made, after_request)
unfolding reserve find? upsert ◌===◌ text trim trim_start trim_end is_space part_to_orm
    reservation_to_orm create_code is_valid_code match_letters match_digits validate validate_name
    validate_description validate_unit_price validate_available_quantity validate_reserved_quantity
    validate_minimum_quantity validate_unit to_upper_case upper_unit find_reservation find_part
    part_to_domain create_part reserve_stock save_part create_reserved new_reservation
    validate_identifier validate_quantity save_reservation reservation_to_domain
made_returned = refl

-- Another quantity than that of the reservation.
reserve_twice_example :
    reserve database moments (record request { quantity = number 4 }) after_request ≡ (
      err (stock_reservation_conflict (record request { quantity = number 4 }) (number 3)),
      after_request,
    )
reserve_twice_example =
    reserve_twice database database-Answers moments request request-IsKeyed inventory
      inventory-IsSound moments (number 4) made after_request made_returned

abbrev blank : ReserveStockCommand
blank = record {
  saga_id = text " ";
  order_id = text "order-3";
  part_id = text "p-1";
  quantity = number 3;
}

abbrev taken_pads : Part
taken_pads = record pads {
  available_quantity = number 7;
  reserved_quantity = number 5;
  updated_at = 5;
}

taken_pads-IsAccepted : IsAcceptedPart taken_pads
unfolding create_code is_valid_code match_letters match_digits validate validate_name
    validate_description validate_unit_price validate_available_quantity validate_reserved_quantity
    validate_minimum_quantity validate_unit trim trim_start trim_end is_space to_upper_case
    upper_unit text
taken_pads-IsAccepted = record { code = refl; valid = refl }

reserve_blank_leaks_example :
    reserve database moments blank inventory
    ≡ (err (identifier_required (text "sagaId")), with_part taken_pads inventory)
unfolding find? ◌===◌ reservation_to_orm part_to_orm text trim trim_start trim_end is_space
    reserve_stock validate_movement_quantity ensure_available_stock
reserve_blank_leaks_example =
    reserve_blank_leaks database database-Answers moments blank refl inventory (part_to_orm pads)
      (pads-IsAccepted, tt) (held-IsAccepted, tt) refl taken_pads-IsAccepted refl

-- The part of the reservation, deactivated since.
abbrev retired : Inventory
retired = record {
  parts = part_to_orm (record pads { active = false }) ∷ [];
  reservations = reservation_to_orm held ∷ [];
}

retired_part-IsAccepted : IsAcceptedPart (record pads { active = false })
unfolding validate
retired_part-IsAccepted = record { code = pads-IsAccepted.code; valid = pads-IsAccepted.valid }
