-- ===== src/Parts.antt =====
-- PartService (part/application/services/part.service.ts). The answer of an operation is the part
-- itself: `toResponseDto` copies its fields and formats the price.
pub mod Rows
pub mod Changes
pub mod Codes
pub mod Requests
pub mod Listing
pub mod Paging
use workshop_service.Base.{ℕ, Bool, true, false, ◌&&◌, Option, none, some, List, [], ◌∷◌}
use workshop_service.Number.{Number}
use workshop_service.Text.{Text, text, trim, to_upper_case, ◌===◌}
use workshop_service.Errors.{Failure, text_detail, Result, ok, err, or_raise}
use workshop_service.Errors.Action.{Action, pure, raise, lift, ◌>>=◌}
use workshop_service.Part.{Part, PartProps, refuse, create_part}
use workshop_service.Part.Methods.{UpdatePartProps}
use workshop_service.Part.Methods
use workshop_service.Part.Stock.{Movement, move}
use workshop_service.Inventory.{Inventory, Database, Moments, part_of, find_part, save_part}
use workshop_service.Reserving.{on_part}

-- `TypeOrmPartRepository.findByCode`: an active part.
unfoldable pub find_part_coded : Database → Moments → Text → Action Inventory (Option Part)
find_part_coded db now code w =
    elim (db.parts.find_one (λ row. row.code === to_upper_case (trim code) && row.active) w.parts) [
      | ok row ↦ (part_of now.part row, w)
      | err f ↦ (err f, w)
    ]

-- part/domain/exceptions/part-already-exists.exception.ts
unfoldable pub part_already_exists : Text → Failure
part_already_exists code =
    refuse (text "PART_ALREADY_EXISTS") (text "Part already exists.")
      (("code", text_detail code) ∷ [])

-- part/domain/exceptions/part-not-found.exception.ts
unfoldable pub part_not_found : Text → Failure
part_not_found identifier =
    refuse (text "PART_NOT_FOUND") (text "Part was not found.")
      (("identifier", text_detail identifier) ∷ [])

-- part/application/dto/create-part.dto.ts
pub record CreatePart : Type 0 where
  pub code : Text
  pub name : Text
  pub description : Option Text
  pub unit_price : Number
  pub available_quantity : Number
  pub minimum_quantity : Number
  pub unit : Text

abbrev pub trimmed : Option Text → Option Text
trimmed none = none
trimmed (some s) = some (trim s)

abbrev pub upper : Option Text → Option Text
upper none = none
upper (some s) = some (to_upper_case s)

-- `normalizedCode`
abbrev pub normalized_code : CreatePart → Text
normalized_code dto = to_upper_case (trim dto.code)

abbrev pub new_props : CreatePart → PartProps
new_props dto = record {
  id = none;
  code = normalized_code dto;
  name = trim dto.name;
  description = trimmed dto.description;
  unit_price = dto.unit_price;
  available_quantity = dto.available_quantity;
  reserved_quantity = none;
  minimum_quantity = dto.minimum_quantity;
  unit = to_upper_case dto.unit;
  active = none;
  created_at = none;
  updated_at = none;
}

-- `create`, from the look-up on.
unfoldable pub create_unless : Database → Moments → CreatePart → Option Part → Action Inventory Part
unfolding part_already_exists
create_unless db now dto (some existing) = raise (part_already_exists (normalized_code dto))
create_unless db now dto none = lift (create_part now.part (new_props dto)) >>= save_part db now

-- `create`
unfoldable pub create : Database → Moments → CreatePart → Action Inventory Part
unfolding create_unless
create db now dto = find_part_coded db now (normalized_code dto) >>= create_unless db now dto

-- `findById` and `findByCode`
unfoldable pub find_by_id : Database → Moments → Text → Action Inventory Part
unfolding part_not_found
find_by_id db now id = find_part db now id >>= λ found. lift (or_raise found (part_not_found id))

unfoldable pub find_by_code : Database → Moments → Text → Action Inventory Part
unfolding part_not_found
find_by_code db now code =
    find_part_coded db now code >>= λ found. lift (or_raise found (part_not_found code))

-- A method of the part that is found, and its save.
unfoldable pub change_found :
    Database → Moments → Text → Action Part (Unit {0}) → Option Part → Action Inventory Part
unfolding part_not_found
change_found db now id change none = raise (part_not_found id)
change_found db now id change (some part) = on_part change part >>= save_part db now

-- `applyStockMovement`
unfoldable pub change_part :
    Database → Moments → Text → Action Part (Unit {0}) → Action Inventory Part
unfolding change_found
change_part db now id change = find_part db now id >>= change_found db now id change

abbrev pub normalized_props : UpdatePartProps → UpdatePartProps
normalized_props dto = record dto {
  name = trimmed dto.name;
  description = trimmed dto.description;
  unit = upper dto.unit;
}

-- `update`
unfoldable pub update : Database → Moments → Text → UpdatePartProps → Action Inventory Part
unfolding change_part
update db now id dto = change_part db now id (Methods.update (normalized_props dto) now.at)

-- `delete`
unfoldable pub delete : Database → Moments → Text → Action Inventory Part
unfolding change_part
delete db now id = change_part db now id (Methods.deactivate now.at)

-- `addStock`, `removeStock`, `reserveStock`, `releaseStock` and `commitReservedStock`
unfoldable pub move_stock : Database → Moments → Text → Movement → Number → Action Inventory Part
unfolding change_part
move_stock db now id m quantity = change_part db now id (move m quantity now.at)
