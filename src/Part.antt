-- ===== src/Part.antt =====
-- A part of the inventory: the value object of its code (part/domain/value-objects/
-- part-code.vo.ts) and the entity with its validation (part/domain/entities/part.entity.ts).
pub mod Methods
pub mod Stock
pub mod Code
use workshop_service.Base.{
  ℕ, suc, Bool, true, false, ◌&&◌, ◌||◌, not, Option, none, some, List, [], ◌∷◌, get_or, length,
  ltb, leb, ◌==◌, if◌then◌else◌, String,
}
use workshop_service.Int.{pos}
use workshop_service.Number.{Number, finite, number, less, at_most, is_integer}
use workshop_service.Text.{Text, text, trim, is_empty, to_upper_case}
use workshop_service.Errors.{
  Failure, domain, Detail, text_detail, number_detail, Result, ok, err, ◌>>=◌, ◌>>◌, raise_if,
}

-- part/domain/exceptions/part-code-invalid.exception.ts
unfoldable pub part_code_invalid : Text → Text → Failure
part_code_invalid code reason = domain (record {
  code = text "PART_CODE_INVALID";
  message = text "Part code is invalid.";
  details = ("code", text_detail code) ∷ ("reason", text_detail reason) ∷ [];
})

-- part/domain/exceptions/quantity-invalid.exception.ts
unfoldable pub quantity_invalid : Number → Text → Failure
quantity_invalid quantity reason = domain (record {
  code = text "PART_QUANTITY_INVALID";
  message = text "Part quantity is invalid.";
  details = ("quantity", number_detail quantity) ∷ ("reason", text_detail reason) ∷ [];
})

abbrev pub is_letter : ℕ → Bool
is_letter c = leb b'A' c && leb c b'Z'

abbrev pub is_digit : ℕ → Bool
is_digit c = leb b'0' c && leb c b'9'

-- `\d{3,6}$`, after so many digits.
unfoldable pub match_digits : ℕ → Text → Bool
match_digits n [] = leb 3 n && leb n 6
match_digits n (c ∷ s) = is_digit c && match_digits (suc n) s

-- `[A-Z]{2,5}-\d{3,6}$`, after so many letters.
unfoldable pub match_letters : ℕ → Text → Bool
unfolding match_digits
match_letters n [] = false
match_letters n (c ∷ s) =
    if is_letter c
    then match_letters (suc n) s
    else c == b'-' && leb 2 n && leb n 5 && match_digits 0 s

-- `PartCode.isValid`
unfoldable pub is_valid_code : Text → Bool
unfolding match_letters
is_valid_code value = not (is_empty value) && match_letters 0 (to_upper_case (trim value))

-- `PartCode.create`. The value object holds its text alone.
unfoldable pub create_code : Text → Result Text
unfolding is_valid_code
create_code value =
    let normalized = to_upper_case (trim value) in
    if is_empty value
    then err (part_code_invalid value (text "Code must be a non-empty string."))
    else if not (is_valid_code normalized)
    then err (
        part_code_invalid value (
          text
            "Code must follow the ABC-001 format: 2 to 5 uppercase letters, a hyphen and 3 to 6 digits."))
    else ok normalized

pub record PartProps : Type 0 where
  pub id : Option Text
  pub code : Text
  pub name : Text
  pub description : Option Text
  pub unit_price : Number
  pub available_quantity : Number
  pub reserved_quantity : Option Number
  pub minimum_quantity : Number
  pub unit : Text
  pub active : Option Bool
  pub created_at : Option ℕ
  pub updated_at : Option ℕ

pub record Part : Type 0 where
  pub id : Text
  pub code : Text
  pub name : Text
  pub description : Text
  pub unit_price : Number
  pub available_quantity : Number
  pub reserved_quantity : Number
  pub minimum_quantity : Number
  pub unit : Text
  pub active : Bool
  pub created_at : ℕ
  pub updated_at : ℕ

-- What the constructor reads from outside.
pub record PartReadings : Type 0 where
  pub fresh_id : Text
  pub created_now : ℕ
  pub updated_now : ℕ

-- A `DomainException` with no details, or with those given.
unfoldable pub refuse : Text → Text → List (String × Detail) → Failure
refuse code message details = domain (record { code = code; message = message; details = details })

-- `validateName`
unfoldable pub validate_name : Text → Result (Unit {0})
validate_name name =
    if is_empty (trim name)
    then err (refuse (text "PART_NAME_REQUIRED") (text "Name is required.") [])
    else if ltb (length (trim name)) 3
    then err (refuse (text "PART_NAME_INVALID") (text "Name must have at least 3 characters.") [])
    else if ltb 100 (length (trim name))
    then err (refuse (text "PART_NAME_INVALID") (text "Name must have at most 100 characters.") [])
    else ok tt

-- `validateDescription`
unfoldable pub validate_description : Text → Result (Unit {0})
validate_description description =
    if ltb 500 (length description)
    then err (
        refuse (text "PART_DESCRIPTION_INVALID")
          (text "Description must have at most 500 characters.") [])
    else ok tt

-- `validateUnitPrice`
unfoldable pub validate_unit_price : Number → Result (Unit {0})
validate_unit_price unit_price =
    if at_most unit_price (number 0) || less unit_price (finite (pos 10000))
    then err (
        refuse (text "PART_UNIT_PRICE_INVALID") (text "Unit price must be at least 0.01.")
          (("unitPrice", number_detail unit_price) ∷ []))
    else ok tt

-- `validateAvailableQuantity`
unfoldable pub validate_available_quantity : Number → Result (Unit {0})
validate_available_quantity quantity =
    if less quantity (number 0)
    then err (quantity_invalid quantity (text "Available quantity cannot be negative."))
    else ok tt

-- `validateReservedQuantity`
unfoldable pub validate_reserved_quantity : Number → Result (Unit {0})
validate_reserved_quantity quantity =
    if less quantity (number 0)
    then err (quantity_invalid quantity (text "Reserved quantity cannot be negative."))
    else ok tt

-- `validateMinimumQuantity`
unfoldable pub validate_minimum_quantity : Number → Result (Unit {0})
validate_minimum_quantity quantity =
    if less quantity (number 0)
    then err (quantity_invalid quantity (text "Minimum quantity cannot be negative."))
    else ok tt

-- `validateUnit`
unfoldable pub validate_unit : Text → Result (Unit {0})
validate_unit unit =
    if is_empty (trim unit)
    then err (refuse (text "PART_UNIT_REQUIRED") (text "Unit is required.") [])
    else ok tt

-- `validate`
unfoldable pub validate : Part → Result (Unit {0})
validate p = do
  validate_name p.name
  validate_description p.description
  validate_unit_price p.unit_price
  validate_available_quantity p.available_quantity
  validate_reserved_quantity p.reserved_quantity
  validate_minimum_quantity p.minimum_quantity
  validate_unit p.unit

-- `Part.create`: the constructor, which validates last.
unfoldable pub create_part : PartReadings → PartProps → Result Part
create_part now props = do
  code ← create_code props.code
  let part : Part = record {
    id = get_or props.id now.fresh_id;
    code = code;
    name = props.name;
    description = get_or props.description [];
    unit_price = props.unit_price;
    available_quantity = props.available_quantity;
    reserved_quantity = get_or props.reserved_quantity (number 0);
    minimum_quantity = props.minimum_quantity;
    unit = props.unit;
    active = get_or props.active true;
    created_at = get_or props.created_at now.created_now;
    updated_at = get_or props.updated_at now.updated_now;
  }
  validate part
  ok part
