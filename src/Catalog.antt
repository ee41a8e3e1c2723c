-- ===== src/Catalog.antt =====
-- An item of the service catalog (service-catalog/domain/entities/service-catalog-item.entity.ts,
-- service-catalog/domain/exceptions). `calculateDiscountedPrice`, which nothing calls and which
-- rounds by `toFixed`, is left out.
pub mod Service
pub mod Rows
pub mod Names
pub mod Requests
pub mod Listing
pub mod Paging
use workshop_service.Base.{
  ℕ, Bool, true, false, ◌||◌, Option, none, some, List, [], ◌∷◌, get_or, length, ltb, if◌then◌else◌,
}
use workshop_service.Int.{pos}
use workshop_service.Number.{Number, finite, number, less, at_most}
use workshop_service.Text.{Text, text, trim, is_empty}
use workshop_service.Errors.{Failure, number_detail, Result, ok, err, ◌>>=◌, ◌>>◌}
use workshop_service.Errors.Action
use workshop_service.Errors.Action.{Action, pure, lift, modify}
use workshop_service.Part.{refuse}

pub record Item : Type 0 where
  pub id : Text
  pub name : Text
  pub description : Text
  pub price : Number
  pub estimated_minutes : Number
  pub active : Bool
  pub created_at : ℕ
  pub updated_at : ℕ

-- ServiceCatalogItemProps
pub record ItemProps : Type 0 where
  pub id : Option Text
  pub name : Text
  pub description : Option Text
  pub price : Number
  pub estimated_minutes : Number
  pub active : Option Bool
  pub created_at : Option ℕ
  pub updated_at : Option ℕ

-- What the constructor reads from outside.
pub record ItemReadings : Type 0 where
  pub fresh_id : Text
  pub created_now : ℕ
  pub updated_now : ℕ

-- `validateName`
unfoldable pub validate_name : Text → Result (Unit {0})
validate_name name =
    if is_empty (trim name)
    then err (refuse (text "SERVICE_CATALOG_NAME_REQUIRED") (text "Name is required.") [])
    else if ltb (length (trim name)) 3
    then err (
        refuse (text "SERVICE_CATALOG_NAME_INVALID") (text "Name must have at least 3 characters.")
          [])
    else if ltb 100 (length (trim name))
    then err (
        refuse (text "SERVICE_CATALOG_NAME_INVALID") (text "Name must have at most 100 characters.")
          [])
    else ok tt

-- `validateDescription`
unfoldable pub validate_description : Text → Result (Unit {0})
validate_description description =
    if ltb 500 (length description)
    then err (
        refuse (text "SERVICE_CATALOG_DESCRIPTION_INVALID")
          (text "Description must have at most 500 characters.") [])
    else ok tt

-- `validatePrice`, with PriceInvalidException
unfoldable pub validate_price : Number → Result (Unit {0})
validate_price price =
    if at_most price (number 0) || less price (finite (pos 10000))
    then err (
        refuse (text "SERVICE_CATALOG_PRICE_INVALID") (text "Price must be at least 0.01.")
          (("price", number_detail price) ∷ []))
    else ok tt

-- `validateEstimatedMinutes`, with EstimatedTimeInvalidException
unfoldable pub validate_estimated_minutes : Number → Result (Unit {0})
validate_estimated_minutes minutes =
    if at_most minutes (number 0)
    then err (
        refuse (text "SERVICE_CATALOG_ESTIMATED_TIME_INVALID")
          (text "Estimated time must be greater than zero.")
          (("estimatedMinutes", number_detail minutes) ∷ []))
    else ok tt

-- `validate`
unfoldable pub validate : Item → Result (Unit {0})
validate item = do
  validate_name item.name
  validate_description item.description
  validate_price item.price
  validate_estimated_minutes item.estimated_minutes

abbrev pub item_from : ItemReadings → ItemProps → Item
item_from now props = record {
  id = get_or props.id now.fresh_id;
  name = props.name;
  description = get_or props.description [];
  price = props.price;
  estimated_minutes = props.estimated_minutes;
  active = get_or props.active true;
  created_at = get_or props.created_at now.created_now;
  updated_at = get_or props.updated_at now.updated_now;
}

-- `ServiceCatalogItem.create`: the constructor, which validates last.
unfoldable pub create_item : ItemReadings → ItemProps → Result Item
create_item now props = do validate (item_from now props); ok (item_from now props)

pub record UpdateItemProps : Type 0 where
  pub name : Option Text
  pub description : Option Text
  pub price : Option Number
  pub estimated_minutes : Option Number

-- `if (value !== undefined) { validate(value); set(value); }`
abbrev pub set_if :
    {A : Type 0} → Option A → (A → Result (Unit {0})) → (A → Item → Item) → Action Item (Unit {0})
set_if none check set = pure tt
set_if (some a) check set = Action.◌>>◌ (lift (check a)) (modify (set a))

-- `update`: what was set before a value that is refused stays set.
unfoldable pub update_item : UpdateItemProps → ℕ → Action Item (Unit {0})
update_item props now =
    Action.◌>>◌ (set_if props.name validate_name (λ v i. record i { name = v })) (
      Action.◌>>◌
        (set_if props.description validate_description (λ v i. record i { description = v }))
        (Action.◌>>◌ (set_if props.price validate_price (λ v i. record i { price = v })) (
          Action.◌>>◌
            (set_if props.estimated_minutes validate_estimated_minutes
              (λ v i. record i { estimated_minutes = v }))
            (modify (λ i. record i { updated_at = now })))))

-- `activate` and `deactivate`
unfoldable pub activate : ℕ → Item → Item
activate now i = record i { active = true; updated_at = now }

unfoldable pub deactivate : ℕ → Item → Item
deactivate now i = record i { active = false; updated_at = now }
