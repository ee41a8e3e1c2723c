-- ===== src/Part/Methods.antt =====
-- The methods of `class Part` that change it: each runs on the entity and may throw.
use workshop_service.Base.{
  ℕ, Bool, true, false, ◌||◌, not, Option, none, some, [], ◌∷◌, if◌then◌else◌,
}
use workshop_service.Number.{Number, number, is_integer, less, at_most, plus, minus}
use workshop_service.Text.{Text, text}
use workshop_service.Errors.{Failure, domain, number_detail, Result, ok, err}
use workshop_service.Errors.Action.{Action, pure, lift, modify, ◌>>◌}
use workshop_service.Part.{
  Part, quantity_invalid, validate_name, validate_description, validate_unit_price,
  validate_minimum_quantity, validate_unit,
}

-- part/domain/exceptions/insufficient-stock.exception.ts
unfoldable pub insufficient_stock : Number → Number → Failure
insufficient_stock available requested = domain (record {
  code = text "PART_STOCK_INSUFFICIENT";
  message = text "Available stock is insufficient.";
  details = ("available", number_detail available) ∷ ("requested", number_detail requested) ∷ [];
})

-- part/domain/exceptions/insufficient-reserved-stock.exception.ts
unfoldable pub insufficient_reserved_stock : Number → Number → Failure
insufficient_reserved_stock reserved requested = domain (record {
  code = text "PART_RESERVED_STOCK_INSUFFICIENT";
  message = text "Reserved stock is insufficient.";
  details = ("reserved", number_detail reserved) ∷ ("requested", number_detail requested) ∷ [];
})

-- `!Number.isInteger(quantity) || quantity <= 0`
abbrev pub is_no_movement : Number → Bool
is_no_movement quantity = not (is_integer quantity) || at_most quantity (number 0)

-- `validateMovementQuantity`
unfoldable pub validate_movement_quantity : Number → Result (Unit {0})
validate_movement_quantity quantity =
    if is_no_movement quantity
    then err (quantity_invalid quantity (text "Quantity must be a positive integer."))
    else ok tt

-- `ensureAvailableStock`
unfoldable pub ensure_available_stock : Number → Action Part (Unit {0})
ensure_available_stock quantity p = (
  if less p.available_quantity quantity
      then err (insufficient_stock p.available_quantity quantity)
      else ok tt,
  p,
)

-- `ensureReservedStock`
unfoldable pub ensure_reserved_stock : Number → Action Part (Unit {0})
ensure_reserved_stock quantity p = (
  if less p.reserved_quantity quantity
      then err (insufficient_reserved_stock p.reserved_quantity quantity)
      else ok tt,
  p,
)

-- `addStock`
unfoldable pub add_stock : Number → ℕ → Action Part (Unit {0})
unfolding validate_movement_quantity
add_stock quantity now = do
  lift (validate_movement_quantity quantity)
  modify
      (λ p. record p { available_quantity = plus p.available_quantity quantity; updated_at = now })

-- `removeStock`
unfoldable pub remove_stock : Number → ℕ → Action Part (Unit {0})
unfolding validate_movement_quantity ensure_available_stock
remove_stock quantity now = do
  lift (validate_movement_quantity quantity)
  ensure_available_stock quantity
  modify
      (λ p. record p { available_quantity = minus p.available_quantity quantity; updated_at = now })

-- `reserveStock`
unfoldable pub reserve_stock : Number → ℕ → Action Part (Unit {0})
unfolding validate_movement_quantity ensure_available_stock
reserve_stock quantity now = do
  lift (validate_movement_quantity quantity)
  ensure_available_stock quantity
  modify (λ p. record p {
    available_quantity = minus p.available_quantity quantity;
    reserved_quantity = plus p.reserved_quantity quantity;
    updated_at = now;
  })

-- `releaseStock`
unfoldable pub release_stock : Number → ℕ → Action Part (Unit {0})
unfolding validate_movement_quantity ensure_reserved_stock
release_stock quantity now = do
  lift (validate_movement_quantity quantity)
  ensure_reserved_stock quantity
  modify (λ p. record p {
    reserved_quantity = minus p.reserved_quantity quantity;
    available_quantity = plus p.available_quantity quantity;
    updated_at = now;
  })

-- `commitReservedStock`
unfoldable pub commit_reserved_stock : Number → ℕ → Action Part (Unit {0})
unfolding validate_movement_quantity ensure_reserved_stock
commit_reserved_stock quantity now = do
  lift (validate_movement_quantity quantity)
  ensure_reserved_stock quantity
  modify
      (λ p. record p { reserved_quantity = minus p.reserved_quantity quantity; updated_at = now })

-- `activate`
unfoldable pub activate : ℕ → Action Part (Unit {0})
activate now = modify (λ p. record p { active = true; updated_at = now })

-- `deactivate`
unfoldable pub deactivate : ℕ → Action Part (Unit {0})
deactivate now = modify (λ p. record p { active = false; updated_at = now })

pub record UpdatePartProps : Type 0 where
  pub name : Option Text
  pub description : Option Text
  pub unit_price : Option Number
  pub minimum_quantity : Option Number
  pub unit : Option Text

-- `if (value !== undefined) { validate(value); set(value); }`
abbrev pub set_if :
    {A : Type 0} → Option A → (A → Result (Unit {0})) → (A → Part → Part) → Action Part (Unit {0})
set_if none check set = pure tt
set_if (some a) check set = lift (check a) >> modify (set a)

-- `update`: what was set before a value that is refused stays set.
unfoldable pub update : UpdatePartProps → ℕ → Action Part (Unit {0})
update props now = do
  set_if props.name validate_name (λ v p. record p { name = v })
  set_if props.description validate_description (λ v p. record p { description = v })
  set_if props.unit_price validate_unit_price (λ v p. record p { unit_price = v })
  set_if props.minimum_quantity validate_minimum_quantity (λ v p. record p { minimum_quantity = v })
  set_if props.unit validate_unit (λ v p. record p { unit = v })
  modify (λ p. record p { updated_at = now })

-- `get totalQuantity`
unfoldable pub total_quantity : Part → Number
total_quantity p = plus p.available_quantity p.reserved_quantity

-- `get belowMinimumStock`
unfoldable pub below_minimum_stock : Part → Bool
below_minimum_stock p = less p.available_quantity p.minimum_quantity

-- `get hasAvailableStock`
unfoldable pub has_available_stock : Part → Bool
has_available_stock p = less (number 0) p.available_quantity
