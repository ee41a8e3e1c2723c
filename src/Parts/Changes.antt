-- ===== src/Parts/Changes.antt =====
-- What the methods of a part keep of it.
use workshop_service.Base.{ℕ, ◌≡◌, false, arith}
use workshop_service.Number.{Number, number, less, plus, minus}
use workshop_service.Errors.{ok}
use workshop_service.Errors.Action.{Action}
use workshop_service.Part.{Part, validate, validate_available_quantity, validate_reserved_quantity}
use workshop_service.Part.Methods.{
  is_no_movement, validate_movement_quantity, ensure_available_stock, ensure_reserved_stock,
  deactivate, update, UpdatePartProps, add_stock, remove_stock, reserve_stock, release_stock,
  commit_reserved_stock,
}
use workshop_service.Part.Stock.{Movement, move, add, remove, reserve, release, commit}
use workshop_service.Inventory.Rows.{IsAcceptedPart}

-- A change that returned has kept the id and the code, and left a part that can be read back.
abbrev pub IsSafe : Action Part (Unit {0}) → Type 0
IsSafe m =
    (p p' : Part)
    → IsAcceptedPart p
    → m p ≡ (ok tt, p')
    → IsAcceptedPart p' × (p'.id ≡ p.id) × (p'.code ≡ p.code)

plus_kept :
    (a q : Number)
    → less a (number 0) ≡ false
    → is_no_movement q ≡ false
    → less (plus a q) (number 0) ≡ false
plus_kept a q h n = ground arith

minus_kept :
    (a q : Number)
    → less a q ≡ false
    → is_no_movement q ≡ false
    → less (minus a q) (number 0) ≡ false
minus_kept a q h n = ground arith

pub deactivate-IsSafe : (at : ℕ) → IsSafe (deactivate at)
unfolding deactivate validate
deactivate-IsSafe at p p' a h = ground (arith, a.code, a.valid)

pub update-IsSafe : (props : UpdatePartProps) (at : ℕ) → IsSafe (update props at)
unfolding update validate
update-IsSafe props at p p' a h = ground (arith, a.code, a.valid)

module _ (q : Number) (at : ℕ) where
  add-IsSafe : IsSafe (add_stock q at)
  unfolding add_stock validate validate_movement_quantity validate_available_quantity
  add-IsSafe p p' a h = ground (arith, a.code, a.valid, plus_kept p.available_quantity q)

  remove-IsSafe : IsSafe (remove_stock q at)
  unfolding remove_stock validate validate_movement_quantity ensure_available_stock
      validate_available_quantity
  remove-IsSafe p p' a h = ground (arith, a.code, a.valid, minus_kept p.available_quantity q)

  reserve-IsSafe : IsSafe (reserve_stock q at)
  unfolding reserve_stock validate validate_movement_quantity ensure_available_stock
      validate_available_quantity validate_reserved_quantity
  reserve-IsSafe p p' a h =
      ground
        (arith, a.code, a.valid, minus_kept p.available_quantity q, plus_kept p.reserved_quantity q)

  release-IsSafe : IsSafe (release_stock q at)
  unfolding release_stock validate validate_movement_quantity ensure_reserved_stock
      validate_available_quantity validate_reserved_quantity
  release-IsSafe p p' a h =
      ground
        (arith, a.code, a.valid, plus_kept p.available_quantity q, minus_kept p.reserved_quantity q)

  commit-IsSafe : IsSafe (commit_reserved_stock q at)
  unfolding commit_reserved_stock validate validate_movement_quantity ensure_reserved_stock
      validate_reserved_quantity
  commit-IsSafe p p' a h = ground (arith, a.code, a.valid, minus_kept p.reserved_quantity q)

pub move-IsSafe : (m : Movement) (q : Number) (at : ℕ) → IsSafe (move m q at)
unfolding move
move-IsSafe add q at = add-IsSafe q at
move-IsSafe remove q at = remove-IsSafe q at
move-IsSafe reserve q at = reserve-IsSafe q at
move-IsSafe release q at = release-IsSafe q at
move-IsSafe commit q at = commit-IsSafe q at
