-- ===== src/Part/Stock.antt =====
-- The stock of a part through its movements.
use workshop_service.Base.{ℕ, ◌+◌, ◌≤◌, ◌≡◌, ◌↔◌, arith}
use workshop_service.Number.{Number, IsCount, size}
use workshop_service.Errors.{Failure, ok, err}
use workshop_service.Errors.Action.{Action}
use workshop_service.Part.{Part}
use workshop_service.Part.Methods.{
  add_stock, remove_stock, reserve_stock, release_stock, commit_reserved_stock,
}

pub data Movement : Type 0 where
  add remove reserve release commit : Movement

unfoldable pub move : Movement → Number → ℕ → Action Part (Unit {0})
unfolding add_stock remove_stock reserve_stock release_stock commit_reserved_stock
move add = add_stock
move remove = remove_stock
move reserve = reserve_stock
move release = release_stock
move commit = commit_reserved_stock

-- The counts of a part are whole numbers, not negative.
pub record IsStocked (p : Part) : Type 0 where
  pub available : IsCount p.available_quantity
  pub reserved : IsCount p.reserved_quantity

-- A movement, returned or thrown, of a part whose counts are whole and not negative, leaves them
-- whole and not negative.
pub move-IsStocked :
    (m : Movement) (q : Number) (now : ℕ) (p : Part) → IsStocked p → IsStocked (move m q now p).1
unfolding move
move-IsStocked add q now p h = ground arith
move-IsStocked _ q now p h = ground arith

-- A movement that throws leaves the part as it is.
pub move_error_unchanged :
    (m : Movement) (q : Number) (now : ℕ) (p : Part) (f : Failure)
    → (move m q now p).0 ≡ err f
    → (move m q now p).1 ≡ p
unfolding move
move_error_unchanged add q now p f h = ground arith
move_error_unchanged _ q now p f h = ground arith

-- What a movement of a count does to the available and the reserved stock: each ends with the
-- moved steps added to it or taken from it, as the movement says.
abbrev pub Balances : Movement → ℕ → Part → Part → Type 0
Balances add n p p' =
    (size p'.available_quantity ≡ size p.available_quantity + n)
    × (size p'.reserved_quantity ≡ size p.reserved_quantity)
Balances remove n p p' =
    (size p'.available_quantity + n ≡ size p.available_quantity)
    × (size p'.reserved_quantity ≡ size p.reserved_quantity)
Balances reserve n p p' =
    (size p'.available_quantity + n ≡ size p.available_quantity)
    × (size p'.reserved_quantity ≡ size p.reserved_quantity + n)
Balances release n p p' =
    (size p'.available_quantity ≡ size p.available_quantity + n)
    × (size p'.reserved_quantity + n ≡ size p.reserved_quantity)
Balances commit n p p' =
    (size p'.available_quantity ≡ size p.available_quantity)
    × (size p'.reserved_quantity + n ≡ size p.reserved_quantity)

-- On a part whose counts are whole and not negative, a movement that returns has moved a positive whole number, and moves it exactly: added, removed,
-- shifted from the available to the reserved stock, back, or taken out of the reserved stock.
pub move-Balances :
    (m : Movement) (q : Number) (now : ℕ) (p : Part)
    → IsStocked p
    → (move m q now p).0 ≡ ok tt
    → IsCount q × (1 ≤ size q) × Balances m (size q) p (move m q now p).1
unfolding move
move-Balances add q now p h r = ground arith
move-Balances _ q now p h r = ground arith

-- What a movement takes from: removing and reserving need the available stock, releasing and
-- committing the reserved stock, and adding needs none.
abbrev pub source : Movement → Part → Number → Number
source add p q = q
source remove p q = p.available_quantity
source reserve p q = p.available_quantity
source release p q = p.reserved_quantity
source commit p q = p.reserved_quantity

-- On a part whose counts are whole and not negative, a movement of a positive whole number
-- returns exactly when there is enough to take from.
pub move_when_enough :
    (m : Movement) (q : Number) (now : ℕ) (p : Part)
    → IsStocked p
    → IsCount q
    → 1 ≤ size q
    → ((move m q now p).0 ≡ ok tt) ↔ (size q ≤ size (source m p q))
unfolding move
move_when_enough add q now p h c n = ground arith
move_when_enough _ q now p h c n = ground arith
