-- ===== src/Number.antt =====
-- The `number` of TypeScript: a finite value, held exactly in millionths, or one of the
-- three values that are no number of things. Tests with `nan` are false, as in the language.
use workshop_service.Base.{ℕ, ◌*◌, ◌%◌, ◌≡◌, Bool, true, false, ◌&&◌, ◌==◌, if◌then◌else◌}
use workshop_service.Int.{ℤ, pos, negsuc, pos_part, neg_part, ◌+ℤ◌, ◌-ℤ◌, ltb_ℤ, eqb_ℤ}

pub data Number : Type 0 where
  finite : ℤ → Number
  nan infinity neg_infinity : Number

-- The steps of a finite value to 1.
abbrev pub steps : ℕ
steps = 1000000

-- An integral value, written in the source by its digits.
abbrev pub number : ℕ → Number
number n = finite (pos (n * steps))

-- `Number.isInteger(a)`
abbrev pub is_integer : Number → Bool
is_integer (finite z) = pos_part z % steps == 0 && neg_part z % steps == 0
is_integer nan = false
is_integer infinity = false
is_integer neg_infinity = false

-- `a < b`
abbrev pub less : Number → Number → Bool
less (finite a) (finite b) = ltb_ℤ a b
less (finite a) infinity = true
less neg_infinity (finite b) = true
less neg_infinity infinity = true
less a b = false

-- `a === b`
abbrev pub same : Number → Number → Bool
same (finite a) (finite b) = eqb_ℤ a b
same infinity infinity = true
same neg_infinity neg_infinity = true
same a b = false

-- `a <= b`
abbrev pub at_most : Number → Number → Bool
at_most a b = if less a b then true else same a b

-- `a + b`
abbrev pub plus : Number → Number → Number
plus (finite a) (finite b) = finite (a +ℤ b)
plus (finite a) infinity = infinity
plus infinity (finite b) = infinity
plus infinity infinity = infinity
plus (finite a) neg_infinity = neg_infinity
plus neg_infinity (finite b) = neg_infinity
plus neg_infinity neg_infinity = neg_infinity
plus a b = nan

-- `-a`
abbrev pub negate : Number → Number
negate (finite a) = finite (pos 0 -ℤ a)
negate infinity = neg_infinity
negate neg_infinity = infinity
negate nan = nan

-- `a - b`
abbrev pub minus : Number → Number → Number
minus (finite a) (finite b) = finite (a -ℤ b)
minus a b = plus a (negate b)

-- A stock count: a whole number, not negative.
abbrev pub IsCount : Number → Type 0
IsCount (finite (pos n)) = n % steps ≡ 0
IsCount (finite (negsuc n)) = ⊥
IsCount nan = ⊥
IsCount infinity = ⊥
IsCount neg_infinity = ⊥

-- The steps of a count.
abbrev pub size : Number → ℕ
size (finite z) = pos_part z
size nan = 0
size infinity = 0
size neg_infinity = 0
