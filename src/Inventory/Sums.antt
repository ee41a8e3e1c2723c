-- ===== src/Inventory/Sums.antt =====
-- Sums over the rows of a table, through a write.
use workshop_service.Base.{ℕ, ◌+◌, ◌≡◌, Bool, ◌&&◌, none, some, List, [], ◌∷◌, arith}
use workshop_service.Text.{Text, ◌===◌}
use workshop_service.Text.Laws.{===_iff}
use workshop_service.Persistence.{find?, upsert}
use workshop_service.Persistence.Tables.{Distinct}

module _ {Row : Type 0} where
  unfoldable pub sum_of : (Row → ℕ) → List Row → ℕ
  sum_of f [] = 0
  sum_of f (x ∷ t) = f x + sum_of f t

  -- A row that is added.
  pub sum_of-upsert_new :
      (f : Row → ℕ) (same : Row → Row → Bool) (r : Row) (t : List Row)
      → find? (same r) t ≡ none
      → sum_of f (upsert same r t) ≡ sum_of f t + f r
  unfolding sum_of upsert find?
  sum_of-upsert_new f same r [] e = omega arith
  sum_of-upsert_new f same r (x ∷ t) e = ground (arith, sum_of-upsert_new f same r t)

  -- A row that takes the place of another.
  pub sum_of-upsert :
      (f : Row → ℕ) (same : Row → Row → Bool) (r x : Row) (t : List Row)
      → find? (same r) t ≡ some x
      → sum_of f (upsert same r t) + f x ≡ sum_of f t + f r
  unfolding sum_of upsert find?
  sum_of-upsert f same r x [] e = cc
  sum_of-upsert f same r x (y ∷ t) e = ground (arith, sum_of-upsert f same r x t)

  absent :
      (key : Row → Text) (q : Row → Bool) (k : Text) (x : Row) (t : List Row)
      → find? (λ y. key y === k) t ≡ none
      → find? (λ y. key y === k && q y) t ≡ some x
      → ⊥
  unfolding find?
  absent key q k x [] e f = cc
  absent key q k x (y ∷ t) e f = ground (arith, absent key q k x t)

  -- Where keys are distinct, a row that is found by its key and another condition is found by
  -- its key.
  pub find?-key :
      (key : Row → Text) (q : Row → Bool) (k : Text) (x : Row) (t : List Row)
      → Distinct key t
      → find? (λ y. key y === k && q y) t ≡ some x
      → find? (λ y. key y === k) t ≡ some x
  unfolding find?
  find?-key key q k x [] d e = e
  find?-key key q k x (y ∷ t) d e =
      ground (arith, ===_iff (key y) k, absent key q k x t, find?-key key q k x t)
