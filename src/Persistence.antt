-- ===== src/Persistence.antt =====
-- The tables of the database, and TypeORM's repository of one entity (a third-party package) as
-- an interface. A table is the list of its rows in the order in which the engine visits them.
pub mod Tables
use workshop_service.Base.{◌≡◌, Bool, Option, none, some, List, [], ◌∷◌, if◌then◌else◌}
use workshop_service.Errors.{Result, ok}

module _ {Row : Type 0} where
  -- The first row that meets a condition.
  unfoldable pub find? : (Row → Bool) → List Row → Option Row
  find? p [] = none
  find? p (x ∷ xs) = if p x then some x else find? p xs

  -- The row of the same primary key is replaced; where there is none, the row is added.
  unfoldable pub upsert : (Row → Row → Bool) → Row → List Row → List Row
  upsert same_key r [] = r ∷ []
  upsert same_key r (x ∷ xs) = if same_key r x then r ∷ xs else x ∷ upsert same_key r xs

-- TypeORM's `Repository<Row>`: each call answers or throws. An answer is the documented one:
-- `findOne` gives the first row that meets the condition, and `save` writes by primary key.
pub record Orm (Row : Type 0) (same_key : Row → Row → Bool) : Type 0 where
  pub find_one : (Row → Bool) → List Row → Result (Option Row)
  pub save : Row → List Row → Result (List Row)
  pub find_one_lem :
      (p : Row → Bool) (t : List Row) (o : Option Row) → find_one p t ≡ ok o → o ≡ find? p t
  pub save_lem : (r : Row) (t t' : List Row) → save r t ≡ ok t' → t' ≡ upsert same_key r t

-- The database answers every call.
pub record Answers {Row : Type 0} {same_key : Row → Row → Bool} (orm : Orm Row same_key)
    : Type 0 where
  pub finds : (p : Row → Bool) (t : List Row) → orm.find_one p t ≡ ok (find? p t)
  pub saves : (r : Row) (t : List Row) → orm.save r t ≡ ok (upsert same_key r t)
