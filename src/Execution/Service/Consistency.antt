-- ===== src/Execution/Service/Consistency.antt =====
-- The table of executions through every operation of ExecutionService, on every way out.
use workshop_service.Base.{ℕ, ◌≡◌, refl, Option, none, some, List, arith, All, sym, ap, ◌∙◌}
use workshop_service.Text.{Text, text, ◌===◌}
use workshop_service.Text.Laws.{===_iff}
use workshop_service.Errors.{Result, ok, err, or_raise}
use workshop_service.Errors.Action.{Action, lift, ◌>>=◌}
use workshop_service.Errors.Post.{Post, Post-bind, Post-lift}
use workshop_service.Persistence.{find?, upsert}
use workshop_service.Persistence.Tables.{
  Distinct, find?-All, find?-holds, upsert-All, upsert-Distinct,
}
use workshop_service.Execution.{Execution, Readings, required_identifier}
use workshop_service.Execution.Lifecycle.{Command, obey, IsCoherent, obey-IsCoherent}
use workshop_service.Execution.Mapper.{ExecutionRow, to_orm_entity, to_domain, IsStorable}
use workshop_service.Execution.Repository.{
  World, ExecutionOrm, same_row, find_by_id, save, entity_of,
}
use workshop_service.Execution.Repository.Rows.{as_execution, to_domain_of_IsStorable}
use workshop_service.Execution.Service.{load_execution, on_entity, execution_not_found}

-- Every row can be read back and is coherent, and no two rows share their id, saga or order.
pub record IsConsistent (rows : List ExecutionRow) : Type 0 where
  pub storable : All IsStorable rows
  pub coherent : All (λ row. IsCoherent (as_execution row)) rows
  pub ids : Distinct (λ row. row.id) rows
  pub sagas : Distinct (λ row. row.saga_id) rows
  pub orders : Distinct (λ row. row.order_id) rows

-- The entity of a stored row, and what a method may have made of it.
pub record IsMoveOf (rows : List ExecutionRow) (e : Execution) : Type 0 where
  pub row : ExecutionRow
  pub found : find? (same_row (to_orm_entity e)) rows ≡ some row
  pub same_saga : row.saga_id ≡ e.saga_id
  pub same_order : row.order_id ≡ e.order_id
  pub same_request : row.request_event_id ≡ e.request_event_id
  pub same_correlation : row.correlation_id ≡ e.correlation_id
  pub coherent : IsCoherent e

-- What no method changes.
pub record SameIdentity (e e' : Execution) : Type 0 where
  pub id : e'.id ≡ e.id
  pub saga : e'.saga_id ≡ e.saga_id
  pub order : e'.order_id ≡ e.order_id
  pub request : e'.request_event_id ≡ e.request_event_id
  pub correlation : e'.correlation_id ≡ e.correlation_id

pub obey-SameIdentity : (c : Command) (now : ℕ) (e : Execution) → SameIdentity e (obey c now e).1
unfolding obey
obey-SameIdentity Command.diagnose now e = ground arith
obey-SameIdentity _ now e = ground arith

pub obey-IsMoveOf :
    (c : Command) (now : ℕ) (rows : List ExecutionRow) (e : Execution)
    → IsMoveOf rows e
    → IsMoveOf rows (obey c now e).1
unfolding to_orm_entity same_row
obey-IsMoveOf c now rows e m =
    let kept = obey-SameIdentity c now e in
    record {
      row = m.row;
      found = rw kept.id m.found;
      same_saga = m.same_saga ∙ sym kept.saga;
      same_order = m.same_order ∙ sym kept.order;
      same_request = m.same_request ∙ sym kept.request;
      same_correlation = m.same_correlation ∙ sym kept.correlation;
      coherent = obey-IsCoherent c now e m.coherent;
    }

IsStorable-move :
    (rows : List ExecutionRow) (e : Execution)
    → IsConsistent rows
    → IsMoveOf rows e
    → IsStorable (to_orm_entity e)
unfolding to_orm_entity
IsStorable-move rows e h m =
    let old : IsStorable m.row = find?-All IsStorable _ rows m.row h.storable m.found in
    record {
      saga = rw (← m.same_saga) old.saga;
      order = rw (← m.same_order) old.order;
      request = rw (← m.same_request) old.request;
      correlation = rw (← m.same_correlation) old.correlation;
    }

-- A row that an entity's move replaces leaves the table consistent.
pub upsert-IsConsistent :
    (rows : List ExecutionRow) (e : Execution)
    → IsConsistent rows
    → IsMoveOf rows e
    → IsConsistent (upsert same_row (to_orm_entity e) rows)
unfolding to_orm_entity same_row
upsert-IsConsistent rows e h m = record {
  storable =
      upsert-All IsStorable same_row (to_orm_entity e) rows h.storable (IsStorable-move rows e h m);
  coherent =
      upsert-All (λ row. IsCoherent (as_execution row)) same_row (to_orm_entity e) rows h.coherent
        m.coherent;
  ids =
      upsert-Distinct same_row (λ row. row.id) (to_orm_entity e) rows m.row m.found
        ((===_iff m.row.id e.id).0 (find?-holds _ rows m.row m.found)) h.ids;
  sagas =
      upsert-Distinct same_row (λ row. row.saga_id) (to_orm_entity e) rows m.row m.found m.same_saga
        h.sagas;
  orders =
      upsert-Distinct same_row (λ row. row.order_id) (to_orm_entity e) rows m.row m.found
        m.same_order h.orders;
}

abbrev pub Safe : World → Type 0
Safe w = IsConsistent w.executions

module _ (orm : ExecutionOrm) (now : Readings) where
  -- The table after a save that was answered with `r`.
  save_answer :
      (e : Execution) (w : World) (r : Result (List ExecutionRow))
      → orm.save (to_orm_entity e) w.executions ≡ r
      → Safe w
      → IsConsistent (upsert same_row (to_orm_entity e) w.executions)
      → Post Safe {A = Execution}
          (λ _ _. Unit {0})
          (elim r [
            | ok rows ↦ (to_domain now (to_orm_entity e), record w { executions = rows })
            | err f ↦ (err f, w)
          ])
  save_answer e w (ok rows) a h k =
      Post-lift Safe (λ _ _. Unit {0}) (to_domain now (to_orm_entity e))
        (record w { executions = rows }) (rw (orm.save_lem _ _ rows a) k) (λ _ _. tt)
  save_answer e w (err f) a h k = h

  pub save-Post :
      (e : Execution) (w : World)
      → Safe w
      → IsConsistent (upsert same_row (to_orm_entity e) w.executions)
      → Post Safe (λ _ _. Unit {0}) (save orm now e w)
  unfolding save
  save-Post e w h k = save_answer e w (orm.save (to_orm_entity e) w.executions) refl h k

  found_move :
      (id : Text) (w : World) (row : ExecutionRow)
      → Safe w
      → find? (λ x. x.id === id) w.executions ≡ some row
      → IsMoveOf w.executions (as_execution row)
  unfolding to_orm_entity same_row
  found_move id w row h f =
      let same : row.id ≡ id = (===_iff row.id id).0 (find?-holds _ w.executions row f) in
      record {
        row = row;
        found = ap (λ k. find? (λ x. x.id === k) w.executions) same ∙ f;
        same_saga = refl;
        same_order = refl;
        same_request = refl;
        same_correlation = refl;
        coherent = find?-All (λ x. IsCoherent (as_execution x)) _ w.executions row h.coherent f;
      }

  abbrev pub IsFound : Option Execution → World → Type 0
  IsFound none w = Unit
  IsFound (some e) w = IsMoveOf w.executions e

  find_answer :
      (id : Text) (w : World) (r : Result (Option ExecutionRow))
      → orm.find_one (λ row. row.id === id) w.executions ≡ r
      → Safe w
      → Post Safe {A = Option Execution} IsFound
          (elim r [ ok row ↦ (entity_of now row, w) | err f ↦ (err f, w) ])
  find_answer id w (ok none) a h = (h, tt)
  find_answer id w (ok (some row)) a h =
      let found : find? (λ x. x.id === id) w.executions ≡ some row =
        sym (orm.find_one_lem (λ x. x.id === id) w.executions (some row) a) in
      rw
        (to_domain_of_IsStorable now row (find?-All IsStorable _ w.executions row h.storable found))
        (h, found_move id w row h found)
  find_answer id w (err f) a h = h

  pub find_by_id-Post :
      (id : Text) (w : World) → Safe w → Post Safe IsFound (find_by_id orm now id w)
  unfolding find_by_id
  find_by_id-Post id w h =
      find_answer id w (orm.find_one (λ row. row.id === id) w.executions) refl h

  found_or_raise :
      (id : Text) (w : World) (o : Option Execution)
      → Safe w
      → IsFound o w
      → Post Safe (λ e w'. IsMoveOf w'.executions e) (or_raise o (execution_not_found id), w)
  found_or_raise id w none h m = h
  found_or_raise id w (some e) h m = (h, m)

  pub load_execution-Post :
      (id : Text) (w : World)
      → Safe w
      → Post Safe (λ e w'. IsMoveOf w'.executions e) (load_execution orm now id w)
  unfolding load_execution
  load_execution-Post id w h =
      Post-bind Safe (λ key w'. Unit {0}) _ _ (lift (required_identifier (text "executionId") id)) w
        (Post-lift Safe _ (required_identifier (text "executionId") id) w h (λ _ _. tt))
        (λ key w1 h1 _.
          Post-bind Safe IsFound _ _ (find_by_id orm now key) w1 (find_by_id-Post key w1 h1)
            (λ o w2 h2 m. found_or_raise id w2 o h2 m))

  -- A method on a loaded execution, and what follows where it returns.
  pub moved-Post :
      (c : Command) (at : ℕ) (e : Execution) (w : World) (k : Execution → Action World Execution)
      → Safe w
      → IsMoveOf w.executions e
      → ((e' : Execution) → IsMoveOf w.executions e' → Safe (k e' w).1)
      → Safe ((on_entity (obey c at) e >>= k) w).1
  moved-Post c at e w k h m next =
      moved (obey c at e).0 (obey c at e).1 (obey-IsMoveOf c at w.executions e m)
    where
      moved :
          (r : Result (Unit {0})) (e' : Execution)
          → IsMoveOf w.executions e'
          → Safe ((on_entity (λ _. (r, e')) e >>= k) w).1
      moved (ok done) e' m' = next e' m'
      moved (err f) e' m' = h
