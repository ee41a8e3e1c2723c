-- ===== src/Execution/Service/Requests.antt =====
-- All requests that change executions, and any sequence of them.
use workshop_service.Base.{ℕ, ◌≡◌, refl, Bool, Option, none, some, [], arith, sym}
use workshop_service.Text.{Text, ◌===◌}
use workshop_service.Errors
use workshop_service.Errors.{Result, ok, err}
use workshop_service.Errors.Action.{Action, lift, ◌>>=◌}
use workshop_service.Errors.Post.{Post, Post-lift, Post-state, keep-Post}
use workshop_service.Persistence.{find?}
use workshop_service.Persistence.Tables.{upsert-All, upsert-Distinct_new}
use workshop_service.Messaging.{Outside}
use workshop_service.Execution.{Execution, Readings}
use workshop_service.Execution.Lifecycle.{IsCoherent}
use workshop_service.Execution.Mapper.{ExecutionRow, to_orm_entity, to_domain, IsStorable}
use workshop_service.Execution.Identity.{
  Identity, normalize_identity, IsAccepted, normalize_identity-IsAccepted,
}
use workshop_service.Execution.Service.Creation.{queued_execution, queued-IsStorable, create_new}
use workshop_service.Execution.Repository.{
  World, ExecutionOrm, same_row, entity_of, find_where, find_by_saga_id, find_by_order_id, save,
}
use workshop_service.Execution.Repository.Rows.{as_execution}
use workshop_service.Execution.Service.{
  create_queued_execution, create_normalized, settle_identity, start_diagnosis, start_repair,
  finish, fail,
}
use workshop_service.Execution.Service.Consistency.{IsConsistent, Safe, save-Post}
use workshop_service.Execution.Service.Operations.{
  start_diagnosis-Safe, start_repair-Safe, finish-Safe, fail-Safe,
}

pub data Request : Type 0 where
  enqueue : Identity → Request
  diagnose repair complete : Text → Request
  abort : Text → Text → Option Text → Request

-- The operation of a request, with what it reads from outside.
unfoldable pub serve : ExecutionOrm → Outside → Readings → ℕ → Request → Action World Execution
serve orm o now at (enqueue raw) = create_queued_execution orm now raw
serve orm o now at (diagnose id) = start_diagnosis orm o now at id
serve orm o now at (repair id) = start_repair orm now at id
serve orm o now at (complete id) = finish orm o now at id
serve orm o now at (abort id code reason) = fail orm o now at id code reason

-- The generator of identifiers has not given this one to a stored execution.
abbrev pub IsFresh : Readings → World → Type 0
IsFresh now w = find? (λ row. row.id === now.fresh_id) w.executions ≡ none

queued-IsCoherent : (now : Readings) (n : Identity) → IsCoherent (queued_execution now n)
queued-IsCoherent now n = ground arith

module _ (orm : ExecutionOrm) (now : Readings) (n : Identity) (accepted : IsAccepted n) where
  created_keeps :
      (w : World)
      → Safe w
      → IsFresh now w
      → find? (λ row. row.saga_id === n.saga_id) w.executions ≡ none
      → find? (λ row. row.order_id === n.order_id) w.executions ≡ none
      → Safe (save orm now (queued_execution now n) w).1
  unfolding to_orm_entity same_row
  created_keeps w h fresh fs fo =
      let row = to_orm_entity (queued_execution now n) in
      Post-state Safe (λ _ _. Unit {0}) (save orm now (queued_execution now n) w)
        (save-Post orm now (queued_execution now n) w h (record {
          storable =
              upsert-All IsStorable same_row row w.executions h.storable
                (queued-IsStorable n accepted now);
          coherent =
              upsert-All (λ x. IsCoherent (as_execution x)) same_row row w.executions h.coherent
                (queued-IsCoherent now n);
          ids = upsert-Distinct_new same_row (λ x. x.id) row w.executions fresh fresh h.ids;
          sagas = upsert-Distinct_new same_row (λ x. x.saga_id) row w.executions fs fresh h.sagas;
          orders =
              upsert-Distinct_new same_row (λ x. x.order_id) row w.executions fo fresh h.orders;
        }))

  -- What a look-up that gives no execution says of the table.
  abbrev Missing : (ExecutionRow → Bool) → World → Option Execution → World → Type 0
  Missing p w o w' = (w' ≡ w) × (o ≡ none → find? p w.executions ≡ none)

  Missing-answer :
      (p : ExecutionRow → Bool) (w : World) (r : Result (Option ExecutionRow))
      → orm.find_one p w.executions ≡ r
      → Safe w
      → Post Safe {A = Option Execution}
          (Missing p w)
          (elim r [ ok row ↦ (entity_of now row, w) | err f ↦ (err f, w) ])
  Missing-answer p w (ok none) a h = (h, (refl, λ _. sym (orm.find_one_lem p w.executions none a)))
  Missing-answer p w (ok (some row)) a h =
      Post-lift Safe (Missing p w) (entity_of now (some row)) w h
        (λ o e. (refl, λ m. some_found (to_domain now row) o e m))
    where
      some_found :
          (r : Result Execution) (o : Option Execution)
          → (Errors.◌>>=◌ r (λ e. ok (some e))) ≡ ok o
          → o ≡ none
          → find? p w.executions ≡ none
      some_found (ok e) o made m = cc
      some_found (err f) o made m = cc
  Missing-answer p w (err f) a h = h

  find_where-Post :
      (p : ExecutionRow → Bool) (w : World)
      → Safe w
      → Post Safe (Missing p w) (find_where orm now p w)
  unfolding find_where
  find_where-Post p w h = Missing-answer p w (orm.find_one p w.executions) refl h

  settle_keeps :
      (w : World) (by_saga by_order : Option Execution)
      → Safe w
      → IsFresh now w
      → (by_saga ≡ none → find? (λ row. row.saga_id === n.saga_id) w.executions ≡ none)
      → (by_order ≡ none → find? (λ row. row.order_id === n.order_id) w.executions ≡ none)
      → Safe (settle_identity orm now n by_saga by_order w).1
  unfolding settle_identity
  settle_keeps w none none h fresh fs fo =
      rw (create_new n accepted now, lift) (created_keeps w h fresh (fs refl) (fo refl))
  settle_keeps w none (some y) h fresh fs fo = h
  settle_keeps w (some x) none h fresh fs fo = h
  settle_keeps w (some x) (some y) h fresh fs fo = ground arith

  create_normalized_keeps :
      (w : World) → Safe w → IsFresh now w → Safe (create_normalized orm now n w).1
  unfolding create_normalized find_by_saga_id find_by_order_id
  create_normalized_keeps w h fresh =
      keep-Post Safe
        (λ bs. find_by_order_id orm now n.order_id >>= λ bo. settle_identity orm now n bs bo)
        (Missing (λ row. row.saga_id === n.saga_id) w) (find_by_saga_id orm now n.saga_id) w
        (find_where-Post (λ row. row.saga_id === n.saga_id) w h)
        (λ bs h1 m1. rw m1.0 (second bs m1.1))
    where
      second :
          (bs : Option Execution)
          → (bs ≡ none → find? (λ row. row.saga_id === n.saga_id) w.executions ≡ none)
          → Safe
              ((find_by_order_id orm now n.order_id >>= λ bo. settle_identity orm now n bs bo) w).1
      second bs fs =
          keep-Post Safe (λ bo. settle_identity orm now n bs bo)
            (Missing (λ row. row.order_id === n.order_id) w) (find_by_order_id orm now n.order_id) w
            (find_where-Post (λ row. row.order_id === n.order_id) w h)
            (λ bo h2 m2. rw m2.0 (settle_keeps w bs bo h fresh fs m2.1))

create_keeps :
    (orm : ExecutionOrm) (now : Readings) (raw : Identity) (w : World)
    → Safe w
    → IsFresh now w
    → Safe (create_queued_execution orm now raw w).1
unfolding create_queued_execution
create_keeps orm now raw w h fresh = normalized (normalize_identity raw) refl
  where
    normalized :
        (r : Result Identity)
        → normalize_identity raw ≡ r
        → Safe ((lift r >>= λ n. create_normalized orm now n) w).1
    normalized (ok n) e =
        create_normalized_keeps orm now n (normalize_identity-IsAccepted raw n e) w h fresh
    normalized (err f) e = h

-- Every request, returned or thrown, with a fresh identifier for what it creates, keeps a
-- consistent table consistent: rows that can be read back and
-- are coherent, and no two with the same id, saga or order.
pub serve-IsConsistent :
    (orm : ExecutionOrm) (o : Outside) (now : Readings) (at : ℕ) (r : Request) (w : World)
    → IsConsistent w.executions
    → IsFresh now w
    → IsConsistent (serve orm o now at r w).1.executions
unfolding serve
serve-IsConsistent orm o now at (enqueue raw) w h fresh = create_keeps orm now raw w h fresh
serve-IsConsistent orm o now at (diagnose id) w h fresh = start_diagnosis-Safe orm o now at id w h
serve-IsConsistent orm o now at (repair id) w h fresh = start_repair-Safe orm o now at id w h
serve-IsConsistent orm o now at (complete id) w h fresh = finish-Safe orm o now at id w h
serve-IsConsistent orm o now at (abort id code reason) w h fresh =
    fail-Safe orm o now at id code reason w h

-- The worlds that a sequence of requests leads to.
pub data Served (orm : ExecutionOrm) (o : Outside) (w : World) : World → Type 0 where
  start : Served orm o w w
  then :
      {v : World} (now : Readings) (at : ℕ) (r : Request)
      → Served orm o w v
      → IsFresh now v
      → Served orm o w (serve orm o now at r v).1

-- From an empty table, every sequence of requests, each with a fresh identifier, with the answers and faults of the database and
-- the broker that come, leads to a consistent table.
pub Served-IsConsistent :
    (orm : ExecutionOrm) (o : Outside) (w v : World)
    → w.executions ≡ []
    → Served orm o w v
    → IsConsistent v.executions
Served-IsConsistent orm o w v empty start =
    rw empty (record { storable = tt; coherent = tt; ids = tt; sagas = tt; orders = tt })
Served-IsConsistent orm o w v empty (then {v = u} now at r s fresh) =
    serve-IsConsistent orm o now at r u (Served-IsConsistent orm o w u empty s) fresh
