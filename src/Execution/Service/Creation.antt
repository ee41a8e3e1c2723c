-- ===== src/Execution/Service/Creation.antt =====
-- `createQueuedExecution`, when a request comes again.
use workshop_service.Base.{◌≡◌, refl, Option, none, some, arith, All, ◌⊎◌, inl, inr, sym, ◌∙◌}
use workshop_service.Text.{text, ◌===◌}
use workshop_service.Text.Laws.{===-refl}
use workshop_service.Errors.{Result, ok, err}
use workshop_service.Errors.Action.{Action, lift, ◌>>=◌}
use workshop_service.Persistence.{Answers, find?, upsert}
use workshop_service.Persistence.Tables.{find?-upsert_new, upsert-All}
use workshop_service.Execution.{queued, Execution, Readings, create}
use workshop_service.Execution.Lifecycle.History.{same_text_refl}
use workshop_service.Execution.Mapper.{ExecutionRow, to_orm_entity, IsStorable}
use workshop_service.Execution.Identity.{
  Identity, normalize_identity, IsAccepted, normalize_identity-IsAccepted,
}
use workshop_service.Execution.Mapper.Roundtrip.{
  required_identifier_of_IsIdentifier, optional_identifier_of_IsOptionalIdentifier,
}
use workshop_service.Execution.Repository.{
  World, ExecutionOrm, same_row, find_by_saga_id, find_by_order_id,
}
use workshop_service.Execution.Repository.Rows.{as_entity?, find_where_lem, save_lem}
use workshop_service.Execution.Service.{
  create_queued_execution, create_normalized, settle_identity, queued_props,
}

-- The execution that is created from accepted identifiers.
abbrev pub queued_execution : Readings → Identity → Execution
queued_execution now n = record {
  id = now.fresh_id;
  saga_id = n.saga_id;
  order_id = n.order_id;
  request_event_id = n.request_event_id;
  correlation_id = n.correlation_id;
  status = queued;
  failure_code = none;
  failure_reason = none;
  queued_at = now.queued_now;
  diagnosis_started_at = none;
  repair_started_at = none;
  finished_at = none;
  failed_at = none;
  created_at = now.created_now;
  updated_at = now.updated_now;
}

module _ (n : Identity) (accepted : IsAccepted n) where
  pub queued-IsStorable : (now : Readings) → IsStorable (to_orm_entity (queued_execution now n))
  unfolding to_orm_entity
  queued-IsStorable now = record {
    saga = accepted.saga;
    order = accepted.order;
    request = accepted.request;
    correlation = accepted.correlation;
  }

  pub create_new : (now : Readings) → create now (queued_props n) ≡ ok (queued_execution now n)
  unfolding create
  create_new now = ground (
    arith,
    required_identifier_of_IsIdentifier (text "sagaId") n.saga_id accepted.saga,
    required_identifier_of_IsIdentifier (text "orderId") n.order_id accepted.order,
    optional_identifier_of_IsOptionalIdentifier (text "requestEventId") n.request_event_id
        accepted.request,
    optional_identifier_of_IsOptionalIdentifier (text "correlationId") n.correlation_id
        accepted.correlation,
  )

module _ (orm : ExecutionOrm) (up : Answers orm) (n : Identity) (accepted : IsAccepted n) where
  -- The look-ups of a call and what follows, on accepted identifiers.
  abbrev settle :
      Readings → World → Option ExecutionRow → Option ExecutionRow → Result Execution × World
  settle now w by_saga by_order =
      settle_identity orm now n (as_entity? by_saga) (as_entity? by_order) w

  settle_new :
      (now : Readings) (w : World)
      → settle now w none none ≡ (
        ok (queued_execution now n),
        record w {
          executions = upsert same_row (to_orm_entity (queued_execution now n)) w.executions;
        },
      )
  unfolding settle_identity
  settle_new now w = ground (
    arith,
    create_new n accepted now,
    save_lem orm up now (queued_execution now n) w (queued-IsStorable n accepted now),
  )

  abbrev tail : Readings → Action World Execution
  tail now = create_normalized orm now n

  tail_lem :
      (now : Readings) (w : World)
      → All IsStorable w.executions
      → tail now w
        ≡ settle now w
            (find? (λ row. row.saga_id === n.saga_id) w.executions)
            (find? (λ row. row.order_id === n.order_id) w.executions)
  unfolding create_normalized find_by_saga_id find_by_order_id
  tail_lem now w h = ground (
    arith,
    find_where_lem orm up now (λ row. row.saga_id === n.saga_id) w h,
    find_where_lem orm up now (λ row. row.order_id === n.order_id) w h,
  )

  -- A returned settlement has found nothing, or found the execution and changed nothing.
  settle_cases :
      (now later : Readings) (w w' : World) (e : Execution) (by_saga by_order : Option ExecutionRow)
      → settle now w by_saga by_order ≡ (ok e, w')
      → ((by_saga ≡ none) × (by_order ≡ none))
        ⊎ ((w' ≡ w) × (settle later w by_saga by_order ≡ (ok e, w)))
  unfolding settle_identity
  settle_cases now later w w' e none none r = inl (refl, refl)
  settle_cases now later w w' e (some x) none r = cc
  settle_cases now later w w' e none (some y) r = cc
  settle_cases now later w w' e (some x) (some y) r = ground arith

  -- The new execution is found by both look-ups and taken for the same.
  settle_found :
      (now later : Readings) (w : World)
      → let row = to_orm_entity (queued_execution now n) in
        settle later w (some row) (some row) ≡ (ok (queued_execution now n), w)
  unfolding settle_identity to_orm_entity
  settle_found now later w = ground (
    arith,
    ===-refl now.fresh_id,
    ===-refl n.saga_id,
    ===-refl n.order_id,
    same_text_refl n.request_event_id,
    same_text_refl n.correlation_id,
  )

  module _ (now : Readings) (w : World) where
    abbrev new_row : ExecutionRow
    new_row = to_orm_entity (queued_execution now n)

    abbrev after : World
    after = record w { executions = upsert same_row new_row w.executions }

    tail-after :
        (later : Readings)
        → All IsStorable w.executions
        → find? (λ row. row.saga_id === n.saga_id) w.executions ≡ none
        → find? (λ row. row.order_id === n.order_id) w.executions ≡ none
        → tail later after ≡ (ok (queued_execution now n), after)
    unfolding to_orm_entity
    tail-after later h fs fo =
        tail_lem later after
          (upsert-All IsStorable same_row new_row w.executions h (queued-IsStorable n accepted now))
        ∙ rw
            (
              find?-upsert_new same_row (λ row. row.saga_id === n.saga_id) new_row w.executions
                  (===-refl n.saga_id) fs,
              find?-upsert_new same_row (λ row. row.order_id === n.order_id) new_row w.executions
                  (===-refl n.order_id) fo,
            )
            (settle_found now later after)

  tail_made :
      (now later : Readings) (w w' : World) (e : Execution)
      → All IsStorable w.executions
      → find? (λ row. row.saga_id === n.saga_id) w.executions ≡ none
      → find? (λ row. row.order_id === n.order_id) w.executions ≡ none
      → settle now w none none ≡ (ok e, w')
      → tail later w' ≡ (ok e, w')
  tail_made now later w w' e h fs fo r =
      let q = queued_execution now n in
      let made : ◌≡◌ {A = Result Execution × World} (ok q, after now w) (ok e, w') =
        sym (settle_new now w) ∙ r in
      let same_world : after now w ≡ w' = cc made in
      let same_execution : q ≡ e = cc made in
      rw (← same_world, ← same_execution) (tail-after now w later h fs fo)

  tail_again :
      (now later : Readings) (w w' : World) (e : Execution)
      → All IsStorable w.executions
      → tail now w ≡ (ok e, w')
      → tail later w' ≡ (ok e, w')
  tail_again now later w w' e h r =
      let by_saga = find? (λ row. row.saga_id === n.saga_id) w.executions in
      let by_order = find? (λ row. row.order_id === n.order_id) w.executions in
      let settled : settle now w by_saga by_order ≡ (ok e, w') = sym (tail_lem now w h) ∙ r in
      elim (settle_cases now later w w' e by_saga by_order settled) [
        | inl (fs, fo) ↦ tail_made now later w w' e h fs fo (rw (fs, fo) at settled)
        | inr (same, found) ↦ rw same (tail_lem later w h ∙ found)
      ]

-- Two runs of a chain that begins with the same check.
lift_again :
    {S A B : Type 0} (r : Result A) (f g : A → Action S B) (w w' : S) (b : B)
    → ((a : A) → r ≡ ok a → f a w ≡ (ok b, w') → g a w' ≡ (ok b, w'))
    → (lift r >>= f) w ≡ (ok b, w')
    → (lift r >>= g) w' ≡ (ok b, w')
lift_again (ok a) f g w w' b k h = k a refl h
lift_again (err e) f g w w' b k h = cc

-- A request that has returned an execution returns the same one when it comes again, at any later
-- time, and changes nothing more, if the database answers and its rows have accepted identifiers.
pub create_queued_execution_again :
    (orm : ExecutionOrm)
    → Answers orm
    → (now later : Readings) (raw : Identity) (w w' : World) (e : Execution)
    → All IsStorable w.executions
    → create_queued_execution orm now raw w ≡ (ok e, w')
    → create_queued_execution orm later raw w' ≡ (ok e, w')
unfolding create_queued_execution
create_queued_execution_again orm up now later raw w w' e h =
    lift_again (normalize_identity raw) (create_normalized orm now) (create_normalized orm later) w
      w' e (λ n hn. tail_again orm up n (normalize_identity-IsAccepted raw n hn) now later w w' e h)
