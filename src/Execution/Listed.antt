-- ===== src/Execution/Listed.antt =====
-- Which executions the list of a status holds.
use workshop_service.Base.{
  ◌≡◌, ◌∙◌, true, Bool, Option, List, [], ◌∷◌, map, All, length, get_or, arith, ◌&&◌,
}
use workshop_service.Errors.{ok}
use workshop_service.Execution.{ExecutionStatus, Execution, Readings, queued}
use workshop_service.Execution.Methods.{same_status}
use workshop_service.Execution.Mapper.{ExecutionRow, to_domain, to_domain_list}
use workshop_service.Execution.Listing.{ExecutionEngine, execution_query, select_executions}
use workshop_service.Execution.Lifecycle.{IsCoherent}
use workshop_service.Execution.Mapper.{IsStorable}
use workshop_service.Execution.Repository.Rows.{as_execution, to_domain_of_IsStorable}
use workshop_service.Execution.Service.Consistency.{IsConsistent}
use workshop_service.Listing.{AnswersQueries, filter, all_of}
use workshop_service.Listing.Queries.{selected, get_many-map_result, length-map}

All-filter_test {ℓ κ} :
    {A : Type ℓ} (P : A → Type κ) (p : A → Bool) (xs : List A)
    → All P xs
    → All (λ x. (p x ≡ true) × P x) (filter p xs)
All-filter_test P p [] h = tt
All-filter_test P p (x ∷ xs) h = ground (arith, All-filter_test P p xs)

All-map {ℓ κ μ} :
    {A : Type ℓ} {B : Type κ} (P : A → Type μ) (Q : B → Type μ) (f : A → B)
    → ((x : A) → P x → Q (f x))
    → (xs : List A) → All P xs
    → All Q (map f xs)
All-map P Q f k [] h = tt
All-map P Q f k (x ∷ xs) h = (k x h.0, All-map P Q f k xs h.1)

status_same : (a b : ExecutionStatus) → (same_status a b && true) ≡ true → a ≡ b
status_same a b h = ground arith

-- Over a table of executions that is consistent, and on a database that answers, findAll returns a
-- list as long as the rows with the status that is asked for, or QUEUED where none is, are
-- many, and each execution in it has that status and the times and the failure that it stands for.
pub select_executions_lem :
    (engine : ExecutionEngine) (now : Readings) (status : Option ExecutionStatus)
    (rows : List ExecutionRow)
    → AnswersQueries engine
    → IsConsistent rows
    → let wanted = get_or status queued in
      (xs : List Execution) × (select_executions engine now status rows ≡ ok xs)
      × All (λ e. (e.status ≡ wanted) × IsCoherent e) xs
      × (length xs ≡ length (filter (λ row. same_status row.status wanted && true) rows))
unfolding select_executions to_domain_list
select_executions_lem engine now status rows up h =
    let q = execution_query status in
    let wanted = get_or status queued in
    let given = engine.arrange-All q.order q.limit q.offset _ _ (
      All-filter_test (λ row. IsCoherent (as_execution row)) (all_of q.conditions) rows
        h.coherent) in
    (
      map as_execution (selected engine q rows),
      get_many-map_result engine (to_domain now) as_execution IsStorable
          (to_domain_of_IsStorable now) up q rows h.storable,
      All-map _ (λ e. (e.status ≡ wanted) × IsCoherent e) as_execution
          (λ row k. (status_same row.status wanted k.0, k.1)) (selected engine q rows) given,
      length-map as_execution (selected engine q rows)
          ∙ engine.length-arrange q.order q.limit q.offset (filter (all_of q.conditions) rows),
    )
