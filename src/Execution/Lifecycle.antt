-- ===== src/Execution/Lifecycle.antt =====
-- The state machine of an execution: the transitions that the methods make, what they keep, and
-- every history of calls.
pub mod History
pub mod Failing
use workshop_service.Base.{
  ℕ, ◌≤◌, ◌≡◌, refl, Bool, true, false, Option, none, some, List, [], ◌∷◌, arith, ◌⊎◌, inl, inr,
  ◌≢◌, is_some, get_or,
}
use workshop_service.Text.{Text}
use workshop_service.Errors.{Failure, Result, ok, err}
use workshop_service.Errors.Action.{Action}
use workshop_service.Execution.{
  ExecutionStatus, queued, in_diagnosis, in_repair, finished, failed, Execution,
  sanitize_failure_code, sanitize_failure_reason,
}
use workshop_service.Execution.Methods.{
  start_diagnosis, start_repair, finish, fail, fail_with, is_terminal, same_text,
  transition_invalid,
}

-- A call of one of the four methods that move an execution.
pub data Command : Type 0 where
  diagnose repair complete : Command
  abort : Text → Option Text → Command

-- The call, at a reading of the clock.
unfoldable pub obey : Command → ℕ → Action Execution (Unit {0})
unfolding start_diagnosis start_repair finish fail
obey diagnose now = start_diagnosis now
obey repair now = start_repair now
obey complete now = finish now
obey (abort code reason) now = fail code reason now

-- The diagram of the states.
infix 40 ◌⟶◌
pub data ◌⟶◌ : ExecutionStatus → ExecutionStatus → Type 0 where
  diagnosis_starts : queued ⟶ in_diagnosis
  repair_starts : in_diagnosis ⟶ in_repair
  diagnosis_finishes : in_diagnosis ⟶ finished
  repair_finishes : in_repair ⟶ finished
  queued_fails : queued ⟶ failed
  diagnosis_fails : in_diagnosis ⟶ failed
  repair_fails : in_repair ⟶ failed

ruleset edges = (
  diagnosis_starts, repair_starts, diagnosis_finishes, repair_finishes, queued_fails,
  diagnosis_fails, repair_fails,
)

-- A call that returns leaves the execution as it is, or moves its status along an edge of the
-- diagram.
pub obey-⟶ :
    (c : Command) (now : ℕ) (e : Execution)
    → (obey c now e).0 ≡ ok tt
    → ((obey c now e).1 ≡ e) ⊎ (e.status ⟶ (obey c now e).1.status)
unfolding obey
obey-⟶ diagnose now e h = grind (arith, edges)
obey-⟶ _ now e h = grind (arith, edges)

-- A call that throws leaves the execution as it is.
pub obey_error_unchanged :
    (c : Command) (now : ℕ) (e : Execution) (f : Failure)
    → (obey c now e).0 ≡ err f
    → (obey c now e).1 ≡ e
unfolding obey
obey_error_unchanged diagnose now e f h = ground arith
obey_error_unchanged _ now e f h = ground arith

-- What the fields of an execution say of its status.
pub record IsCoherent (e : Execution) : Type 0 where
  pub diagnosed : e.status ≡ in_diagnosis → is_some e.diagnosis_started_at ≡ true
  pub diagnosed_before : e.status ≡ in_repair → is_some e.diagnosis_started_at ≡ true
  pub repairing : e.status ≡ in_repair → is_some e.repair_started_at ≡ true
  pub done : e.status ≡ finished → is_some e.finished_at ≡ true
  pub done_started : e.status ≡ finished → is_some e.diagnosis_started_at ≡ true
  pub broken : e.status ≡ failed → (is_some e.failed_at ≡ true) × (is_some e.failure_code ≡ true)
  pub unbroken : e.status ≢ failed → (e.failure_code ≡ none) × (e.failure_reason ≡ none)

pub obey-IsCoherent :
    (c : Command) (now : ℕ) (e : Execution) → IsCoherent e → IsCoherent (obey c now e).1
unfolding obey
obey-IsCoherent diagnose now e h = ground arith
obey-IsCoherent _ now e h = ground arith
