-- ===== src/Execution/Methods.antt =====
-- The methods of `class Execution`: each runs on the entity and may throw.
use workshop_service.Base.{
  ℕ, Bool, true, false, ◌&&◌, ◌||◌, not, Option, none, some, [], ◌∷◌, if◌then◌else◌,
}
use workshop_service.Text.{Text, text, ◌===◌}
use workshop_service.Errors.{Failure, domain, text_detail}
use workshop_service.Errors.Action.{Action, pure, raise, lift, modify, ◌>>=◌, ◌>>◌}
use workshop_service.Execution.{
  ExecutionStatus, queued, in_diagnosis, in_repair, finished, failed, Execution,
  sanitize_failure_code, sanitize_failure_reason,
}

-- `===` on statuses.
abbrev pub same_status : ExecutionStatus → ExecutionStatus → Bool
same_status queued queued = true
same_status in_diagnosis in_diagnosis = true
same_status in_repair in_repair = true
same_status finished finished = true
same_status failed failed = true
same_status s t = false

-- `===` on texts that may be `null`.
abbrev pub same_text : Option Text → Option Text → Bool
same_text none none = true
same_text none (some t) = false
same_text (some s) none = false
same_text (some s) (some t) = s === t

-- The member of the enum as a string.
unfoldable pub status_text : ExecutionStatus → Text
status_text queued = text "QUEUED"
status_text in_diagnosis = text "IN_DIAGNOSIS"
status_text in_repair = text "IN_REPAIR"
status_text finished = text "FINISHED"
status_text failed = text "FAILED"

-- A `DomainException` of code EXECUTION_STATUS_TRANSITION_INVALID.
unfoldable pub transition_invalid : Text → Failure
transition_invalid message =
    domain (record {
      code = text "EXECUTION_STATUS_TRANSITION_INVALID";
      message = message;
      details = [];
    })

-- The same with the current status under `details`.
unfoldable pub transition_invalid_from : Text → ExecutionStatus → Failure
unfolding status_text
transition_invalid_from message status = domain (record {
  code = text "EXECUTION_STATUS_TRANSITION_INVALID";
  message = message;
  details = ("currentStatus", text_detail (status_text status)) ∷ [];
})

-- `isTerminal`
unfoldable pub is_terminal : Execution → Bool
is_terminal e = same_status e.status finished || same_status e.status failed

-- `ensureTransition`
unfoldable pub ensure_transition : ExecutionStatus → Text → Action Execution (Unit {0})
unfolding is_terminal
ensure_transition expected message e =
    if is_terminal e
    then raise (transition_invalid (text "Terminal executions cannot transition to another state."))
        e
    else if not (same_status e.status expected)
    then raise (transition_invalid_from message e.status) e
    else pure tt e

-- `startDiagnosis`
unfoldable pub start_diagnosis : ℕ → Action Execution (Unit {0})
unfolding ensure_transition
start_diagnosis started_at e =
    if same_status e.status in_diagnosis
    then pure tt e
    else (do
      ensure_transition queued (text "Only queued executions can start diagnosis.")
      modify (λ x. record x {
        status = in_diagnosis;
        diagnosis_started_at = some started_at;
        updated_at = started_at;
      }))
        e

-- `startRepair`
unfoldable pub start_repair : ℕ → Action Execution (Unit {0})
unfolding ensure_transition
start_repair started_at e =
    if same_status e.status in_repair
    then pure tt e
    else (do
      ensure_transition in_diagnosis (text "Only executions in diagnosis can start repair.")
      modify (λ x. record x {
        status = in_repair;
        repair_started_at = some started_at;
        updated_at = started_at;
      }))
        e

-- `finish`
unfoldable pub finish : ℕ → Action Execution (Unit {0})
finish finished_at e =
    if same_status e.status finished
    then pure tt e
    else if not (same_status e.status in_diagnosis) && not (same_status e.status in_repair)
    then raise (transition_invalid (text "Only executions in diagnosis or repair can be finished."))
        e
    else pure tt (record e {
      status = finished;
      finished_at = some finished_at;
      failure_code = none;
      failure_reason = none;
      updated_at = finished_at;
    })

-- `fail`, from where the code and the reason are normalised.
unfoldable pub fail_with : Text → Option Text → ℕ → Action Execution (Unit {0})
unfolding is_terminal
fail_with code reason failed_at e =
    if same_status e.status failed
    then (if same_text e.failure_code (some code) && same_text e.failure_reason reason
        then pure tt e
        else raise
            (transition_invalid
              (text "A failed execution cannot be failed again with a different reason."))
            e)
    else if is_terminal e
    then raise (transition_invalid (text "Terminal executions cannot transition to failed.")) e
    else pure tt (record e {
      status = failed;
      failure_code = some code;
      failure_reason = reason;
      failed_at = some failed_at;
      updated_at = failed_at;
    })

-- `fail`
unfoldable pub fail : Text → Option Text → ℕ → Action Execution (Unit {0})
unfolding fail_with
fail failure_code failure_reason failed_at = do
  code ← lift (sanitize_failure_code failure_code)
  fail_with code (sanitize_failure_reason failure_reason) failed_at
