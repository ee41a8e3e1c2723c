-- ===== src/Execution/Service/Operations.antt =====
-- The table of executions through `startDiagnosis`, `startRepair`, `finish` and `fail`.
use workshop_service.Base.{ℕ, ◌≡◌, not, ◌||◌, Option, some, arith, Bool-cases, inl, inr}
use workshop_service.Text.{Text}
use workshop_service.Errors.{Result, ok, err}
use workshop_service.Errors.Action.{Action, lift, pure, modify, ◌>>=◌, ◌>>◌}
use workshop_service.Errors.Post.{Post-state, keep-bind, keep-Post, keep-then}
use workshop_service.Messaging.{Outside, Fields}
use workshop_service.Execution.{Execution, Readings, in_diagnosis, finished, failed}
use workshop_service.Execution.Methods.{same_status, same_text}
use workshop_service.Execution.Lifecycle.{Command, obey}
use workshop_service.Execution.Repository.{World, ExecutionOrm, find_by_id, save}
use workshop_service.Execution.Publisher.{
  publish_event, require_execution, publish_started, publish_finished, publish_failed,
}
use workshop_service.Execution.Service.{
  load_execution, observe_duration, observe_duration_for_diagnosis, observe_duration_for_repair,
  observe_duration_for_finish, start_diagnosis, start_repair, finish, persist_diagnosis,
  save_diagnosis, persist_repair, save_repair, persist_finish, save_finish, persist_failure,
  announce_started, announce_finished, announce_failed, fail_loaded, fail, normalize_failure_code,
  normalize_failure_reason,
}
use workshop_service.Execution.Service.Consistency.{
  IsMoveOf, Safe, upsert-IsConsistent, save-Post, load_execution-Post, moved-Post,
}

observe_duration_keeps :
    (s : _) (n : _) (w : World) → (observe_duration s n w).executions ≡ w.executions
unfolding observe_duration
observe_duration_keeps s n w = ground arith

diagnosis_keeps :
    (e : Execution) (w : World) → (observe_duration_for_diagnosis e w).executions ≡ w.executions
unfolding observe_duration_for_diagnosis
diagnosis_keeps e w = ground arith

repair_keeps :
    (e : Execution) (w : World) → (observe_duration_for_repair e w).executions ≡ w.executions
unfolding observe_duration_for_repair
repair_keeps e w = ground arith

finish_keeps :
    (e : Execution) (w : World) → (observe_duration_for_finish e w).executions ≡ w.executions
unfolding observe_duration_for_finish
finish_keeps e w = ground arith

publish_event_keeps :
    (o : Outside) (name missing : Text) (payload : Fields) (at : Option ℕ) (e : Execution)
    (w : World)
    → (publish_event o name missing payload at e w).1.executions ≡ w.executions
unfolding publish_event
publish_event_keeps o name missing payload at e w = ground arith

require_execution_keeps :
    (orm : ExecutionOrm) (now : Readings) (id : Text) (w : World)
    → (require_execution orm now id w).1 ≡ w
unfolding require_execution find_by_id
require_execution_keeps orm now id w = ground arith

publish_started_keeps :
    (orm : ExecutionOrm) (o : Outside) (now : Readings) (id : Text) (w : World)
    → (publish_started orm o now id w).1.executions ≡ w.executions
unfolding publish_started
publish_started_keeps orm o now id w =
    grind (arith, require_execution_keeps orm now id w, publish_event_keeps)

publish_finished_keeps :
    (orm : ExecutionOrm) (o : Outside) (now : Readings) (id : Text) (w : World)
    → (publish_finished orm o now id w).1.executions ≡ w.executions
unfolding publish_finished
publish_finished_keeps orm o now id w =
    grind (arith, require_execution_keeps orm now id w, publish_event_keeps)

publish_failed_keeps :
    (orm : ExecutionOrm) (o : Outside) (now : Readings) (id code : Text) (w : World)
    → (publish_failed orm o now id code w).1.executions ≡ w.executions
unfolding publish_failed
publish_failed_keeps orm o now id code w =
    grind (arith, require_execution_keeps orm now id w, publish_event_keeps)

save_keeps :
    (orm : ExecutionOrm) (now : Readings) (e : Execution) (w : World)
    → Safe w
    → IsMoveOf w.executions e
    → Safe (save orm now e w).1
save_keeps orm now e w h m =
    Post-state Safe (λ _ _. Unit {0}) (save orm now e w)
      (save-Post orm now e w h (upsert-IsConsistent w.executions e h m))

-- The events are published with no change of the table.
announce_keeps :
    {A : Type 0} (m : Action World (Unit {0})) (a : A) (w : World)
    → (m w).1.executions ≡ w.executions
    → Safe w
    → Safe ((m >> pure a) w).1
announce_keeps m a w same h = keep-bind Safe (λ _. pure a) m w (rw same h) (λ _. rw same h)

module _ (orm : ExecutionOrm) (o : Outside) (now : Readings) where
  -- A save of a moved execution, then a duration that is observed or not.
  saved_then :
      (observe : Execution → World → World)
      → ((e : Execution) (w : World) → (observe e w).executions ≡ w.executions)
      → (e : Execution) (w : World) → Safe w
      → IsMoveOf w.executions e
      → Safe ((save orm now e >>= λ saved. modify (observe saved) >> pure saved) w).1
  saved_then observe same e w h m =
      keep-bind Safe (λ saved. modify (observe saved) >> pure saved) (save orm now e) w
        (save_keeps orm now e w h m)
        (λ saved. rw (same saved (save orm now e w).1) (save_keeps orm now e w h m))

  persist_diagnosis_keeps :
      (at : ℕ) (e : Execution) (w : World)
      → Safe w
      → IsMoveOf w.executions e
      → Safe (persist_diagnosis orm now at e w).1
  unfolding persist_diagnosis save_diagnosis obey
  persist_diagnosis_keeps at e w h m = elim (Bool-cases (same_status e.status in_diagnosis)) [
    | inl already ↦ rw already h
    | inr other ↦ rw other (
        moved-Post orm now Command.diagnose at e w (save_diagnosis orm now) h m
          (λ e' m'. saved_then observe_duration_for_diagnosis diagnosis_keeps e' w h m'))
  ]

  persist_repair_keeps :
      (at : ℕ) (e : Execution) (w : World)
      → Safe w
      → IsMoveOf w.executions e
      → Safe (persist_repair orm now at e w).1
  unfolding persist_repair save_repair obey
  persist_repair_keeps at e w h m =
      moved-Post orm now Command.repair at e w (save_repair orm now) h m
        (λ e' m'. saved_then observe_duration_for_repair repair_keeps e' w h m')

  persist_finish_keeps :
      (at : ℕ) (e : Execution) (w : World)
      → Safe w
      → IsMoveOf w.executions e
      → Safe (persist_finish orm now at e w).1
  unfolding persist_finish save_finish obey
  persist_finish_keeps at e w h m = elim (Bool-cases (same_status e.status finished)) [
    | inl already ↦ rw already h
    | inr other ↦ rw other (
        moved-Post orm now Command.complete at e w (save_finish orm now) h m
          (λ e' m'. saved_then observe_duration_for_finish finish_keeps e' w h m'))
  ]

  persist_failure_keeps :
      (at : ℕ) (code : Text) (reason : Option Text) (e : Execution) (w : World)
      → Safe w
      → IsMoveOf w.executions e
      → Safe (persist_failure orm now at code reason e w).1
  unfolding persist_failure obey
  persist_failure_keeps at code reason e w h m =
      elim (Bool-cases (
        not (same_status e.status failed)
        || not (same_text e.failure_code (some code))
        || not (same_text e.failure_reason reason))) [
          | inl other ↦ rw other (
              moved-Post orm now (Command.abort code reason) at e w (save orm now) h m
                (λ e' m'. save_keeps orm now e' w h m'))
          | inr already ↦ rw already h
        ]

  -- What a loaded execution is handed to.
  loaded_then :
      (f : Execution → Action World Execution) (id : Text) (w : World)
      → Safe w
      → ((e : Execution) (w' : World) → Safe w' → IsMoveOf w'.executions e → Safe (f e w').1)
      → Safe ((load_execution orm now id >>= f) w).1
  loaded_then f id w h k =
      keep-Post Safe f (λ e w'. IsMoveOf w'.executions e) (load_execution orm now id) w
        (load_execution-Post orm now id w h) (λ e h1 m. k e _ h1 m)

  pub start_diagnosis-Safe :
      (at : ℕ) (id : Text) (w : World) → Safe w → Safe (start_diagnosis orm o now at id w).1
  unfolding start_diagnosis announce_started
  start_diagnosis-Safe at id w h =
      keep-then Safe (announce_started orm o now)
        (load_execution orm now id >>= persist_diagnosis orm now at) w
        (loaded_then (persist_diagnosis orm now at) id w h (persist_diagnosis_keeps at))
        (λ e w' h'.
          announce_keeps (publish_started orm o now e.id) e w'
            (publish_started_keeps orm o now e.id w') h')

  pub start_repair-Safe :
      (at : ℕ) (id : Text) (w : World) → Safe w → Safe (start_repair orm now at id w).1
  unfolding start_repair
  start_repair-Safe at id w h =
      loaded_then (persist_repair orm now at) id w h (persist_repair_keeps at)

  pub finish-Safe : (at : ℕ) (id : Text) (w : World) → Safe w → Safe (finish orm o now at id w).1
  unfolding finish announce_finished
  finish-Safe at id w h =
      keep-then Safe (announce_finished orm o now)
        (load_execution orm now id >>= persist_finish orm now at) w
        (loaded_then (persist_finish orm now at) id w h (persist_finish_keeps at))
        (λ e w' h'.
          announce_keeps (publish_finished orm o now e.id) e w'
            (publish_finished_keeps orm o now e.id w') h')

  fail_loaded_keeps :
      (at : ℕ) (code : Text) (reason : Option Text) (e : Execution) (w : World)
      → Safe w
      → IsMoveOf w.executions e
      → Safe (fail_loaded orm o now at code reason e w).1
  unfolding fail_loaded
  fail_loaded_keeps at code reason e w h m = normalized (normalize_failure_code code)
    where
      normalized :
          (r : Result Text)
          → Safe
              ((lift r >>= λ c.
                  persist_failure orm now at c (normalize_failure_reason reason) e
                  >>= announce_failed orm o now c)
                w).1
      normalized (err f) = h
      normalized (ok c) =
          keep-then Safe (announce_failed orm o now c)
            (persist_failure orm now at c (normalize_failure_reason reason) e) w
            (persist_failure_keeps at c (normalize_failure_reason reason) e w h m)
            (λ e' w' h'.
              announce_keeps (publish_failed orm o now e'.id c) e' w'
                (publish_failed_keeps orm o now e'.id c w') h')

  pub fail-Safe :
      (at : ℕ) (id code : Text) (reason : Option Text) (w : World)
      → Safe w
      → Safe (fail orm o now at id code reason w).1
  unfolding fail
  fail-Safe at id code reason w h =
      loaded_then (fail_loaded orm o now at code reason) id w h (fail_loaded_keeps at code reason)
