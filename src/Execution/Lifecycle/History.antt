-- ===== src/Execution/Lifecycle/History.antt =====
-- Every history of calls on one execution, from its creation.
use workshop_service.Base.{
  ℕ, ◌≤◌, ◌≡◌, refl, true, Option, none, some, List, [], ◌∷◌, arith, ◌≢◌, get_or,
}
use workshop_service.Text.{Text}
use workshop_service.Errors.{Result, ok, err}
use workshop_service.Errors.Action.{lift, ◌>>=◌}
use workshop_service.Execution.{
  queued, in_diagnosis, finished, Execution, ExecutionProps, Readings, create,
  sanitize_failure_code, sanitize_failure_reason,
}
use workshop_service.Text.Laws.{===-refl}
use workshop_service.Execution.Methods.{is_terminal, same_text, fail_with}
use workshop_service.Execution.Lifecycle.{Command, obey, IsCoherent, obey-IsCoherent}

-- The calls of a history in turn, each at its reading of the clock. What throws is skipped, as
-- the execution is then left to the next call.
unfoldable pub obey_all : List (Command × ℕ) → Execution → Execution
obey_all [] e = e
obey_all ((c, now) ∷ cs) e = obey_all cs (obey c now e).1

pub obey_all-IsCoherent :
    (cs : List (Command × ℕ)) (e : Execution) → IsCoherent e → IsCoherent (obey_all cs e)
unfolding obey_all
obey_all-IsCoherent [] e h = h
obey_all-IsCoherent ((c, now) ∷ cs) e h =
    obey_all-IsCoherent cs (obey c now e).1 (obey-IsCoherent c now e h)

create-IsCoherent :
    (now : Readings) (props : ExecutionProps) (e : Execution)
    → props.failure_code ≡ none
    → props.failure_reason ≡ none
    → create now props ≡ ok e
    → IsCoherent e
unfolding create
create-IsCoherent now props e fc fr h = ground arith

-- An execution that was created with no failure is coherent after any history of calls: a
-- started, finished or failed one has the times and the code that its status asks for, and only
-- a failed one has a failure.
pub history-IsCoherent :
    (now : Readings) (props : ExecutionProps) (cs : List (Command × ℕ)) (e : Execution)
    → props.failure_code ≡ none
    → props.failure_reason ≡ none
    → create now props ≡ ok e
    → IsCoherent (obey_all cs e)
history-IsCoherent now props cs e fc fr h =
    obey_all-IsCoherent cs e (create-IsCoherent now props e fc fr h)

obey_of_terminal :
    (c : Command) (now : ℕ) (e : Execution) → is_terminal e ≡ true → (obey c now e).1 ≡ e
unfolding obey
obey_of_terminal Command.diagnose now e h = ground arith
obey_of_terminal _ now e h = ground arith

-- A finished or failed execution stays as it is under any history of calls.
pub terminal_absorbs :
    (cs : List (Command × ℕ)) (e : Execution) → is_terminal e ≡ true → obey_all cs e ≡ e
unfolding obey_all
terminal_absorbs [] e h = refl
terminal_absorbs ((c, now) ∷ cs) e h = rw (obey_of_terminal c now e h) (terminal_absorbs cs e h)

pub same_text_refl : (t : Option Text) → same_text t t ≡ true
same_text_refl none = refl
same_text_refl (some t) = ===-refl t

fail_with_again :
    (code : Text) (reason : Option Text) (now later : ℕ) (e : Execution)
    → (fail_with code reason now e).0 ≡ ok tt
    → fail_with code reason later (fail_with code reason now e).1
      ≡ (ok tt, (fail_with code reason now e).1)
unfolding fail_with
fail_with_again code reason now later e h = ground (arith, ===-refl code, same_text_refl reason)

fail_again :
    (r : Result Text) (reason : Option Text) (now later : ℕ) (e : Execution)
    → ((lift r >>= λ code. fail_with code reason now) e).0 ≡ ok tt
    → (lift r >>= λ code. fail_with code reason later)
        ((lift r >>= λ code. fail_with code reason now) e).1
      ≡ (ok tt, ((lift r >>= λ code. fail_with code reason now) e).1)
fail_again (ok code) reason now later e h = fail_with_again code reason now later e h
fail_again (err f) reason now later e h = cc

-- A call that returned returns again, at any later time, and changes nothing more.
pub obey_again :
    (c : Command) (now later : ℕ) (e : Execution)
    → (obey c now e).0 ≡ ok tt
    → obey c later (obey c now e).1 ≡ (ok tt, (obey c now e).1)
unfolding obey
obey_again Command.diagnose now later e h = ground arith
obey_again (Command.abort code reason) now later e h =
    fail_again (sanitize_failure_code code) (sanitize_failure_reason reason) now later e h
obey_again _ now later e h = ground arith

-- The times of an execution are in the order of its life, and none lies ahead of the clock.
pub record IsOrdered (now : ℕ) (e : Execution) : Type 0 where
  pub queued_past : e.queued_at ≤ now
  pub diagnosis_past : e.queued_at ≤ get_or e.diagnosis_started_at now
  pub diagnosis_now : get_or e.diagnosis_started_at now ≤ now
  pub repair_after : get_or e.diagnosis_started_at e.queued_at ≤ get_or e.repair_started_at now
  pub repair_now : get_or e.repair_started_at now ≤ now
  pub finish_after :
      get_or e.repair_started_at (get_or e.diagnosis_started_at e.queued_at)
      ≤ get_or e.finished_at now
  pub finish_now : get_or e.finished_at now ≤ now
  pub fresh : e.status ≡ queued → e.diagnosis_started_at ≡ none
  pub unrepaired : e.status ≡ in_diagnosis → e.repair_started_at ≡ none
  pub fresh_repair : e.status ≡ queued → e.repair_started_at ≡ none
  pub unfinished : e.status ≢ finished → e.finished_at ≡ none

obey-IsOrdered :
    (c : Command) (now later : ℕ) (e : Execution)
    → now ≤ later
    → IsOrdered now e
    → IsOrdered later (obey c later e).1
unfolding obey
obey-IsOrdered Command.diagnose now later e le h = ground arith
obey-IsOrdered _ now later e le h = ground arith

-- The clock does not go back from `now` through a history.
abbrev pub Rising : ℕ → List (Command × ℕ) → Type 0
Rising now [] = Unit
Rising now ((c, later) ∷ cs) = (now ≤ later) × Rising later cs

-- The last reading of the clock.
abbrev pub ending : ℕ → List (Command × ℕ) → ℕ
ending now [] = now
ending now ((c, later) ∷ cs) = ending later cs

-- Under a clock that does not go back, the times of an execution that starts so stay in the order of its life:
-- queued, diagnosis, repair and finish, as far as they are set, and none lies ahead of the clock.
pub history-IsOrdered :
    (cs : List (Command × ℕ)) (now : ℕ) (e : Execution)
    → Rising now cs
    → IsOrdered now e
    → IsOrdered (ending now cs) (obey_all cs e)
unfolding obey_all
history-IsOrdered [] now e rise h = h
history-IsOrdered ((c, later) ∷ cs) now e rise h =
    history-IsOrdered cs later (obey c later e).1 rise.1 (obey-IsOrdered c now later e rise.0 h)
