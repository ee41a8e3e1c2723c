-- ===== src/Events/Executions.antt =====
-- ExecutionEventsService (messaging/execution-events.service.ts).
use workshop_service.Base.{true, some, ◌≡◌, All, ◌∙◌, ap}
use workshop_service.Text.{text}
use workshop_service.Errors.{ok}
use workshop_service.Errors.Action.{Action, pure, lift, ◌>>=◌}
use workshop_service.Messaging.{BrokerMessage}
use workshop_service.Consumed.{MessageKey, Ledger}
use workshop_service.Execution.{Readings, Execution}
use workshop_service.Execution.Identity.{Identity}
use workshop_service.Execution.Repository.{World, ExecutionOrm}
use workshop_service.Execution.Service.{create_queued_execution}
use workshop_service.Persistence.{Answers}
use workshop_service.Execution.Mapper.{IsStorable}
use workshop_service.Execution.Service.Creation.{create_queued_execution_again}
use workshop_service.Events.Once.{consume_once_inert}
use workshop_service.Events.{Consuming, Visit, consume_once}
use workshop_service.Events.Requests.{Dates, as_execution_requested}

-- `EXECUTION_REQUEST_CONSUMER`, and the event.
unfoldable pub execution_key : BrokerMessage → MessageKey
execution_key input = record {
  consumer_name = text "workshop-execution-requested";
  event_id = input.event_id;
}

-- The arguments of `createQueuedExecution`.
unfoldable pub identity_of : BrokerMessage → Identity
identity_of input = record {
  saga_id = input.saga_id;
  order_id = input.order_id;
  request_event_id = some input.event_id;
  correlation_id = some input.correlation_id;
}

-- `consumeExecutionRequested`, from the validated request on.
unfoldable pub consume_execution :
    ExecutionOrm → Readings → Visit → BrokerMessage → Action (Consuming World) (Unit {0})
unfolding execution_key identity_of
consume_execution orm now v input =
    consume_once true (execution_key input) v
      (create_queued_execution orm now (identity_of input) >>= λ _. pure tt)

-- `consumeExecutionRequested`
unfoldable pub consume_execution_requested :
    Dates → ExecutionOrm → Readings → Visit → BrokerMessage → Action (Consuming World) (Unit {0})
unfolding consume_execution as_execution_requested
consume_execution_requested dates orm now v message =
    lift (as_execution_requested dates message) >>= consume_execution orm now v

module _ (dates : Dates) (orm : ExecutionOrm) (up : Answers orm) (message input : BrokerMessage)
    (accepted : as_execution_requested dates message ≡ ok input) (now later : Readings) where
  -- Once the execution of an accepted request has been created or found, on a database that
  -- answers and whose rows have accepted identifiers, no later delivery of the request changes
  -- the executions, the publications or the durations, whatever the ledger has kept of the
  -- earlier ones: the mark may be lost, and the claim expired.
  pub consume_execution_requested_again :
      (v : Visit) (w w' : World) (e : Execution) (t : Ledger)
      → All IsStorable w.executions
      → create_queued_execution orm now (identity_of input) w ≡ (ok e, w')
      → (consume_execution_requested dates orm later v message
          (record { service = w'; ledger = t })).1.service
        ≡ w'
  unfolding consume_execution_requested consume_execution
  consume_execution_requested_again v w w' e t storable made =
      let again : create_queued_execution orm later (identity_of input) w' ≡ (ok e, w') =
        create_queued_execution_again orm up now later (identity_of input) w w' e storable made in
      ap
        (λ r.
          ((lift r >>= consume_execution orm later v)
            (record { service = w'; ledger = t })).1.service)
        accepted
      ∙ consume_once_inert true (execution_key input) v
          (create_queued_execution orm later (identity_of input) >>= λ _. pure tt)
          (record { service = w'; ledger = t })
          (ap (λ y. (((λ _. y) >>= λ (_ : Execution). pure tt) w').1) again)
