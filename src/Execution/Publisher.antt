-- ===== src/Execution/Publisher.antt =====
-- ExecutionRabbitMqPublisher (messaging/execution-rabbitmq.publisher.ts): the events of an
-- execution, built from its stored state.
use workshop_service.Base.{ℕ, Option, none, some, [], ◌∷◌, ◌++◌, if◌then◌else◌}
use workshop_service.Number.{number}
use workshop_service.Text.{Text, text, is_empty}
use workshop_service.IsoDate.{to_iso_string}
use workshop_service.Errors.{Result, ok, err, error, or_raise}
use workshop_service.Errors.Action.{Action, lift, ◌>>=◌}
use workshop_service.Messaging.{
  object, str, end, field, Fields, BrokerMessage, Published, Outside, create_deterministic_event_id,
}
use workshop_service.Execution.{Execution, Readings}
use workshop_service.Execution.Repository.{World, ExecutionOrm, find_by_id}

-- `publisher.publish(exchange, routingKey, message)`: a confirmed message has been sent.
unfoldable pub publish : Outside → Published → Action World (Unit {0})
publish o m w = elim (o.confirm m) [
  | ok done ↦ (ok tt, record w { published = w.published ++ (m ∷ []) })
  | err f ↦ (err f, w)
]

-- `requireExecution`
unfoldable pub require_execution : ExecutionOrm → Readings → Text → Action World Execution
require_execution orm now id = do
  found ← find_by_id orm now id
  lift (or_raise found (error (text "Execution not found for event publication.")))

-- `!value` is also true of the empty string.
abbrev pub require_text : Text → Option Text → Result Text
require_text message none = err (error message)
require_text message (some value) = if is_empty value then err (error message) else ok value

-- `requireRequestEventId`
unfoldable pub require_request_event_id : Option Text → Result Text
require_request_event_id = require_text (text "Execution request event context is required.")

-- `requireCorrelationId`
unfoldable pub require_correlation_id : Option Text → Result Text
require_correlation_id = require_text (text "Execution correlation context is required.")

-- The message of an event, from the stored execution and the time of its transition.
unfoldable pub event_message : Outside → Text → Fields → ℕ → Execution → Result BrokerMessage
event_message o event_name payload at e =
    let request = require_request_event_id e.request_event_id in
    elim request [
      | err f ↦ err f
      | ok request_event_id ↦ elim (require_correlation_id e.correlation_id) [
        | err f ↦ err f
        | ok correlation_id ↦ ok (record {
          event_id =
              create_deterministic_event_id o event_name (e.saga_id ++ (b':' ∷ e.order_id))
                request_event_id;
          event_name = event_name;
          event_version = number 1;
          occurred_at = to_iso_string at;
          correlation_id = correlation_id;
          causation_id = request_event_id;
          saga_id = e.saga_id;
          order_id = e.order_id;
          payload = object payload;
        })
      ]
    ]

-- From the execution on: its transition time is required, then the message is built and sent.
unfoldable pub publish_event :
    Outside → Text → Text → Fields → Option ℕ → Execution → Action World (Unit {0})
unfolding event_message publish
publish_event o event_name missing payload transition e = do
  at ← lift (or_raise transition (error missing))
  message ← lift (event_message o event_name payload at e)
  publish o
      (record { exchange = text "workshop.topic"; routing_key = event_name; message = message })

-- `publishStarted`
unfoldable pub publish_started : ExecutionOrm → Outside → Readings → Text → Action World (Unit {0})
unfolding publish_event
publish_started orm o now id = do
  e ← require_execution orm now id
  publish_event o (text "execution.started") (text "Execution diagnosis timestamp is required.") end
      e.diagnosis_started_at e

-- `publishFinished`
unfoldable pub publish_finished : ExecutionOrm → Outside → Readings → Text → Action World (Unit {0})
unfolding publish_event
publish_finished orm o now id = do
  e ← require_execution orm now id
  publish_event o (text "execution.finished") (text "Execution finished timestamp is required.") end
      e.finished_at e

-- `publishFailed`
unfoldable pub publish_failed :
    ExecutionOrm → Outside → Readings → Text → Text → Action World (Unit {0})
unfolding publish_event
publish_failed orm o now id failure_code = do
  e ← require_execution orm now id
  publish_event o (text "execution.failed") (text "Execution failed timestamp is required.")
      (field (text "failureCode") (str failure_code) end) e.failed_at e
