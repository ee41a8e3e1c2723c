-- ===== src/Tests/Connections.antt =====
-- The connection to the broker and the publisher: the theorems at concrete inputs.
use workshop_service.Base.{
  ℕ, ◌+◌, ◌≡◌, ◌≢◌, refl, ◌⊎◌, true, some, none, List, [], ◌∷◌, is_some, if◌then◌else◌,
}
use workshop_service.Number.{number}
use workshop_service.Text.{text}
use workshop_service.Errors.{ok, err, error, Failure}
use workshop_service.Messaging.{BrokerMessage, null}
use workshop_service.Broker.{acknowledged, handle_message, handled}
use workshop_service.Broker.Connection.{
  Connection, Settings, Event, asked, connects, creates, destroys, destroy_continues,
  connection_lost, closing_channel, fulfilled, settled, absent, opened, closed, get_channel, react,
}
use workshop_service.Broker.Lifetimes.{
  new_connection, react_all, IsSound, IsDown, connection-IsSound, shutdown_final,
  get_channel_promised, channel_recovered,
}
use workshop_service.Broker.Publisher.{PublisherEnv, Publisher, publication, delivered}
use workshop_service.Broker.Sent.{IsSent, IsUnsent, publish_lem, retry_of, publish-handle_message}
use workshop_service.Tests.Messages.{broker, channel, failing}

abbrev settings : Settings
settings = record { enabled = true; url = some (text "amqp://localhost") }

abbrev opening_events : List Event
opening_events = asked ∷ connects 0 ∷ creates 0 ∷ []

abbrev up : Connection
up = react_all settings opening_events new_connection

connection-IsSound_example : IsSound up
connection-IsSound_example = connection-IsSound settings opening_events

abbrev ending_events : List Event
ending_events = asked ∷ connects 0 ∷ creates 0 ∷ destroys ∷ []

abbrev down : Connection
down = react_all settings ending_events new_connection

abbrev after_down : Connection
after_down = react_all settings (destroy_continues ∷ asked ∷ []) down

shutdown_final_example :
    IsDown after_down
    × (after_down.next ≡ down.next)
    × (get_channel settings after_down
        ≡ (err (Failure.error (text "Messaging is shutting down.")), after_down))
    × ((n : ℕ)
        → (((after_down.attempts n).connection ≡ absent)
            ⊎ ((after_down.attempts n).connection ≡ closed))
          ⊎ (((after_down.attempts n).progress ≡ closing_channel)
              ⊎ (after_down.pending_close ≡ some n)))
unfolding react_all react text
shutdown_final_example = shutdown_final settings ending_events (destroy_continues ∷ asked ∷ []) refl

abbrev asked_again : Connection
asked_again = (get_channel settings up).1

get_channel_promised_example :
    (n : ℕ) × ((get_channel settings up).0 ≡ ok n)
    × (asked_again.channel_promise ≡ some n)
    × (asked_again.next ≡ up.next + (if is_some up.channel_promise then 0 else 1))
    × ((asked_again.attempts n).progress ≢ settled)
    × (((asked_again.attempts n).progress ≢ fulfilled)
        ⊎ ((asked_again.channel ≡ some n)
            × (asked_again.connection ≡ some n)
            × ((asked_again.attempts n).connection ≡ opened)))
unfolding react_all react text
get_channel_promised_example = get_channel_promised settings opening_events refl refl

channel_recovered_example :
    ((react settings (connection_lost 0) up).emitted ≡ none)
    × ((react settings (connection_lost 0) up).channel ≡ none)
    × ((react_all settings
          (asked ∷ connects 1 ∷ creates 1 ∷ [])
          (react settings (connection_lost 0) up)).emitted
        ≡ some 1)
    × ((react_all settings
          (asked ∷ connects 1 ∷ creates 1 ∷ [])
          (react settings (connection_lost 0) up)).channel
        ≡ some 1)
    × ((react_all settings
          (asked ∷ connects 1 ∷ creates 1 ∷ [])
          (react settings (connection_lost 0) up)).connection
        ≡ some 1)
    × ((react_all settings
          (asked ∷ connects 1 ∷ creates 1 ∷ [])
          (react settings (connection_lost 0) up)).channel_promise
        ≡ some 1)
unfolding react_all react text
channel_recovered_example = channel_recovered settings up 0 refl refl refl refl

abbrev publisher : PublisherEnv
publisher = record {
  get_channel = ok tt;
  assert_exchange = λ e. ok tt;
  confirm = λ p. ok tt;
  stringify = λ m. m.event_id;
  now = number 1700;
}

abbrev message : BrokerMessage
message = record {
  event_id = text "e-1";
  event_name = text "workshop.stock.reserved";
  event_version = number 1;
  occurred_at = text "2026-01-01T00:00:00.000Z";
  correlation_id = text "c-1";
  causation_id = text "e-0";
  saga_id = text "saga-1";
  order_id = text "order-1";
  payload = null;
}

abbrev nothing_sent : Publisher
nothing_sent = record { confirmed = []; failures = 0 }

publish_lem_example :
    IsSent publisher (text "workshop.topic") (text "stock.reserved") message nothing_sent
    ⊎ IsUnsent publisher (text "workshop.topic") (text "stock.reserved") message nothing_sent
publish_lem_example =
    publish_lem publisher (text "workshop.topic") (text "stock.reserved") message nothing_sent

publish-handle_message_example :
    handle_message broker failing
      (delivered (publication publisher (text "workshop.topic") (text "stock.reserved") message))
      channel
    ≡ record (handled failing (broker.parse (text "e-1")) channel).1 {
      ending = acknowledged;
      confirmed =
          retry_of publisher broker (text "workshop.topic") (text "stock.reserved") message ∷ [];
    }
publish-handle_message_example =
    publish-handle_message publisher broker (text "workshop.topic") (text "stock.reserved") message
      failing channel (error (text "Unsupported workshop stock message.")) refl refl refl refl
