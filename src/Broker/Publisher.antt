-- ===== src/Broker/Publisher.antt =====
-- RabbitMqPublisher (messaging/rabbitmq-broker.ts).
use workshop_service.Base.{ℕ, suc, List, ◌∷◌}
use workshop_service.Number.{Number}
use workshop_service.Text.{Text, text}
use workshop_service.Errors.{Result, ok, err, ◌>>◌}
use workshop_service.Messaging.{BrokerMessage, str, num, Fields, end, field}
use workshop_service.Broker.{Publication, Delivery}

-- What the publisher reaches: RabbitMqConnection.getChannel, the channel, which asserts an exchange
-- or throws and confirms a publication or not, `JSON.stringify`, and the clock.
pub record PublisherEnv : Type 0 where
  pub get_channel : Result (Unit {0})
  pub assert_exchange : Text → Result (Unit {0})
  pub confirm : Publication → Result (Unit {0})
  pub stringify : BrokerMessage → Text
  pub now : Number

-- What has been confirmed, and the metric of the failures.
pub record Publisher : Type 0 where
  pub confirmed : List Publication
  pub failures : ℕ

-- `headers`
unfoldable pub headers : BrokerMessage → Fields
headers m = field (text "correlationId") (str m.correlation_id) (
    field (text "causationId") (str m.causation_id) (
      field (text "sagaId") (str m.saga_id)
        (field (text "eventVersion") (num m.event_version) end)))

-- The arguments of `publishConfirmed`.
unfoldable pub publication : PublisherEnv → Text → Text → BrokerMessage → Publication
unfolding headers
publication env exchange routing_key m = record {
  exchange = exchange;
  routing_key = routing_key;
  content = env.stringify m;
  headers = headers m;
  properties =
      field (text "contentType") (str (text "application/json"))
        (field (text "messageId") (str m.event_id) (field (text "timestamp") (num env.now) end));
}

-- The `try` block, up to the log.
unfoldable pub attempt : PublisherEnv → Publication → Result (Unit {0})
attempt env p = do env.get_channel; env.assert_exchange p.exchange; env.confirm p

abbrev pub concluded : Publication → Publisher → Result (Unit {0}) → Result (Unit {0}) × Publisher
concluded p s (ok done) = (ok tt, record s { confirmed = p ∷ s.confirmed })
concluded p s (err f) = (err f, record s { failures = suc s.failures })

-- `publish`
unfoldable pub publish :
    PublisherEnv → Text → Text → BrokerMessage → Publisher → Result (Unit {0}) × Publisher
unfolding attempt publication
publish env exchange routing_key m s =
    let p = publication env exchange routing_key m in concluded p s (attempt env p)

-- The delivery of a publication to a queue that is bound to its exchange.
abbrev pub delivered : Publication → Delivery
delivered p = record {
  content = p.content;
  exchange = p.exchange;
  routing_key = p.routing_key;
  headers = p.headers;
  properties = p.properties;
}
