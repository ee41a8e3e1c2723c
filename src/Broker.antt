-- ===== src/Broker.antt =====
-- The consumers of the broker (messaging/rabbitmq-broker.ts): what becomes of one delivery.
pub mod Connection
pub mod Deliveries
pub mod Lifetimes
pub mod Links
pub mod Publisher
pub mod Recovery
pub mod Sent
pub mod Watched
use workshop_service.Base.{
  ℕ, suc, ◌≡◌, Bool, true, false, Option, none, some, List, [], ◌∷◌, ◌++◌, get_or, if◌then◌else◌,
}
use workshop_service.Number.{Number, number, plus, less}
use workshop_service.Text.{Text, text, ◌===◌}
use workshop_service.Errors.{Failure, Result, ok, err}
use workshop_service.Errors.Action.{Action}
use workshop_service.Messaging.{Value, undefined, null, num, Fields, end, field}

-- `headers[key]`
unfoldable pub field_of : Text → Fields → Value
field_of key end = undefined
field_of key (field name value rest) = if name === key then value else field_of key rest

-- `{ ...fields, [key]: value }`: a key that is there keeps its place.
unfoldable pub set_field : Text → Value → Fields → Fields
set_field key value end = field key value end
set_field key value (field name old rest) =
    if name === key then field name value rest else field name old (set_field key value rest)

-- `amqplib`'s ConsumeMessage, as far as it is read. The other properties travel as they are.
pub record Delivery : Type 0 where
  pub content : Text
  pub exchange : Text
  pub routing_key : Text
  pub headers : Fields
  pub properties : Fields

-- A publication with `persistent` set.
pub record Publication : Type 0 where
  pub exchange : Text
  pub routing_key : Text
  pub content : Text
  pub headers : Fields
  pub properties : Fields

-- What the consumer reaches: `JSON.parse`, `Number`, the configured limit, and the channel, which
-- confirms a publication or not, and takes an acknowledgement or throws when it is closed.
pub record ConsumerEnv : Type 0 where
  pub parse : Text → Result Value
  pub to_number : Value → Number
  pub to_number-num : (n : Number) → to_number (num n) ≡ n
  pub max_retries : Number
  pub confirm : Publication → Result (Unit {0})
  pub ack : Result (Unit {0})
  pub nack : Result (Unit {0})

-- The service behind the handler, what the channel has confirmed, and how the delivery ended.
pub data Ending : Type 0 where
  pending acknowledged requeued : Ending

pub record Channel (S : Type 0) : Type 0 where
  pub service : S
  pub confirmed : List Publication
  pub ending : Ending
  pub failures : ℕ

abbrev pub retry_count_header : Text
retry_count_header = text "x-retry-count"

-- `v ?? 0`
abbrev pub or_zero : Value → Value
or_zero undefined = num (number 0)
or_zero null = num (number 0)
or_zero v = v

unfoldable pub retry_count : ConsumerEnv → Delivery → Number
unfolding field_of
retry_count env d = env.to_number (or_zero (field_of retry_count_header d.headers))

unfoldable pub should_retry : ConsumerEnv → Delivery → Bool
unfolding retry_count
should_retry env d = less (retry_count env d) env.max_retries

-- The message that `republishFailure` sends: to the retry exchange, or to the dead letters.
unfoldable pub republication : ConsumerEnv → Delivery → Publication
unfolding should_retry retry_count set_field
republication env d = record {
  exchange = if should_retry env d then d.exchange ++ text ".retry" else text "dead-letter.topic";
  routing_key =
      if should_retry env d then d.routing_key else d.exchange ++ (text "." ++ d.routing_key);
  content = d.content;
  headers = set_field retry_count_header (num (plus (retry_count env d) (number 1))) d.headers;
  properties = d.properties;
}

module _ {S : Type 0} where
  -- `channel.ack` and `channel.nack(delivery, false, true)`
  unfoldable pub acknowledge : ConsumerEnv → Action (Channel S) (Unit {0})
  acknowledge env c = elim env.ack [
    | ok done ↦ (ok tt, record c { ending = acknowledged })
    | err f ↦ (err f, c)
  ]

  -- The inner `try` and `catch` around `nack`.
  unfoldable pub requeue : ConsumerEnv → Channel S → Channel S
  requeue env c = elim env.nack [
    | ok done ↦ record c { ending = requeued; failures = suc c.failures }
    | err f ↦ record c { failures = suc c.failures }
  ]

  -- `publishConfirmed`
  unfoldable pub send : ConsumerEnv → Publication → Action (Channel S) (Unit {0})
  send env p c = elim (env.confirm p) [
    | ok done ↦ (ok tt, record c { confirmed = p ∷ c.confirmed })
    | err f ↦ (err f, c)
  ]

  -- The end of a `try` block whose `catch` block puts the delivery back.
  abbrev pub or_requeue : ConsumerEnv → Result (Unit {0}) × Channel S → Channel S
  or_requeue env (ok done, c) = c
  or_requeue env (err f, c) = requeue env c

  abbrev pub then_acknowledge :
      ConsumerEnv → Result (Unit {0}) × Channel S → Result (Unit {0}) × Channel S
  then_acknowledge env (ok done, c) = acknowledge env c
  then_acknowledge env (err f, c) = (err f, c)

  -- `republishFailure`
  unfoldable pub republish_failure : ConsumerEnv → Delivery → Channel S → Channel S
  unfolding republication send acknowledge requeue
  republish_failure env d c =
      or_requeue env (then_acknowledge env (send env (republication env d) c))

  abbrev pub or_republish : ConsumerEnv → Delivery → Result (Unit {0}) × Channel S → Channel S
  or_republish env d (ok done, c) = c
  or_republish env d (err f, c) = republish_failure env d c

  -- The handler on the parsed message, within the state of the channel.
  abbrev pub handled :
      (Value → Action S (Unit {0})) → Result Value → Channel S → Result (Unit {0}) × Channel S
  handled handler (ok message) c =
      let (r, s) = handler message c.service in (r, record c { service = s })
  handled handler (err f) c = (err f, c)

  -- `handleMessage`, of a delivery that is not `null`.
  unfoldable pub handle_message :
      ConsumerEnv → (Value → Action S (Unit {0})) → Delivery → Channel S → Channel S
  unfolding acknowledge republish_failure
  handle_message env handler d c =
      or_republish env d (then_acknowledge env (handled handler (env.parse d.content) c))
