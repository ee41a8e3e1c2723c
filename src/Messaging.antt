-- ===== src/Messaging.antt =====
-- The envelope of a message (contracts/order-flow-message.interface.ts, BrokerMessage in
-- messaging/rabbitmq-broker.ts), its payload as the JSON value that it is, and the identifiers
-- that are derived from it.
use workshop_service.Base.{Bool, ◌∷◌, ◌++◌}
use workshop_service.Number.{Number}
use workshop_service.Text.{Text}
use workshop_service.Errors.{Result}

-- A value of type `unknown`.
mutual
  pub data Value : Type 0 where
    undefined null : Value
    boolean : Bool → Value
    num : Number → Value
    str : Text → Value
    array : Items → Value
    object : Fields → Value

  pub data Items : Type 0 where
    nil : Items
    cons : Value → Items → Items

  pub data Fields : Type 0 where
    end : Fields
    field : Text → Value → Fields → Fields

pub record BrokerMessage : Type 0 where
  pub event_id : Text
  pub event_name : Text
  pub event_version : Number
  pub occurred_at : Text
  pub correlation_id : Text
  pub causation_id : Text
  pub saga_id : Text
  pub order_id : Text
  pub payload : Value

-- A message that the broker has confirmed.
pub record Published : Type 0 where
  pub exchange : Text
  pub routing_key : Text
  pub message : BrokerMessage

-- What the services reach outside of the program: the hash of node:crypto, in hexadecimal, and
-- the broker, which confirms a message or not.
pub record Outside : Type 0 where
  pub sha256 : Text → Text
  pub confirm : Published → Result (Unit {0})

-- `createDeterministicEventId` (common/events/deterministic-event-id.ts)
unfoldable pub create_deterministic_event_id : Outside → Text → Text → Text → Text
create_deterministic_event_id o event_name aggregate_id transition =
    o.sha256 (event_name ++ (0x1f ∷ (aggregate_id ++ (0x1f ∷ transition))))
