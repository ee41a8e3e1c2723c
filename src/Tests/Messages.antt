-- ===== src/Tests/Messages.antt =====
-- The ledger of consumed messages and the broker: the theorems at concrete inputs.
use workshop_service.Base.{ℕ, ◌≡◌, refl, ◌⊎◌, none, some, List, [], ◌∷◌, arith, ltb, ◌+◌, ◌-◌, ◌≤◌}
use workshop_service.Number
use workshop_service.Number.{number}
use workshop_service.Text.{text}
use workshop_service.Errors.{ok, err, error}
use workshop_service.Errors.Action.{Action}
use workshop_service.Messaging.{Value, undefined, null, boolean, num, str, array, object, end}
use workshop_service.Consumed.{processed, MessageRow, MessageKey, Ledger, Attempt, put, insert_row}
use workshop_service.Consumed.Workers.{
  Pc, started, System, at, Tokens, begin, run, Reach, start, later, here, more, advance,
}
use workshop_service.Consumed.Exclusion.{claims_exclude}
use workshop_service.Consumed.Processed.{processed_stays}
use workshop_service.Broker.{
  Delivery, ConsumerEnv, Channel, pending, handle_message, handled, republication, retry_count,
  should_retry, field_of, republish_failure, send, acknowledge, requeue,
}
use workshop_service.Broker.Deliveries.{acknowledged_kept, IsRetryOf, first, again, Retries-bounded}
use workshop_service.Broker.Recovery.{
  Event, subscribes, timer_fires, throws, channel_given, prefetched, queue_asserted,
  consumer_started, channel_opens,
}

abbrev pub key : MessageKey
key = record { consumer_name = text "workshop-stock-reserve-requested"; event_id = text "e-1" }

abbrev pub empty_ledger : Ledger
empty_ledger k = none

-- Tokens of one unit each.
numbered : (i j : ℕ) → (i ∷ []) ≡ (j ∷ []) → i ≡ j
numbered i j e = cc e

abbrev tokens : Tokens
tokens = record { token = λ i. i ∷ []; distinct = numbered }

abbrev attempt : Attempt
attempt = record { key = key; now = 5; token = 0 ∷ []; lease = 300 }

-- The first worker has claimed the event.
abbrev after_claim : System
after_claim = record {
  clock = 5;
  ledger = (advance (started attempt) empty_ledger).0;
  pc = at (at (λ i. Pc.waiting) 0 (started attempt)) 0 (advance (started attempt) empty_ledger).1;
}

reached : Reach tokens after_claim
reached = later (later (start 5 empty_ledger) (begin 0 key 300 refl)) (run 0)

claims_exclude_example : ◌≡◌ {A = ℕ} 0 0
unfolding advance insert_row put
claims_exclude_example =
    claims_exclude tokens after_claim 0 0 attempt attempt reached refl refl refl (omega arith)
      (omega arith)

abbrev done_row : MessageRow
done_row = record {
  status = processed;
  claim_token = none;
  processing_started_at = none;
  lease_expires_at = none;
  processed_at = some 4;
}

abbrev done_ledger : Ledger
done_ledger k = some done_row

-- A worker that comes to an event which is processed, and inserts in vain.
abbrev late : System
late = record { clock = 5; ledger = done_ledger; pc = at (λ i. Pc.waiting) 0 (started attempt) }

abbrev turned_away : System
turned_away = record late {
  ledger = (advance (started attempt) done_ledger).0;
  pc = at late.pc 0 (advance (started attempt) done_ledger).1;
}

processed_stays_example : turned_away.ledger key ≡ some done_row
processed_stays_example =
    processed_stays tokens key done_row refl late turned_away (more here (run 0)) refl

-- `Number` of the values that the header may have, and a channel that confirms everything.
abbrev pub as_number : Value → Number.Number
as_number (num n) = n
as_number undefined = Number.nan
as_number null = number 0
as_number (boolean b) = number 0
as_number (str s) = Number.nan
as_number (array items) = Number.nan
as_number (object fields) = Number.nan

abbrev pub broker : ConsumerEnv
broker = record {
  parse = λ s. ok (str s);
  to_number = as_number;
  to_number-num = λ n. refl;
  max_retries = number 3;
  confirm = λ p. ok tt;
  ack = ok tt;
  nack = ok tt;
}

abbrev delivery : Delivery
delivery = record {
  content = text "{}";
  exchange = text "workshop.topic";
  routing_key = text "stock.reserve.requested";
  headers = end;
  properties = end;
}

abbrev pub channel : Channel ℕ
channel = record { service = 0; confirmed = []; ending = pending; failures = 0 }

-- A handler that counts and throws.
abbrev pub failing : Value → Action ℕ (Unit {0})
failing message n = (err (error (text "Unsupported workshop stock message.")), n + 1)

acknowledged_kept_example :
    ((handled failing (broker.parse delivery.content) channel).0 ≡ ok tt)
    ⊎ ((handle_message broker failing delivery channel).confirmed
        ≡ republication broker delivery ∷ channel.confirmed)
unfolding handle_message republish_failure send acknowledge requeue
acknowledged_kept_example = acknowledged_kept broker failing delivery channel refl refl

-- The delivery when it comes back from the retry exchange.
abbrev redelivery : Delivery
redelivery = record delivery { headers = (republication broker delivery).headers }

redelivery-IsRetryOf : IsRetryOf broker delivery redelivery
unfolding should_retry retry_count field_of
redelivery-IsRetryOf = record { retried = refl; headers = refl }

Retries-bounded_example :
    (retry_count broker redelivery ≡ number (0 + 1))
    × (should_retry broker redelivery ≡ ltb (0 + 1) 3)
    × (1 ≤ 3 - 0)
unfolding retry_count field_of
Retries-bounded_example =
    Retries-bounded broker delivery redelivery 0 3 1 refl refl (again first redelivery-IsRetryOf)

abbrev restart : List Event
restart =
    subscribes (text "workshop.stock.requests")
    ∷ throws
    ∷ timer_fires
    ∷ channel_opens
    ∷ channel_given 1
    ∷ prefetched
    ∷ queue_asserted
    ∷ consumer_started
    ∷ []
