-- ===== src/Broker/Sent.antt =====
-- A message from RabbitMqPublisher to RabbitMqConsumer.
use workshop_service.Base.{suc, ◌≡◌, refl, true, ◌∷◌, ◌++◌, arith, inl, inr, ◌⊎◌, ap}
use workshop_service.Number.{Number, number, less, plus}
use workshop_service.Text.{Text, text, ◌===◌}
use workshop_service.Errors.{Failure, ok, err, Result}
use workshop_service.Errors.Action.{Action}
use workshop_service.Messaging.{BrokerMessage, Value, num, Fields, end, field, str}
use workshop_service.Broker.{
  Publication, Delivery, ConsumerEnv, Channel, acknowledged, retry_count_header, handled,
  handle_message, retry_count, should_retry, republication, send, republish_failure, acknowledge,
  set_field,
}
use workshop_service.Broker.Publisher.{
  PublisherEnv, Publisher, publication, attempt, publish, delivered, headers, concluded,
}

attempt_ok :
    (env : PublisherEnv) (p : Publication)
    → attempt env p ≡ ok tt
    → (env.get_channel ≡ ok tt) × (env.assert_exchange p.exchange ≡ ok tt) × (env.confirm p ≡ ok tt)
unfolding attempt
attempt_ok env p h = ground arith

module _ (env : PublisherEnv) (exchange key : Text) (m : BrokerMessage) (s : Publisher) where
  -- The publication has been confirmed, on an exchange that was asserted.
  abbrev pub IsSent : Type 0
  IsSent =
      let p = publication env exchange key m in
      (env.get_channel ≡ ok tt)
      × (env.assert_exchange exchange ≡ ok tt)
      × (env.confirm p ≡ ok tt)
      × (publish env exchange key m s ≡ (ok tt, record s { confirmed = p ∷ s.confirmed }))

  -- The error that stopped it is rethrown, and counted once.
  abbrev pub IsUnsent : Type 0
  IsUnsent =
      (f : Failure) × (attempt env (publication env exchange key m) ≡ err f)
      × (publish env exchange key m s ≡ (err f, record s { failures = suc s.failures }))

  -- Either `publish` returns, the channel was had, the exchange asserted and the publication
  -- confirmed, which is what is added to the publications, and the metric is as before; or it
  -- throws the error that stopped it, nothing is added, and the metric counts one failure more.
  pub publish_lem : IsSent ⊎ IsUnsent
  unfolding publish publication
  publish_lem = outcome (attempt env (publication env exchange key m)) refl
    where
      outcome :
          (r : Result (Unit {0}))
          → attempt env (publication env exchange key m) ≡ r
          → IsSent ⊎ IsUnsent
      outcome (ok done) e =
          let (a, b, c) = attempt_ok env (publication env exchange key m) e in
          inl (a, b, c, ap (concluded (publication env exchange key m) s) e)
      outcome (err f) e = inr (f, e, ap (concluded (publication env exchange key m) s) e)

module _ {S : Type 0} (cenv : ConsumerEnv) (handler : Value → Action S (Unit {0})) (d : Delivery)
    (c : Channel S) where
  handled_fails :
      (p : Publication) (f : Failure)
      → cenv.ack ≡ ok tt
      → republication cenv d ≡ p
      → cenv.confirm p ≡ ok tt
      → (handled handler (cenv.parse d.content) c).0 ≡ err f
      → let c' = (handled handler (cenv.parse d.content) c).1 in
        handle_message cenv handler d c
        ≡ record c' { ending = acknowledged; confirmed = p ∷ c'.confirmed }
  unfolding handle_message republish_failure send acknowledge
  handled_fails p f a b k e = ground arith

-- The headers of a retry of it.
abbrev pub retry_headers : BrokerMessage → Fields
retry_headers m = field (text "correlationId") (str m.correlation_id) (
    field (text "causationId") (str m.causation_id) (
      field (text "sagaId") (str m.saga_id) (
        field (text "eventVersion") (num m.event_version)
          (field retry_count_header (num (number 1)) end))))

republication_retried :
    (cenv : ConsumerEnv) (d : Delivery) (n : Number)
    → retry_count cenv d ≡ n
    → less n cenv.max_retries ≡ true
    → republication cenv d ≡ record {
      exchange = d.exchange ++ text ".retry";
      routing_key = d.routing_key;
      content = d.content;
      headers = set_field retry_count_header (num (plus n (number 1))) d.headers;
      properties = d.properties;
    }
unfolding republication should_retry
republication_retried cenv d n e h = ground arith

module _ (env : PublisherEnv) (cenv : ConsumerEnv) (exchange key : Text) (m : BrokerMessage) where
  fresh-retry_count : retry_count cenv (delivered (publication env exchange key m)) ≡ number 0
  unfolding retry_count publication headers ◌===◌ text
  fresh-retry_count = cenv.to_number-num (number 0)

  -- The retry of a message that was published and failed.
  abbrev pub retry_of : Publication
  retry_of = record {
    exchange = exchange ++ text ".retry";
    routing_key = key;
    content = env.stringify m;
    headers = retry_headers m;
    properties = (publication env exchange key m).properties;
  }

  fresh-republication :
      less (number 0) cenv.max_retries ≡ true
      → republication cenv (delivered (publication env exchange key m)) ≡ retry_of
  unfolding set_field publication headers ◌===◌ text
  fresh-republication h =
      republication_retried cenv (delivered (publication env exchange key m)) (number 0)
        fresh-retry_count h

  module _ {S : Type 0} (handler : Value → Action S (Unit {0})) (c : Channel S) where
    -- A message that was published and delivered, and whose handling fails: if retries are
    -- allowed, the retry is confirmed and the channel takes the acknowledgement, the delivery is
    -- acknowledged and the message goes to the exchange of the retries under its key, with its
    -- content, its headers and its properties, counted as the first retry; the service is as its
    -- handler left it.
    pub publish-handle_message :
        (f : Failure)
        → cenv.ack ≡ ok tt
        → less (number 0) cenv.max_retries ≡ true
        → cenv.confirm retry_of ≡ ok tt
        → (handled handler (cenv.parse (env.stringify m)) c).0 ≡ err f
        → let c' = (handled handler (cenv.parse (env.stringify m)) c).1 in
          handle_message cenv handler (delivered (publication env exchange key m)) c
          ≡ record c' { ending = acknowledged; confirmed = retry_of ∷ c'.confirmed }
    unfolding publication
    publish-handle_message f a h k e =
        handled_fails cenv handler (delivered (publication env exchange key m)) c retry_of f a
          (fresh-republication h) k e
