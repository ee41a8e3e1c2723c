-- ===== src/Broker/Deliveries.antt =====
-- What becomes of deliveries, over the handler and the retries.
use workshop_service.Base.{
  ℕ, suc, zero, ◌+◌, ◌-◌, ◌≤◌, ◌≡◌, refl, sym, ap, ◌∙◌, true, ◌⊎◌, ◌∷◌, arith, ltb,
}
use workshop_service.Number.{number, plus, less}
use workshop_service.Text.{Text}
use workshop_service.Text.Laws.{===-refl}
use workshop_service.Errors.{ok}
use workshop_service.Errors.Action.{Action}
use workshop_service.Messaging.{Value, num, Fields, end, field}
use workshop_service.Broker.{
  field_of, set_field, Delivery, ConsumerEnv, Channel, pending, acknowledged, retry_count_header,
  retry_count, should_retry, republication, acknowledge, requeue, send, republish_failure, handled,
  handle_message, or_zero,
}

module _ {S : Type 0} (env : ConsumerEnv) (handler : Value → Action S (Unit {0})) (d : Delivery)
    (c : Channel S) where
  -- A delivery that was pending and is acknowledged has been handled, or its content was
  -- confirmed by the broker on its way to a retry or to the dead letters.
  pub acknowledged_kept :
      c.ending ≡ pending
      → (handle_message env handler d c).ending ≡ acknowledged
      → ((handled handler (env.parse d.content) c).0 ≡ ok tt)
        ⊎ ((handle_message env handler d c).confirmed ≡ republication env d ∷ c.confirmed)
  unfolding handle_message republish_failure send acknowledge requeue
  acknowledged_kept start done = ground arith

  -- The handler has run once, whatever becomes of the delivery: the service is as it left it.
  pub handled_once :
      (handle_message env handler d c).service ≡ (handled handler (env.parse d.content) c).1.service
  unfolding handle_message republish_failure send acknowledge requeue
  handled_once = ground arith

field_of-set_field : (key : Text) (v : Value) (fs : Fields) → field_of key (set_field key v fs) ≡ v
unfolding field_of set_field
field_of-set_field key v end = rw (===-refl key) refl
field_of-set_field key v (field name old rest) = ground (arith, field_of-set_field key v rest)

-- `e` carries the headers with which a failed `d` was sent to its retry exchange.
pub record IsRetryOf (env : ConsumerEnv) (d e : Delivery) : Type 0 where
  pub retried : should_retry env d ≡ true
  pub headers : e.headers ≡ (republication env d).headers

-- A delivery after so many retries, whatever routed it back.
pub data Retries (env : ConsumerEnv) (d : Delivery) : ℕ → Delivery → Type 0 where
  first : Retries env d 0 d
  again : {k : ℕ} {e f : Delivery} → Retries env d k e → IsRetryOf env e f → Retries env d (suc k) f

retry_count_next :
    (env : ConsumerEnv) (d e : Delivery)
    → IsRetryOf env d e
    → retry_count env e ≡ plus (retry_count env d) (number 1)
unfolding retry_count republication
retry_count_next env d e r =
    let next = plus (retry_count env d) (number 1) in
    ap (λ h. env.to_number (or_zero (field_of retry_count_header h))) r.headers
    ∙ ap (λ v. env.to_number (or_zero v))
        (field_of-set_field retry_count_header (num next) d.headers)
    ∙ env.to_number-num next

plus_one : (n : ℕ) → plus (number n) (number 1) ≡ number (suc n)
plus_one n = ground arith

less-number : (n m : ℕ) → less (number n) (number m) ≡ ltb n m
less-number n m = ground arith

ltb-sub : (n k m : ℕ) → ltb (n + k) m ≡ true → k ≤ m - n → suc k ≤ m - n
ltb-sub n k m h le = ground arith

should_retry_of_count :
    (env : ConsumerEnv) (e : Delivery) (q m : ℕ)
    → retry_count env e ≡ number q
    → env.max_retries ≡ number m
    → should_retry env e ≡ ltb q m
unfolding should_retry
should_retry_of_count env e q m count limit =
    ap (λ x. less x env.max_retries) count ∙ ap (λ x. less (number q) x) limit ∙ less-number q m

-- A delivery that starts with the count `n` under the limit `m` has the count `n + k` after `k`
-- retries, is retried again exactly while that is below `m`, and so at most `m - n` times.
pub Retries-bounded :
    (env : ConsumerEnv) (d e : Delivery) (n m k : ℕ)
    → retry_count env d ≡ number n
    → env.max_retries ≡ number m
    → Retries env d k e
    → (retry_count env e ≡ number (n + k)) × (should_retry env e ≡ ltb (n + k) m) × (k ≤ m - n)
Retries-bounded env d e n m zero start limit first =
    let count : retry_count env d ≡ number (n + 0) = start ∙ ap (λ q. number q) (omega arith) in
    (count, should_retry_of_count env d (n + 0) m count limit, omega arith)
Retries-bounded env d f n m (suc k) start limit (again {e = e} r next) =
    let (count, more, le) = Retries-bounded env d e n m k start limit r in
    let count' : retry_count env f ≡ number (n + suc k) =
      retry_count_next env e f next
      ∙ ap (λ q. plus q (number 1)) count
      ∙ plus_one (n + k)
      ∙ ap (λ q. number q) (omega arith) in
    (
      count',
      should_retry_of_count env f (n + suc k) m count' limit,
      ltb-sub n k m (sym more ∙ next.retried) le,
    )
