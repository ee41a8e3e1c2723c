-- ===== src/Broker/Recovery.antt =====
-- How RabbitMqConsumer (messaging/rabbitmq-broker.ts) restores its subscriptions. What happens
-- between two awaits is one event, as the runtime runs it without interruption.
use workshop_service.Base.{
  ℕ, ◌*◌, Bool, true, false, ◌||◌, not, Option, none, some, List, [], ◌∷◌, ◌++◌, zero, suc, any,
  is_some, ltb, ◌==◌, if◌then◌else◌,
}
use workshop_service.Text.{Text, ◌===◌}

-- A subscription under its key, with the channel that it is applied to. The map keeps the order in
-- which they came.
pub record Subscription : Type 0 where
  pub key : Text
  pub applied : Option ℕ

-- `applying`: none, or `applySubscriptions` at an await: of its channel, of `prefetch`, or, for the
-- subscription at a position, of `assertQueue` and of `consume`.
pub data Applying : Type 0 where
  idle connecting : Applying
  configuring : ℕ → Applying
  asserting consuming : ℕ → ℕ → Applying

-- Channels are told apart by a number, and `opened` is that of the last one that the connection has
-- announced. `timer` is the delay of the pending timer.
pub record Consumer : Type 0 where
  pub subscriptions : List Subscription
  pub current : Option ℕ
  pub configured : Option ℕ
  pub applying : Applying
  pub timer : Option ℕ
  pub delay : ℕ
  pub shutting_down : Bool
  pub opened : ℕ

abbrev pub initial_recovery_delay : ℕ
initial_recovery_delay = 100

abbrev pub max_recovery_delay : ℕ
max_recovery_delay = 1000

abbrev pub is_channel : Option ℕ → ℕ → Bool
is_channel none c = false
is_channel (some d) c = d == c

abbrev pub same_channel : Option ℕ → Option ℕ → Bool
same_channel none none = true
same_channel none (some d) = false
same_channel (some c) none = false
same_channel (some c) (some d) = c == d

abbrev pub is_busy : Applying → Bool
is_busy idle = false
is_busy connecting = true
is_busy (configuring c) = true
is_busy (asserting c i) = true
is_busy (consuming c i) = true

abbrev pub is_nil : List Subscription → Bool
is_nil [] = true
is_nil (x ∷ xs) = false

abbrev pub min : ℕ → ℕ → ℕ
min a b = if ltb a b then a else b

-- `scheduleRecovery`
unfoldable pub schedule_recovery : Consumer → Consumer
schedule_recovery s =
    if s.shutting_down || is_nil s.subscriptions || is_some s.timer || is_busy s.applying
    then s
    else record s { timer = some s.delay; delay = min (s.delay * 2) max_recovery_delay }

-- `clearRecoveryTimer`
unfoldable pub clear_recovery_timer : Consumer → Consumer
clear_recovery_timer s = record s { timer = none }

-- `restoreSubscriptions`, up to its first await.
unfoldable pub restore_subscriptions : Consumer → Consumer
restore_subscriptions s =
    if s.shutting_down || is_nil s.subscriptions || is_busy s.applying
    then s
    else record s { applying = connecting }

-- Its end, after `applySubscriptions` has returned or thrown.
unfoldable pub restored : Consumer → Consumer
unfolding clear_recovery_timer
restored s = record (clear_recovery_timer s) { delay = initial_recovery_delay; applying = idle }

unfoldable pub restore_failed : Consumer → Consumer
unfolding schedule_recovery
restore_failed s = schedule_recovery (record s { applying = idle })

unfoldable pub forget_channel : List Subscription → List Subscription
forget_channel [] = []
forget_channel (x ∷ xs) = record { key = x.key; applied = none } ∷ forget_channel xs

-- The listener of the constructor.
unfoldable pub on_channel_change : Option ℕ → Consumer → Consumer
unfolding schedule_recovery clear_recovery_timer restore_subscriptions forget_channel
on_channel_change channel s =
    let changed = record s {
      current = channel;
      configured = none;
      subscriptions = forget_channel s.subscriptions;
    } in
    if same_channel s.current channel then s else elim channel [
      | none ↦ schedule_recovery changed
      | some c ↦ restore_subscriptions (clear_recovery_timer changed)
    ]

-- `subscribe`: a key that is there keeps its subscription. It throws at shutdown.
unfoldable pub subscribe : Text → Consumer → Consumer
unfolding restore_subscriptions
subscribe key s =
    let known = any (λ x. x.key === key) s.subscriptions in
    let added = record s {
      subscriptions =
          if known
          then s.subscriptions
          else s.subscriptions ++ (record { key = key; applied = none } ∷ []);
    } in
    if s.shutting_down then s else restore_subscriptions added

-- `onModuleDestroy`, up to its await. The listener is removed.
unfoldable pub on_module_destroy : Consumer → Consumer
unfolding clear_recovery_timer
on_module_destroy s = record (clear_recovery_timer s) {
  shutting_down = true;
  subscriptions = [];
  current = none;
  configured = none;
}

-- `subscription.appliedChannel = channel`, of the subscription at a position.
unfoldable pub apply_at : ℕ → ℕ → List Subscription → List Subscription
apply_at c i [] = []
apply_at c zero (x ∷ xs) = record x { applied = some c } ∷ xs
apply_at c (suc i) (x ∷ xs) = x ∷ apply_at c i xs

abbrev pub up : Option ℕ → Option ℕ
up none = none
up (some i) = some (suc i)

-- The next position from one on, past the subscriptions with which the loop goes on at once.
unfoldable pub next_position : ℕ → ℕ → List Subscription → Option ℕ
next_position c i [] = none
next_position c zero (x ∷ xs) =
    let rest = up (next_position c zero xs) in if is_channel x.applied c then rest else some zero
next_position c (suc i) (x ∷ xs) = up (next_position c i xs)

-- `this.currentChannel !== channel || this.shuttingDown`
abbrev pub is_invalidated : ℕ → Consumer → Bool
is_invalidated c s = not (is_channel s.current c) || s.shutting_down

-- The loop over the subscriptions at a position: to its next await, or to the end of
-- `applySubscriptions`.
abbrev pub at_position : ℕ → Consumer → Option ℕ → Consumer
at_position c s none = restored s
at_position c s (some i) = record s { applying = asserting c i }

unfoldable pub resume_loop : ℕ → ℕ → Consumer → Consumer
unfolding restored next_position
resume_loop c i s = at_position c s (next_position c i s.subscriptions)

-- What may happen next: the calls of others and the announcements of the connection, which never
-- announces a channel twice; and in `applySubscriptions` the return of an await or a throw.
pub data Event : Type 0 where
  subscribes : Text → Event
  channel_opens channel_lost destroys timer_fires : Event
  throws prefetched queue_asserted consumer_started : Event
  channel_given : ℕ → Event

-- `applySubscriptions`, at the await that has returned. The channel that it is given is one that
-- has been announced.
unfoldable pub apply_step : Event → Applying → Consumer → Consumer
unfolding restored restore_failed apply_at resume_loop
apply_step throws idle s = s
apply_step throws other s = restore_failed s
apply_step (channel_given c) connecting s =
    let given = record s { current = some c } in
    if ltb s.opened c
    then s
    else if s.shutting_down
    then restored s
    else if is_channel s.configured c
    then resume_loop c 0 given
    else record given { applying = configuring c }
apply_step prefetched (configuring c) s =
    if is_invalidated c s
    then restore_failed s
    else resume_loop c 0 (record s { configured = some c })
apply_step queue_asserted (asserting c i) s =
    if is_invalidated c s then restore_failed s else record s { applying = consuming c i }
apply_step consumer_started (consuming c i) s =
    if is_invalidated c s
    then restore_failed s
    else resume_loop c (suc i) (record s { subscriptions = apply_at c i s.subscriptions })
apply_step e a s = s

-- The callback of the timer.
unfoldable pub timer_fired : Consumer → Consumer
unfolding restore_subscriptions
timer_fired s = elim s.timer [
  | none ↦ s
  | some at ↦ restore_subscriptions (record s { timer = none })
]

-- The listener, which is removed at shutdown.
unfoldable pub hear : Option ℕ → Consumer → Consumer
unfolding on_channel_change
hear channel s = if s.shutting_down then s else on_channel_change channel s

unfoldable pub react : Event → Consumer → Consumer
unfolding subscribe hear on_module_destroy timer_fired apply_step
react (subscribes key) s = subscribe key s
react channel_opens s = hear (some (suc s.opened)) (record s { opened = suc s.opened })
react channel_lost s = hear none s
react destroys s = on_module_destroy s
react timer_fires s = timer_fired s
react throws s = apply_step throws s.applying s
react prefetched s = apply_step prefetched s.applying s
react queue_asserted s = apply_step queue_asserted s.applying s
react (channel_given c) s = apply_step (channel_given c) s.applying s
react consumer_started s = apply_step consumer_started s.applying s
