-- ===== src/Broker/Connection.antt =====
-- RabbitMqConnection (messaging/rabbitmq-broker.ts): the attempts to open a channel, and what
-- becomes of their connections. What happens between two awaits is one event.
use workshop_service.Base.{
  ℕ, ◌+◌, Bool, true, ◌||◌, not, Option, none, some, is_some, ◌==◌, if◌then◌else◌,
}
use workshop_service.Text.{Text, text, is_empty}
use workshop_service.Errors.{Result, ok, err, Failure}
use workshop_service.Broker.Recovery.{is_channel, same_channel}

-- `createChannel` at its awaits, and its promise once it is rejected (the callback of
-- `promise.catch` is still to run), settled (it has run) or fulfilled.
pub data Progress : Type 0 where
  unborn connecting opening closing_channel closing_connection rejected settled fulfilled : Progress

-- Whether a connection or a channel has been opened, and whether its `close` has been called.
pub data Resource : Type 0 where
  absent opened closed : Resource

-- A call of `createChannel`, with its local variables.
pub record Attempt : Type 0 where
  pub progress : Progress
  pub connection : Resource
  pub channel : Resource

-- An attempt opens at most one connection, and one channel on it: a symbol, a promise, a
-- connection and a channel are all told apart by the number of the attempt. `emitted` is what the
-- listeners were given last, `pending_close` the connection that `onModuleDestroy` closes after
-- its first await.
pub record Connection : Type 0 where
  pub channel_promise : Option ℕ
  pub channel : Option ℕ
  pub connection : Option ℕ
  pub active_attempt : Option ℕ
  pub shutting_down : Bool
  pub emitted : Option ℕ
  pub next : ℕ
  pub attempts : ℕ → Attempt
  pub pending_close : Option ℕ

-- The configuration: MESSAGING_ENABLED and RABBITMQ_URL.
pub record Settings : Type 0 where
  pub enabled : Bool
  pub url : Option Text

abbrev pub put_attempt : ℕ → Attempt → (ℕ → Attempt) → ℕ → Attempt
put_attempt n a f m = if n == m then a else f m

abbrev pub close : Resource → Resource
close absent = absent
close opened = closed
close closed = closed

-- The local variable of the attempt, as a value to compare with a field.
abbrev pub local : ℕ → Resource → Option ℕ
local n absent = none
local n opened = some n
local n closed = some n

abbrev pub lacks_url : Option Text → Bool
lacks_url none = true
lacks_url (some url) = is_empty url

abbrev pub clear_if : Option ℕ → Option ℕ → Option ℕ
clear_if field value = if same_channel field value then none else field

-- `closeQuietly` of a connection and of a channel, up to its await.
unfoldable pub close_connection : Option ℕ → Connection → Connection
close_connection none s = s
close_connection (some n) s =
    let a = s.attempts n in
    record s { attempts = put_attempt n (record a { connection = close a.connection }) s.attempts }

unfoldable pub close_channel : Option ℕ → Connection → Connection
close_channel none s = s
close_channel (some n) s =
    let a = s.attempts n in
    record s { attempts = put_attempt n (record a { channel = close a.channel }) s.attempts }

unfoldable pub move_to : ℕ → Progress → Connection → Connection
move_to n p s = record s {
  attempts = put_attempt n (record (s.attempts n) { progress = p }) s.attempts;
}

-- `emitChannelChange`
unfoldable pub emit_channel_change : Option ℕ → Connection → Connection
emit_channel_change channel s = record s { emitted = channel }

-- `createChannel`, up to its first await.
unfoldable pub create_channel : Settings → ℕ → Connection → Connection
unfolding move_to
create_channel c n s = move_to n (if lacks_url c.url then rejected else connecting) s

-- `getChannel`: the promise that is returned.
unfoldable pub get_channel : Settings → Connection → Result ℕ × Connection
unfolding create_channel
get_channel c s =
    let begun = record s { active_attempt = some s.next; next = s.next + 1 } in
    let started = record (create_channel c s.next begun) { channel_promise = some s.next } in
    if s.shutting_down
    then (err (Failure.error (text "Messaging is shutting down.")), s)
    else if not c.enabled
    then (err (Failure.error (text "Messaging is disabled.")), s)
    else elim s.channel_promise [ none ↦ (ok s.next, started) | some n ↦ (ok n, s) ]

-- The catch clause of `createChannel`, up to its first await.
unfoldable pub catch_failure : ℕ → Connection → Connection
unfolding move_to close_channel
catch_failure n s =
    let a = s.attempts n in
    let cleared = record s {
      channel = clear_if s.channel (local n a.channel);
      connection = clear_if s.connection (local n a.connection);
      active_attempt = clear_if s.active_attempt (some n);
    } in
    move_to n closing_channel (close_channel (some n) cleared)

-- `createChannel` after `connectToRabbitMq` has returned a connection.
unfoldable pub connected : ℕ → Connection → Connection
unfolding catch_failure move_to
connected n s =
    let got = record s {
      attempts = put_attempt n (record (s.attempts n) { connection = opened }) s.attempts;
    } in
    if s.shutting_down || not (is_channel s.active_attempt n)
    then catch_failure n got
    else move_to n opening (record got { connection = some n })

-- After `createConfirmChannel` has returned a channel.
unfoldable pub channel_created : ℕ → Connection → Connection
unfolding catch_failure move_to emit_channel_change
channel_created n s =
    let got = record s {
      attempts = put_attempt n (record (s.attempts n) { channel = opened }) s.attempts;
    } in
    if s.shutting_down || not (is_channel s.active_attempt n) || not (is_channel s.connection n)
    then catch_failure n got
    else move_to n fulfilled (emit_channel_change (some n) (record got { channel = some n }))

-- What `invalidateConnection`, `invalidateChannel` and `onModuleDestroy` reset.
unfoldable pub forget : Connection → Connection
unfolding emit_channel_change
forget s =
    emit_channel_change none (record s {
      channel = none;
      channel_promise = none;
      connection = none;
      active_attempt = none;
    })

unfoldable pub invalidate_connection : ℕ → Connection → Connection
unfolding forget close_connection
invalidate_connection n s =
    if s.shutting_down || not (is_channel s.connection n)
    then s
    else close_connection (some n) (forget s)

unfoldable pub invalidate_channel : ℕ → Connection → Connection
unfolding forget close_connection
invalidate_channel n s =
    if s.shutting_down || not (is_channel s.channel n) || not (is_channel s.connection n)
    then s
    else close_connection (some n) (forget s)

-- `onModuleDestroy`, up to its first await. A further call finds no connection to close.
unfoldable pub on_module_destroy : Connection → Connection
unfolding forget close_channel
on_module_destroy s = close_channel s.channel (record (forget s) {
  shutting_down = true;
  pending_close = if is_some s.connection then s.connection else s.pending_close;
})

-- Its continuation.
unfoldable pub destroy_continued : Connection → Connection
unfolding close_connection
destroy_continued s = record (close_connection s.pending_close s) { pending_close = none }

-- The callback of `promise.catch`.
unfoldable pub promise_caught : ℕ → Connection → Connection
unfolding move_to
promise_caught n s =
    move_to n settled (record s { channel_promise = clear_if s.channel_promise (some n) })

pub data Event : Type 0 where
  asked destroys destroy_continues : Event
  connects fails creates continues connection_lost channel_lost : ℕ → Event

-- An await of the attempt that returns, or throws.
unfoldable pub attempt_step : Event → ℕ → Progress → Connection → Connection
unfolding connected channel_created catch_failure close_connection move_to promise_caught
attempt_step (connects m) n connecting s = connected n s
attempt_step (fails m) n connecting s = catch_failure n s
attempt_step (creates m) n opening s = channel_created n s
attempt_step (fails m) n opening s = catch_failure n s
attempt_step (continues m) n closing_channel s =
    move_to n closing_connection (close_connection (some n) s)
attempt_step (continues m) n closing_connection s = move_to n rejected s
attempt_step (continues m) n rejected s = promise_caught n s
attempt_step e n p s = s

unfoldable pub react : Settings → Event → Connection → Connection
unfolding get_channel attempt_step invalidate_connection invalidate_channel on_module_destroy
    destroy_continued
react c asked s = (get_channel c s).1
react c destroys s = on_module_destroy s
react c destroy_continues s = destroy_continued s
react c (connects n) s = attempt_step (connects n) n (s.attempts n).progress s
react c (fails n) s = attempt_step (fails n) n (s.attempts n).progress s
react c (creates n) s = attempt_step (creates n) n (s.attempts n).progress s
react c (continues n) s = attempt_step (continues n) n (s.attempts n).progress s
react c (connection_lost n) s = invalidate_connection n s
react c (channel_lost n) s = invalidate_channel n s
