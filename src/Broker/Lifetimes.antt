-- ===== src/Broker/Lifetimes.antt =====
-- A RabbitMqConnection over all its events, to its shutdown and after it.
use workshop_service.Base.{
  ℕ, ◌≡◌, ◌≢◌, refl, inl, inr, true, false, none, some, List, [], ◌∷◌, arith, ◌∙◌, ◌+◌, ◌⊎◌, get_or,
  is_some, if◌then◌else◌,
}
use workshop_service.Text.{text}
use workshop_service.Errors.{ok, err, Failure}
use workshop_service.Broker.Connection.{
  Connection, Progress, unborn, connecting, opening, closing_connection, rejected, closing_channel,
  fulfilled, settled, absent, opened, closed, Settings, Event, asked, destroys, destroy_continues,
  connects, fails, creates, continues, connection_lost, channel_lost, get_channel, react, lacks_url,
  attempt_step,
}
use workshop_service.Broker.Links.{IsLinked, IsTold, subject, react-IsLinked, react-IsTold}

abbrev pub new_connection : Connection
new_connection = record {
  channel_promise = none;
  channel = none;
  connection = none;
  active_attempt = none;
  shutting_down = false;
  emitted = none;
  next = 0;
  attempts = λ n. record { progress = unborn; connection = absent; channel = absent };
  pending_close = none;
}

unfoldable pub react_all : Settings → List Event → Connection → Connection
react_all c [] s = s
react_all c (e ∷ es) s = react_all c es (react c e s)

pub record IsSound (s : Connection) : Type 0 where
  pub linked : (n : ℕ) → IsLinked s n
  pub told : IsTold s

new_connection-IsSound : IsSound new_connection
new_connection-IsSound = record { linked = λ n. ground arith; told = ground arith }

react-IsSound : (c : Settings) (e : Event) (s : Connection) → IsSound s → IsSound (react c e s)
react-IsSound c e s h = record {
  linked = λ n. react-IsLinked c e n s (h.linked (subject e s)) (h.linked n) h.told;
  told = react-IsTold c e s (h.linked (subject e s)) h.told;
}

react_all-IsSound :
    (c : Settings) (es : List Event) (s : Connection) → IsSound s → IsSound (react_all c es s)
unfolding react_all
react_all-IsSound c [] s h = h
react_all-IsSound c (e ∷ es) s h = react_all-IsSound c es (react c e s) (react-IsSound c e s h)

stepped_shut :
    (e : Event) (m : ℕ) (p : Progress) (s : Connection)
    → s.shutting_down ≡ true
    → ((attempt_step e m p s).shutting_down ≡ true) × ((attempt_step e m p s).next ≡ s.next)
unfolding attempt_step
stepped_shut (connects x) m connecting s h = ground arith
stepped_shut (fails x) m connecting s h = ground arith
stepped_shut (creates x) m opening s h = ground arith
stepped_shut (fails x) m opening s h = ground arith
stepped_shut (continues x) m closing_channel s h = ground arith
stepped_shut (continues x) m closing_connection s h = ground arith
stepped_shut (continues x) m rejected s h = ground arith
stepped_shut x m p s h = (h, refl)

-- After any events, the listeners were last given the current channel, a current channel stands on
-- the current connection and a current connection is that of the active attempt, whose promise is
-- handed out; a promise handed out is never one whose rejection has been seen to, and if it is
-- fulfilled its channel is the current one; an open connection is the current one, or its attempt
-- or the shutdown is about to close it; and an open channel is the current one or its connection
-- has been closed.
pub connection-IsSound : (c : Settings) (es : List Event) → IsSound (react_all c es new_connection)
connection-IsSound c es = react_all-IsSound c es new_connection new_connection-IsSound

pub record IsDown (s : Connection) : Type 0 where
  pub shut : s.shutting_down ≡ true
  pub channel : s.channel ≡ none
  pub connection : s.connection ≡ none
  pub promise : s.channel_promise ≡ none
  pub emitted : s.emitted ≡ none

react_shut :
    (c : Settings) (e : Event) (s : Connection)
    → s.shutting_down ≡ true
    → ((react c e s).shutting_down ≡ true) × ((react c e s).next ≡ s.next)
unfolding react
react_shut c asked s h = ground arith
react_shut c destroys s h = ground arith
react_shut c destroy_continues s h = ground arith
react_shut c (connects m) s h = stepped_shut (connects m) m _ s h
react_shut c (fails m) s h = stepped_shut (fails m) m _ s h
react_shut c (creates m) s h = stepped_shut (creates m) m _ s h
react_shut c (continues m) s h = stepped_shut (continues m) m _ s h
react_shut c (connection_lost m) s h = ground arith
react_shut c (channel_lost m) s h = ground arith

react_all_shut :
    (c : Settings) (es : List Event) (s : Connection)
    → s.shutting_down ≡ true
    → ((react_all c es s).shutting_down ≡ true) × ((react_all c es s).next ≡ s.next)
unfolding react_all
react_all_shut c [] s h = (h, refl)
react_all_shut c (e ∷ es) s h =
    let one = react_shut c e s h in
    let rest = react_all_shut c es (react c e s) one.0 in (rest.0, rest.1 ∙ one.1)

IsSound-IsDown : (s : Connection) → IsSound s → s.shutting_down ≡ true → IsDown s
IsSound-IsDown s h d = ground (
  arith,
  h.linked (get_or s.channel 0),
  h.linked (get_or s.connection 0),
  h.linked (get_or s.channel_promise 0),
)

kept-IsSound :
    (s : Connection)
    → IsSound s
    → s.shutting_down ≡ true
    → (n : ℕ)
    → (((s.attempts n).connection ≡ absent) ⊎ ((s.attempts n).connection ≡ closed))
      ⊎ (((s.attempts n).progress ≡ closing_channel) ⊎ (s.pending_close ≡ some n))
kept-IsSound s h d n = ground (arith, h.linked n)

get_channel_shut :
    (c : Settings) (s : Connection)
    → s.shutting_down ≡ true
    → get_channel c s ≡ (err (Failure.error (text "Messaging is shutting down.")), s)
unfolding get_channel
get_channel_shut c s h = rw h

-- When after any events the connection is shutting down, then after any further ones there is no
-- channel, no connection and no promise, the listeners were last given none, no attempt has been
-- begun since the shutdown, getChannel throws and changes nothing, and the connection of each attempt
-- has not been opened, or has been closed, or its attempt or the shutdown is about to close it.
pub shutdown_final :
    (c : Settings) (es es' : List Event)
    → (react_all c es new_connection).shutting_down ≡ true
    → let s = react_all c es new_connection in
      let s' = react_all c es' s in
      IsDown s'
      × (s'.next ≡ s.next)
      × (get_channel c s' ≡ (err (Failure.error (text "Messaging is shutting down.")), s'))
      × ((n : ℕ)
          → (((s'.attempts n).connection ≡ absent) ⊎ ((s'.attempts n).connection ≡ closed))
            ⊎ (((s'.attempts n).progress ≡ closing_channel) ⊎ (s'.pending_close ≡ some n)))
shutdown_final c es es' h =
    let s = react_all c es new_connection in
    let s' = react_all c es' s in
    let sound = react_all-IsSound c es' s (connection-IsSound c es) in
    let still = react_all_shut c es' s h in
    (
      IsSound-IsDown s' sound still.0,
      still.1,
      get_channel_shut c s' still.0,
      kept-IsSound s' sound still.0,
    )

fulfilled-cases : (p : Progress) → (p ≡ fulfilled) ⊎ (p ≢ fulfilled)
fulfilled-cases p = ground arith

-- What getChannel hands out, from a sound state in which it does not throw.
got : Settings → Connection → ℕ
got c s = get_or s.channel_promise s.next

get_channel_got :
    (c : Settings) (s : Connection)
    → c.enabled ≡ true
    → s.shutting_down ≡ false
    → ((get_channel c s).0 ≡ ok (got c s))
      × ((get_channel c s).1.channel_promise ≡ some (got c s))
      × ((get_channel c s).1.next ≡ s.next + (if is_some s.channel_promise then 0 else 1))
unfolding get_channel got
get_channel_got c s e d = ground arith

kept_up :
    (s : Connection) (n : ℕ)
    → IsLinked s n
    → s.channel_promise ≡ some n
    → ((s.attempts n).progress ≢ fulfilled)
      ⊎ ((s.channel ≡ some n) × (s.connection ≡ some n) × ((s.attempts n).connection ≡ opened))
kept_up s n h p = elim (fulfilled-cases (s.attempts n).progress) [
  | inl e ↦ inr (ground arith)
  | inr e ↦ inl e
]

-- When after any events the connection is not shutting down, and messaging is enabled, getChannel
-- returns the promise of an attempt, which stays the promise handed out; its rejection has not been
-- seen to before, and if it is fulfilled its channel is the current one, on an open connection. An
-- attempt is begun exactly if no promise was handed out.
pub get_channel_promised :
    (c : Settings) (es : List Event)
    → c.enabled ≡ true
    → (react_all c es new_connection).shutting_down ≡ false
    → let s = react_all c es new_connection in
      let s' = (get_channel c s).1 in
      (n : ℕ) × ((get_channel c s).0 ≡ ok n)
      × (s'.channel_promise ≡ some n)
      × (s'.next ≡ s.next + (if is_some s.channel_promise then 0 else 1))
      × ((s'.attempts n).progress ≢ settled)
      × (((s'.attempts n).progress ≢ fulfilled)
          ⊎ ((s'.channel ≡ some n)
              × (s'.connection ≡ some n)
              × ((s'.attempts n).connection ≡ opened)))
unfolding react
get_channel_promised c es e d =
    let s = react_all c es new_connection in
    let n = got c s in
    let q = get_channel_got c s e d in
    let sound : IsSound (get_channel c s).1 = react-IsSound c asked s (connection-IsSound c es) in
    let k = sound.linked n in
    let up = k.promised q.1 in (n, q.0, q.1, q.2, up.2, kept_up (get_channel c s).1 n k q.1)

-- When the current connection is lost outside of a shutdown, the listeners are given none; and when
-- then getChannel is called, messaging being enabled with a URL, and the broker gives a connection
-- and a channel on it, they are the current ones and the listeners are given the channel.
pub channel_recovered :
    (c : Settings) (s : Connection) (m : ℕ)
    → c.enabled ≡ true
    → lacks_url c.url ≡ false
    → s.shutting_down ≡ false
    → s.connection ≡ some m
    → let n = s.next in
      let lost = react c (connection_lost m) s in
      let s' = react_all c (asked ∷ connects n ∷ creates n ∷ []) lost in
      (lost.emitted ≡ none)
      × (lost.channel ≡ none)
      × (s'.emitted ≡ some n)
      × (s'.channel ≡ some n)
      × (s'.connection ≡ some n)
      × (s'.channel_promise ≡ some n)
unfolding react_all react
channel_recovered c s m e u d h = ground arith
