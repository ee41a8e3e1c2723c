-- ===== src/Broker/Links.antt =====
-- What holds of a RabbitMqConnection between two events.
use workshop_service.Base.{ℕ, ◌≤◌, ◌≡◌, ◌≢◌, refl, ◌⊎◌, true, false, some, arith, is_some, get_or}
use workshop_service.Broker.Connection.{
  Connection, Progress, unborn, connecting, opening, closing_channel, closing_connection, rejected,
  fulfilled, settled, absent, opened, closed, Settings, Event, asked, destroys, destroy_continues,
  connects, fails, creates, continues, connection_lost, channel_lost, react, attempt_step,
}

-- Of the attempt with number n. The channel is that of a fulfilled attempt, and stands on the
-- connection; the connection is that of the active attempt, whose promise is the one handed out,
-- and is open; the promise handed out is not one that has been rejected and seen to; a connection
-- that is open is the current one, or about to be closed by its attempt or at shutdown; a channel
-- that is open is the current one, or its connection has been closed.
pub record IsLinked (s : Connection) (n : ℕ) : Type 0 where
  pub new : s.next ≤ n → (s.attempts n).progress ≡ unborn
  pub unborn_absent :
      (s.attempts n).progress ≡ unborn
      → ((s.attempts n).connection ≡ absent) × ((s.attempts n).channel ≡ absent)
  pub connecting_absent :
      (s.attempts n).progress ≡ connecting
      → ((s.attempts n).connection ≡ absent) × ((s.attempts n).channel ≡ absent)
  pub opening_absent : (s.attempts n).progress ≡ opening → (s.attempts n).channel ≡ absent
  pub channel_up :
      s.channel ≡ some n
      → ((s.attempts n).progress ≡ fulfilled)
        × (s.connection ≡ some n)
        × ((s.attempts n).channel ≡ opened)
  pub connection_up :
      s.connection ≡ some n
      → (s.active_attempt ≡ some n)
        × (s.channel_promise ≡ some n)
        × (s.shutting_down ≡ false)
        × ((s.attempts n).connection ≡ opened)
        × (((s.attempts n).progress ≡ opening) ⊎ (s.channel ≡ some n))
  pub active :
      s.active_attempt ≡ some n → (s.attempts n).progress ≡ connecting → s.channel_promise ≡ some n
  pub promised :
      s.channel_promise ≡ some n
      → (s.shutting_down ≡ false)
        × ((s.attempts n).progress ≢ unborn)
        × ((s.attempts n).progress ≢ settled)
        × ((s.attempts n).progress ≡ fulfilled → s.channel ≡ some n)
  pub connection_kept :
      (s.attempts n).connection ≡ opened
      → ((s.connection ≡ some n) ⊎ ((s.attempts n).progress ≡ closing_channel))
        ⊎ (s.pending_close ≡ some n)
  pub channel_kept :
      (s.attempts n).channel ≡ opened → (s.channel ≡ some n) ⊎ ((s.attempts n).connection ≡ closed)

-- Of the whole: the listeners were told of the channel, and a connection waits for
-- `onModuleDestroy` only at shutdown.
pub record IsTold (s : Connection) : Type 0 where
  pub told : s.emitted ≡ s.channel
  pub waiting : is_some s.pending_close ≡ true → s.shutting_down ≡ true

-- `react` at an attempt's event, from what holds of that attempt and of any other one.
module _ (c : Settings) (m n : ℕ) (s : Connection) (h : IsLinked s m) (k : IsLinked s n)
    (t : IsTold s) where
  stepped-IsLinked :
      (e : Event) (p : Progress) → (s.attempts m).progress ≡ p → IsLinked (attempt_step e m p s) n
  unfolding attempt_step
  stepped-IsLinked (connects x) connecting e = ground arith
  stepped-IsLinked (fails x) connecting e = ground arith
  stepped-IsLinked (creates x) opening e = ground arith
  stepped-IsLinked (fails x) opening e = ground arith
  stepped-IsLinked (continues x) closing_channel e = ground arith
  stepped-IsLinked (continues x) closing_connection e = ground arith
  stepped-IsLinked (continues x) rejected e = ground arith
  stepped-IsLinked x p e = k

  lost-IsLinked : IsLinked (react c (connection_lost m) s) n
  unfolding react
  lost-IsLinked = ground arith

  lost_channel-IsLinked : IsLinked (react c (channel_lost m) s) n
  unfolding react
  lost_channel-IsLinked = ground arith

  stepped-IsTold :
      (e : Event) (p : Progress) → (s.attempts m).progress ≡ p → IsTold (attempt_step e m p s)
  unfolding attempt_step
  stepped-IsTold (connects x) connecting e = ground arith
  stepped-IsTold (fails x) connecting e = ground arith
  stepped-IsTold (creates x) opening e = ground arith
  stepped-IsTold (fails x) opening e = ground arith
  stepped-IsTold (continues x) closing_channel e = ground arith
  stepped-IsTold (continues x) closing_connection e = ground arith
  stepped-IsTold (continues x) rejected e = ground arith
  stepped-IsTold x p e = t

-- The attempt that an event is about, if it is about one.
abbrev pub subject : Event → Connection → ℕ
subject asked s = s.next
subject destroys s = get_or s.connection 0
subject destroy_continues s = get_or s.pending_close 0
subject (connects n) s = n
subject (fails n) s = n
subject (creates n) s = n
subject (continues n) s = n
subject (connection_lost n) s = n
subject (channel_lost n) s = n

pub react-IsLinked :
    (c : Settings) (e : Event) (n : ℕ) (s : Connection)
    → IsLinked s (subject e s)
    → IsLinked s n
    → IsTold s
    → IsLinked (react c e s) n
unfolding react
react-IsLinked c asked n s h k t = ground arith
react-IsLinked c destroys n s h k t = ground arith
react-IsLinked c destroy_continues n s h k t = ground arith
react-IsLinked c (connects m) n s h k t = stepped-IsLinked c m n s h k t (connects m) _ refl
react-IsLinked c (fails m) n s h k t = stepped-IsLinked c m n s h k t (fails m) _ refl
react-IsLinked c (creates m) n s h k t = stepped-IsLinked c m n s h k t (creates m) _ refl
react-IsLinked c (continues m) n s h k t = stepped-IsLinked c m n s h k t (continues m) _ refl
react-IsLinked c (connection_lost m) n s h k t = lost-IsLinked c m n s h k t
react-IsLinked c (channel_lost m) n s h k t = lost_channel-IsLinked c m n s h k t

pub react-IsTold :
    (c : Settings) (e : Event) (s : Connection)
    → IsLinked s (subject e s)
    → IsTold s
    → IsTold (react c e s)
unfolding react
react-IsTold c asked s h t = ground arith
react-IsTold c destroys s h t = ground arith
react-IsTold c destroy_continues s h t = ground arith
react-IsTold c (connects m) s h t = stepped-IsTold c m m s h h t (connects m) _ refl
react-IsTold c (fails m) s h t = stepped-IsTold c m m s h h t (fails m) _ refl
react-IsTold c (creates m) s h t = stepped-IsTold c m m s h h t (creates m) _ refl
react-IsTold c (continues m) s h t = stepped-IsTold c m m s h h t (continues m) _ refl
react-IsTold c (connection_lost m) s h t = ground arith
react-IsTold c (channel_lost m) s h t = ground arith
