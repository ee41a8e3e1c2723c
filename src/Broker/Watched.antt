-- ===== src/Broker/Watched.antt =====
-- The subscriptions of a consumer and the timer of their recovery.
use workshop_service.Base.{
  ℕ, zero, suc, ◌≤◌, ◌≡◌, refl, Bool, true, false, ◌&&◌, ◌||◌, Option, none, some, List, [], ◌∷◌,
  ◌++◌, arith, is_some, get_or,
}
use workshop_service.Text.{Text}
use workshop_service.Broker.Recovery.{
  Subscription, Consumer, Applying, idle, connecting, configuring, asserting, consuming, is_busy,
  is_nil, is_channel, Event, react, subscribes, channel_opens, channel_lost, destroys, timer_fires,
  throws, prefetched, queue_asserted, channel_given, consumer_started, initial_recovery_delay,
  max_recovery_delay, apply_at, next_position, at_position, apply_step, restored,
}

abbrev pub all_applied : ℕ → List Subscription → Bool
all_applied c [] = true
all_applied c (x ∷ xs) = is_channel x.applied c && all_applied c xs

-- The first subscriptions are there and applied to a channel; and one more is there.
abbrev pub first_applied : ℕ → ℕ → List Subscription → Bool
first_applied c zero xs = true
first_applied c (suc n) [] = false
first_applied c (suc n) (x ∷ xs) = is_channel x.applied c && first_applied c n xs

abbrev pub reached : ℕ → ℕ → List Subscription → Bool
reached c n [] = false
reached c zero (x ∷ xs) = true
reached c (suc n) (x ∷ xs) = is_channel x.applied c && reached c n xs

next_position-none :
    (c i : ℕ) (xs : List Subscription)
    → next_position c i xs ≡ none
    → first_applied c i xs ≡ true
    → all_applied c xs ≡ true
unfolding next_position
next_position-none c zero [] e h = refl
next_position-none c zero (x ∷ xs) e h = ground (arith, next_position-none c zero xs)
next_position-none c (suc i) [] e h = refl
next_position-none c (suc i) (x ∷ xs) e h = ground (arith, next_position-none c i xs)

next_position-some :
    (c i j : ℕ) (xs : List Subscription)
    → next_position c i xs ≡ some j
    → first_applied c i xs ≡ true
    → reached c j xs ≡ true
unfolding next_position
next_position-some c zero j [] e h = cc
next_position-some c zero zero (x ∷ xs) e h = refl
next_position-some c zero (suc j) (x ∷ xs) e h = ground (arith, next_position-some c zero j xs)
next_position-some c (suc i) j [] e h = cc
next_position-some c (suc i) zero (x ∷ xs) e h = refl
next_position-some c (suc i) (suc j) (x ∷ xs) e h = ground (arith, next_position-some c i j xs)

apply_at-reached :
    (c i : ℕ) (xs : List Subscription)
    → reached c i xs ≡ true
    → first_applied c (suc i) (apply_at c i xs) ≡ true
unfolding apply_at
apply_at-reached c i [] h = cc
apply_at-reached c zero (x ∷ xs) h = ground arith
apply_at-reached c (suc i) (x ∷ xs) h = ground (arith, apply_at-reached c i xs)

reached-append :
    (c i : ℕ) (xs ys : List Subscription) → reached c i xs ≡ true → reached c i (xs ++ ys) ≡ true
reached-append c i [] ys h = cc
reached-append c zero (x ∷ xs) ys h = refl
reached-append c (suc i) (x ∷ xs) ys h = ground (arith, reached-append c i xs ys)

-- Every subscription is applied to the channel that is current.
abbrev pub is_applied : Consumer → Bool
is_applied s = elim s.current [ none ↦ false | some c ↦ all_applied c s.subscriptions ]

-- Where the loop stands while its channel is current, a channel that has been announced.
abbrev pub Stands : Applying → Consumer → Type 0
Stands idle s = Unit {0}
Stands connecting s = Unit {0}
Stands (configuring c) s = c ≤ s.opened
Stands (asserting c i) s =
    (c ≤ s.opened) × (is_channel s.current c ≡ true → reached c i s.subscriptions ≡ true)
Stands (consuming c i) s =
    (c ≤ s.opened) × (is_channel s.current c ≡ true → reached c i s.subscriptions ≡ true)

-- The delays are in their range, and unless the consumer shuts down or has nothing to apply,
-- its subscriptions are applied, or being applied, or a timer is set to apply them.
pub record IsWatched (s : Consumer) : Type 0 where
  pub low : initial_recovery_delay ≤ s.delay
  pub high : s.delay ≤ max_recovery_delay
  pub timer_low : initial_recovery_delay ≤ get_or s.timer initial_recovery_delay
  pub timer_high : get_or s.timer initial_recovery_delay ≤ max_recovery_delay
  pub watched :
      (s.shutting_down
        || is_nil s.subscriptions
        || is_busy s.applying
        || is_some s.timer
        || is_applied s)
      ≡ true
  pub stands : Stands s.applying s
  pub known : get_or s.current 0 ≤ s.opened

abbrev new_subscription : Text → Subscription
new_subscription key = record { key = key; applied = none }

module _ (s : Consumer) (h : IsWatched s) where
  resumed-IsWatched :
      (c i : ℕ) (subs : List Subscription) (configured : Option ℕ) (o : Option ℕ)
      → next_position c i subs ≡ o
      → s.shutting_down ≡ false
      → c ≤ s.opened
      → first_applied c i subs ≡ true
      → IsWatched (
          at_position c
            (record s { current = some c; subscriptions = subs; configured = configured })
            o)
  unfolding restored
  resumed-IsWatched c i subs configured none e d le first =
      ground (arith, next_position-none c i subs)
  resumed-IsWatched c i subs configured (some j) e d le first =
      ground (arith, next_position-some c i j subs)

  stepped-IsWatched :
      (e : Event) (a : Applying) → s.applying ≡ a → Stands a s → IsWatched (apply_step e a s)
  unfolding apply_step
  stepped-IsWatched throws idle p st = h
  stepped-IsWatched throws connecting p st = ground arith
  stepped-IsWatched throws (configuring c) p st = ground arith
  stepped-IsWatched throws (asserting c i) p st = ground arith
  stepped-IsWatched throws (consuming c i) p st = ground arith
  stepped-IsWatched (channel_given c) connecting p st =
      ground (arith, resumed-IsWatched c 0 s.subscriptions s.configured _ refl)
  stepped-IsWatched prefetched (configuring c) p st =
      ground (arith, resumed-IsWatched c 0 s.subscriptions (some c) _ refl)
  stepped-IsWatched queue_asserted (asserting c i) p st = ground arith
  stepped-IsWatched consumer_started (consuming c i) p st = ground (
    arith,
    apply_at-reached c i s.subscriptions,
    resumed-IsWatched c (suc i) (apply_at c i s.subscriptions) s.configured _ refl,
  )
  stepped-IsWatched e a p st = h

  subscribed-IsWatched :
      (key : Text) (a : Applying)
      → s.applying ≡ a
      → Stands a s
      → IsWatched (react (subscribes key) s)
  unfolding react
  subscribed-IsWatched key idle p st = ground arith
  subscribed-IsWatched key connecting p st = ground arith
  subscribed-IsWatched key (configuring c) p st = ground arith
  subscribed-IsWatched key (asserting c i) p st =
      ground (arith, reached-append c i s.subscriptions (new_subscription key ∷ []))
  subscribed-IsWatched key (consuming c i) p st =
      ground (arith, reached-append c i s.subscriptions (new_subscription key ∷ []))

  heard-IsWatched :
      (a : Applying)
      → s.applying ≡ a
      → Stands a s
      → (IsWatched (react channel_opens s) × IsWatched (react channel_lost s))
  unfolding react
  heard-IsWatched idle p st = ground arith
  heard-IsWatched connecting p st = ground arith
  heard-IsWatched (configuring c) p st = ground arith
  heard-IsWatched (asserting c i) p st = ground arith
  heard-IsWatched (consuming c i) p st = ground arith

pub react-IsWatched : (e : Event) (s : Consumer) → IsWatched s → IsWatched (react e s)
unfolding react
react-IsWatched (subscribes key) s h = subscribed-IsWatched s h key s.applying refl h.stands
react-IsWatched channel_opens s h = (heard-IsWatched s h s.applying refl h.stands).0
react-IsWatched channel_lost s h = (heard-IsWatched s h s.applying refl h.stands).1
react-IsWatched destroys s h = ground arith
react-IsWatched timer_fires s h = ground arith
react-IsWatched throws s h = stepped-IsWatched s h throws s.applying refl h.stands
react-IsWatched prefetched s h = stepped-IsWatched s h prefetched s.applying refl h.stands
react-IsWatched queue_asserted s h = stepped-IsWatched s h queue_asserted s.applying refl h.stands
react-IsWatched (channel_given c) s h =
    stepped-IsWatched s h (channel_given c) s.applying refl h.stands
react-IsWatched consumer_started s h =
    stepped-IsWatched s h consumer_started s.applying refl h.stands

unfoldable pub react_all : List Event → Consumer → Consumer
react_all [] s = s
react_all (e ∷ es) s = react_all es (react e s)

abbrev pub new_consumer : Consumer
new_consumer = record {
  subscriptions = [];
  current = none;
  configured = none;
  applying = idle;
  timer = none;
  delay = initial_recovery_delay;
  shutting_down = false;
  opened = 0;
}
