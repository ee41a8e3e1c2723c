-- ===== src/Events.antt =====
-- The consumers of messages (messaging/execution-events.service.ts and
-- messaging/stock-events.service.ts): an event is claimed, handled, and marked.
pub mod Requests
pub mod Once
pub mod Executions
pub mod Stocks
pub mod Accepted
pub mod Results
pub mod Books
use workshop_service.Base.{ℕ, Bool, true, false, Option, none, some, if◌then◌else◌}
use workshop_service.Text.{Text, text}
use workshop_service.Errors.{Failure, Result, ok, err}
use workshop_service.Errors.Action.{Action, pure, raise, lift, ◌>>=◌, ◌>>◌}
use workshop_service.Consumed.{Ledger, Attempt, MessageKey, claim, mark_processed, mark_failed}

-- What a handler changes, beside the ledger of consumed messages.
pub record Consuming (S : Type 0) : Type 0 where
  pub service : S
  pub ledger : Ledger

-- One consumption: the clock at its start and its end, its new token, the configured lease, and
-- what the database throws, if it does, at the update of `markFailed`.
pub record Visit : Type 0 where
  pub now : ℕ
  pub later : ℕ
  pub token : Text
  pub lease : ℕ
  pub mark_fault : Option Failure

abbrev pub attempt_of : MessageKey → Visit → Attempt
attempt_of k v = record { key = k; now = v.now; token = v.token; lease = v.lease }

-- `.catch(() => undefined)`, where the call has it.
abbrev pub settled : Bool → Result (Unit {0}) → Failure → Failure
settled swallow (ok done) f = f
settled swallow (err g) f = if swallow then f else g

-- `markFailed`, on a database that may throw.
abbrev pub try_mark_failed : Option Failure → MessageKey → Text → Action Ledger (Unit {0})
try_mark_failed none k token = mark_failed k token
try_mark_failed (some fault) k token = raise fault

module _ {S : Type 0} where
  abbrev pub in_service : {A : Type 0} → Action S A → Action (Consuming S) A
  in_service m c = let (r, s) = m c.service in (r, record c { service = s })

  abbrev pub in_ledger : {A : Type 0} → Action Ledger A → Action (Consuming S) A
  in_ledger m c = let (r, t) = m c.ledger in (r, record c { ledger = t })

  -- The `catch` block: the claim is given up, and the error thrown again; a mark that throws is
  -- thrown in its place unless it is swallowed.
  unfoldable pub abandon :
      Bool → MessageKey → Visit → Text → Failure → Action (Consuming S) (Unit {0})
  abandon swallow k v token f c =
      let (r, t) = try_mark_failed v.mark_fault k token c.ledger in
      (err (settled swallow r f), record c { ledger = t })

  -- The `try` block: the operation, then the mark.
  unfoldable pub perform :
      MessageKey → Visit → Text → Action S (Unit {0}) → Action (Consuming S) (Unit {0})
  perform k v token operation = in_service operation >> in_ledger (mark_processed k token v.later)

  abbrev pub or_abandon :
      Bool
      → MessageKey
      → Visit
      → Text
      → Result (Unit {0}) × Consuming S
      → Result (Unit {0}) × Consuming S
  or_abandon swallow k v token (ok done, c) = (ok done, c)
  or_abandon swallow k v token (err f, c) = abandon swallow k v token f c

  -- `if (!claimed) return;` and what follows.
  unfoldable pub consume_claimed :
      Bool
      → MessageKey
      → Visit
      → Action S (Unit {0})
      → Option Text
      → Action (Consuming S) (Unit {0})
  unfolding abandon perform
  consume_claimed swallow k v operation none c = pure tt c
  consume_claimed swallow k v operation (some token) c =
      or_abandon swallow k v token (perform k v token operation c)

  -- The claim of an event and what follows, in `process`, `consumeRelease` and
  -- `consumeExecutionRequested`.
  unfoldable pub consume_once :
      Bool → MessageKey → Visit → Action S (Unit {0}) → Action (Consuming S) (Unit {0})
  unfolding consume_claimed
  consume_once swallow k v operation =
      in_ledger (claim (attempt_of k v)) >>= consume_claimed swallow k v operation
