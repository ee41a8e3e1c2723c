-- ===== src/Consumed.antt =====
-- TypeOrmConsumedMessageRepository (messaging/consumed-message.repository.ts): which consumer has
-- which event, by claims with a lease. The generated columns (id and the two times of the row)
-- are read by no operation and left out.
pub mod Workers
pub mod Exclusion
pub mod Processed
pub mod Alone
use workshop_service.Base.{
  ℕ, zero, suc, ◌+◌, ◌==◌, Bool, true, false, ◌&&◌, ◌||◌, not, Option, none, some, leb, ltb,
  if◌then◌else◌,
}
use workshop_service.Text.{Text, text, ◌===◌}
use workshop_service.Errors.{Failure, domain, error, Result, ok, err}
use workshop_service.Errors.Action.{Action, pure, raise, ◌>>=◌, ◌>>◌}
use workshop_service.Execution.Methods.{same_text}

pub data MessageStatus : Type 0 where
  processing processed failed : MessageStatus

abbrev pub same_status : MessageStatus → MessageStatus → Bool
same_status processing processing = true
same_status processed processed = true
same_status failed failed = true
same_status s t = false

-- messaging/consumed-message.orm-entity.ts, under its key.
pub record MessageRow : Type 0 where
  pub status : MessageStatus
  pub claim_token : Option Text
  pub processing_started_at : Option ℕ
  pub lease_expires_at : Option ℕ
  pub processed_at : Option ℕ

-- The unique index: the consumer and the event.
pub record MessageKey : Type 0 where
  pub consumer_name : Text
  pub event_id : Text

unfoldable pub same_key : MessageKey → MessageKey → Bool
same_key k l = k.consumer_name === l.consumer_name && k.event_id === l.event_id

-- The table, which has one row at most for each key.
abbrev pub Ledger : Type 0
Ledger = MessageKey → Option MessageRow

unfoldable pub put : MessageKey → MessageRow → Ledger → Ledger
unfolding same_key
put k row t l = if same_key k l then some row else t l

-- What the driver answers: `insert` throws for a key that is there, or for another reason, and
-- `update` gives the number of rows that met the condition and were set.
unfoldable pub duplicate_key : Failure
duplicate_key = error (text "ER_DUP_ENTRY")

-- `isDuplicateKeyError`
unfoldable pub is_duplicate_key_error : Failure → Bool
is_duplicate_key_error (domain e) = false
is_duplicate_key_error (error message) = message === text "ER_DUP_ENTRY"

unfoldable pub insert_row : MessageKey → MessageRow → Action Ledger (Unit {0})
unfolding put duplicate_key
insert_row k row t = elim (t k) [ none ↦ (ok tt, put k row t) | some old ↦ (err duplicate_key, t) ]

-- A row that meets the condition is set.
abbrev pub set_if :
    MessageKey
    → (MessageRow → Bool)
    → (MessageRow → MessageRow)
    → Option MessageRow
    → Action Ledger ℕ
set_if k p f none t = (ok 0, t)
set_if k p f (some row) t = if p row then (ok 1, put k (f row) t) else (ok 0, t)

unfoldable pub update_row :
    MessageKey → (MessageRow → Bool) → (MessageRow → MessageRow) → Action Ledger ℕ
unfolding put
update_row k p f t = set_if k p f (t k) t

-- One call of `claim`: its key, the clock at its start, its new token, and the configured lease.
pub record Attempt : Type 0 where
  pub key : MessageKey
  pub now : ℕ
  pub token : Text
  pub lease : ℕ

-- The columns of a claim, and the row of a new one.
abbrev pub claimed_row : Attempt → MessageRow → MessageRow
claimed_row a row = record {
  status = processing;
  claim_token = some a.token;
  processing_started_at = some a.now;
  lease_expires_at = some (a.now + a.lease);
  processed_at = none;
}

abbrev pub first_row : Attempt → MessageRow
first_row a = record {
  status = processing;
  claim_token = some a.token;
  processing_started_at = some a.now;
  lease_expires_at = some (a.now + a.lease);
  processed_at = none;
}

-- `!leaseExpiresAt || leaseExpiresAt <= now`
abbrev pub has_expired : ℕ → MessageRow → Bool
has_expired now row = elim row.lease_expires_at [ none ↦ true | some at ↦ leb at now ]

unfoldable pub is_processing : Failure
is_processing = error (text "Consumed message is already processing.")

-- The conditions of the two updates of `claim`.
abbrev pub is_failed_row : MessageRow → Bool
is_failed_row row = same_status row.status failed

abbrev pub is_expired_row : ℕ → MessageRow → Bool
is_expired_row now row = same_status row.status processing && has_expired now row

-- The end of `claim`, from the number of rows that the last update has set.
unfoldable pub settle_claim : Attempt → ℕ → Action Ledger (Option Text)
unfolding is_processing
settle_claim a zero = raise is_processing
settle_claim a (suc zero) = pure (some a.token)
settle_claim a (suc (suc n)) = raise is_processing

-- The second update, which only a row that was being processed is worth.
unfoldable pub reclaim_expired : Attempt → MessageRow → ℕ → Action Ledger (Option Text)
unfolding settle_claim update_row
reclaim_expired a existing n =
    if not (n == 1) && same_status existing.status processing
    then (update_row a.key (is_expired_row a.now) (claimed_row a) >>= settle_claim a)
    else settle_claim a n

-- `claim` from the row that is there on: `null` is `none`.
unfoldable pub reclaim : Attempt → MessageRow → Action Ledger (Option Text)
unfolding reclaim_expired update_row
reclaim a existing =
    if same_status existing.status processed
    then pure none
    else if same_status existing.status processing && not (has_expired a.now existing)
    then raise is_processing
    else (update_row a.key is_failed_row (claimed_row a) >>= reclaim_expired a existing)

unfoldable pub not_found : Failure
not_found = error (text "Consumed message was not found after a duplicate key.")

unfoldable pub reclaim_found : Attempt → Option MessageRow → Action Ledger (Option Text)
unfolding reclaim not_found
reclaim_found a none = raise not_found
reclaim_found a (some existing) = reclaim a existing

-- The `catch` block of the insertion, and what follows.
unfoldable pub after_insert : Attempt → Result (Unit {0}) → Action Ledger (Option Text)
unfolding reclaim_found is_duplicate_key_error
after_insert a (ok done) t = pure (some a.token) t
after_insert a (err f) t =
    if not (is_duplicate_key_error f) then raise f t else reclaim_found a (t a.key) t

-- `claim`, with no other call between its statements.
unfoldable pub claim : Attempt → Action Ledger (Option Text)
unfolding after_insert insert_row
claim a t = let (r, t') = insert_row a.key (first_row a) t in after_insert a r t'

-- The condition of the two marks.
abbrev pub is_claim_of : Text → MessageRow → Bool
is_claim_of token row = same_status row.status processing && same_text row.claim_token (some token)

abbrev pub processed_row : ℕ → MessageRow → MessageRow
processed_row now row = record {
  status = processed;
  claim_token = none;
  processing_started_at = none;
  lease_expires_at = none;
  processed_at = some now;
}

abbrev pub failed_row : MessageRow → MessageRow
failed_row row = record row {
  status = failed;
  claim_token = none;
  processing_started_at = none;
  lease_expires_at = none;
}

-- `if (result.affected !== 1) throw`
unfoldable pub require_one : Text → ℕ → Action Ledger (Unit {0})
require_one message n = if not (n == 1) then raise (error message) else pure tt

-- `markProcessed`
unfoldable pub mark_processed : MessageKey → Text → ℕ → Action Ledger (Unit {0})
unfolding update_row require_one
mark_processed k token now =
    update_row k (is_claim_of token) (processed_row now)
    >>= require_one (text "Consumed message claim was lost before completion.")

-- `markFailed`
unfoldable pub mark_failed : MessageKey → Text → Action Ledger (Unit {0})
unfolding update_row require_one
mark_failed k token =
    update_row k (is_claim_of token) failed_row
    >>= require_one (text "Consumed message claim was lost before failure.")
