-- ===== src/Consumed/Processed.antt =====
-- The row of an event that a consumer has processed.
use workshop_service.Base.{ℕ, ◌≡◌, some, arith}
use workshop_service.Consumed.{
  processed, MessageRow, MessageKey, Ledger, put, Attempt, insert_row, update_row,
  is_duplicate_key_error, mark_processed, mark_failed, require_one,
}
use workshop_service.Consumed.Workers.{
  Pc, waiting, started, duplicated, found, missed, claimed, stopped, advance, System, Tokens, Step,
  tick, begin, run, complete, give_up, crash, Steps, here, more,
}
use workshop_service.Consumed.Exclusion.{same_key_iff}

module _ (ts : Tokens) (k : MessageKey) (row : MessageRow) (done : row.status ≡ processed) where
  advance_keeps : (p : Pc) (t : Ledger) → t k ≡ some row → (advance p t).0 k ≡ some row
  unfolding advance insert_row update_row put is_duplicate_key_error
  advance_keeps (started a) t h = ground (arith, same_key_iff a.key k)
  advance_keeps (found a old) t h = ground (arith, same_key_iff a.key k)
  advance_keeps (missed a old) t h = ground (arith, same_key_iff a.key k)
  advance_keeps (duplicated a) t h = h
  advance_keeps (claimed a) t h = h
  advance_keeps waiting t h = h
  advance_keeps stopped t h = h

  mark_processed_keeps :
      (a : Attempt) (now : ℕ) (t : Ledger)
      → t k ≡ some row
      → (mark_processed a.key a.token now t).1 k ≡ some row
  unfolding mark_processed update_row put require_one
  mark_processed_keeps a now t h = ground (arith, same_key_iff a.key k)

  mark_failed_keeps :
      (a : Attempt) (t : Ledger) → t k ≡ some row → (mark_failed a.key a.token t).1 k ≡ some row
  unfolding mark_failed update_row put require_one
  mark_failed_keeps a t h = ground (arith, same_key_iff a.key k)

  Step-keeps : {s s' : System} → Step ts s s' → s.ledger k ≡ some row → s'.ledger k ≡ some row
  Step-keeps (tick now le) h = h
  Step-keeps (begin i key lease w) h = h
  Step-keeps {s} (run i) h = advance_keeps (s.pc i) s.ledger h
  Step-keeps {s} (complete i a e) h = mark_processed_keeps a s.clock s.ledger h
  Step-keeps {s} (give_up i a e) h = mark_failed_keeps a s.ledger h
  Step-keeps (crash i) h = h

  -- The row of an event that is PROCESSED for a consumer is the same after any steps of any
  -- workers: it is never claimed, failed or processed again.
  pub processed_stays :
      (s s' : System) → Steps ts s s' → s.ledger k ≡ some row → s'.ledger k ≡ some row
  processed_stays s s' here h = h
  processed_stays s s' (more {t} r st) h = Step-keeps st (processed_stays s t r h)
