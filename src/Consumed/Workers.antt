-- ===== src/Consumed/Workers.antt =====
-- Consumers that share the ledger: each makes one call of `claim`, and one call of a mark if the
-- claim is its own. A move is one call of the database with the code up to the next, so the calls
-- of different workers interleave in any order.
use workshop_service.Base.{ℕ, ◌≤◌, ◌≡◌, ◌&&◌, not, Option, none, some, ◌==◌, if◌then◌else◌}
use workshop_service.Text.{Text}
use workshop_service.Errors.{Result, ok, err}
use workshop_service.Consumed.{
  processing, processed, same_status, MessageRow, MessageKey, Ledger, Attempt, first_row,
  claimed_row, has_expired, insert_row, update_row, is_failed_row, is_expired_row,
  is_duplicate_key_error, mark_processed, mark_failed,
}

-- Where a worker stands, with its local variables.
pub data Pc : Type 0 where
  waiting : Pc
  started : Attempt → Pc  -- before the insertion
  duplicated : Attempt → Pc  -- before `findOneBy`
  found : Attempt → MessageRow → Pc  -- before the first update
  missed : Attempt → MessageRow → Pc  -- before the second update
  claimed : Attempt → Pc  -- `claim` has returned the token
  stopped : Pc  -- answered `null`, thrown, marked or crashed

-- The local code after each call of `claim`.
abbrev pub after_insertion : Attempt → Result (Unit {0}) → Pc
after_insertion a (ok done) = claimed a
after_insertion a (err f) = if is_duplicate_key_error f then duplicated a else stopped

abbrev pub after_look_up : Attempt → Option MessageRow → Pc
after_look_up a none = stopped
after_look_up a (some row) =
    if same_status row.status processed
    then stopped
    else if same_status row.status processing && not (has_expired a.now row)
    then stopped
    else found a row

abbrev pub after_update : Attempt → Result ℕ → Pc
after_update a (ok n) = if n == 1 then claimed a else stopped
after_update a (err f) = stopped

abbrev pub after_first_update : Attempt → MessageRow → Result ℕ → Pc
after_first_update a row (ok n) =
    if n == 1
    then claimed a
    else if same_status row.status processing
    then missed a row
    else stopped
after_first_update a row (err f) = stopped

-- One call of the database, and the code up to the next.
unfoldable pub advance : Pc → Ledger → Ledger × Pc
unfolding insert_row update_row is_duplicate_key_error
advance (started a) t = let (r, t') = insert_row a.key (first_row a) t in (t', after_insertion a r)
advance (duplicated a) t = (t, after_look_up a (t a.key))
advance (found a row) t =
    let (r, t') = update_row a.key is_failed_row (claimed_row a) t in
    (t', after_first_update a row r)
advance (missed a row) t =
    let (r, t') = update_row a.key (is_expired_row a.now) (claimed_row a) t in
    (t', after_update a r)
advance waiting t = (t, waiting)
advance (claimed a) t = (t, claimed a)
advance stopped t = (t, stopped)

pub record System : Type 0 where
  pub clock : ℕ
  pub ledger : Ledger
  pub pc : ℕ → Pc

abbrev pub at : (ℕ → Pc) → ℕ → Pc → ℕ → Pc
at pc i p j = if j == i then p else pc j

-- The `randomUUID()` of each worker: no two are the same.
pub record Tokens : Type 0 where
  pub token : ℕ → Text
  pub distinct : (i j : ℕ) → token i ≡ token j → i ≡ j

-- A step of one worker, or of the clock, which does not go back. A worker may crash anywhere.
pub data Step (ts : Tokens) (s : System) : System → Type 0 where
  tick : (now : ℕ) → s.clock ≤ now → Step ts s (record s { clock = now })
  begin :
      (i : ℕ) (key : MessageKey) (lease : ℕ)
      → s.pc i ≡ waiting
      → Step ts s (record s {
        pc =
            at s.pc i
              (started (record { key = key; now = s.clock; token = ts.token i; lease = lease }));
      })
  run :
      (i : ℕ)
      → Step ts s (record s {
        ledger = (advance (s.pc i) s.ledger).0;
        pc = at s.pc i (advance (s.pc i) s.ledger).1;
      })
  complete :
      (i : ℕ) (a : Attempt)
      → s.pc i ≡ claimed a
      → Step ts s (record s {
        ledger = (mark_processed a.key a.token s.clock s.ledger).1;
        pc = at s.pc i stopped;
      })
  give_up :
      (i : ℕ) (a : Attempt)
      → s.pc i ≡ claimed a
      → Step ts s
          (record s { ledger = (mark_failed a.key a.token s.ledger).1; pc = at s.pc i stopped })
  crash : (i : ℕ) → Step ts s (record s { pc = at s.pc i stopped })

-- From any ledger and time, with every worker waiting.
pub data Reach (ts : Tokens) : System → Type 0 where
  start : (now : ℕ) (t : Ledger) → Reach ts (record { clock = now; ledger = t; pc = λ i. waiting })
  later : {s t : System} → Reach ts s → Step ts s t → Reach ts t

pub data Steps (ts : Tokens) (s : System) : System → Type 0 where
  here : Steps ts s s
  more : {t u : System} → Steps ts s t → Step ts t u → Steps ts s u
