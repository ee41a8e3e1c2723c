-- ===== src/Consumed/Alone.antt =====
-- A worker whose calls nothing interrupts, against `claim`.
use workshop_service.Base.{◌≡◌, Option, none, some, arith}
use workshop_service.Text.{Text}
use workshop_service.Errors.{Result, ok, err}
use workshop_service.Consumed.{
  Ledger, put, Attempt, insert_row, update_row, is_duplicate_key_error, duplicate_key,
}
use workshop_service.Consumed.Workers.{Pc, started, claimed, stopped, advance}
use workshop_service.Consumed.Exclusion.{same_key_self}
use workshop_service.Consumed.{
  claim, reclaim, reclaim_found, reclaim_expired, settle_claim, after_insert, is_processing,
  not_found,
}

-- Where `claim` leaves its caller.
abbrev pub outcome : Attempt → Result (Option Text) → Pc
outcome a (ok none) = stopped
outcome a (ok (some token)) = claimed a
outcome a (err f) = stopped

-- The moves of one worker from the start of `claim`, at most four, with no other between.
unfoldable pub alone : Attempt → Ledger → Ledger × Pc
alone a t =
    let (t1, p1) = advance (started a) t in
    let (t2, p2) = advance p1 t1 in let (t3, p3) = advance p2 t2 in advance p3 t3

-- The moves of a worker, made without interruption, are `claim`: the ledger is the same, and the
-- worker holds the claim exactly when `claim` returns its token.
pub alone-claim : (a : Attempt) (t : Ledger) → alone a t ≡ ((claim a t).1, outcome a (claim a t).0)
unfolding alone advance claim after_insert reclaim_found reclaim reclaim_expired settle_claim
    insert_row update_row put is_duplicate_key_error duplicate_key is_processing not_found
alone-claim a t = ground (arith, same_key_self a.key)
