-- ===== src/Events/Once.antt =====
-- An event that comes again, after a consumption that returned and after one that failed.
use workshop_service.Base.{
  ℕ, ◌≡◌, ◌≢◌, refl, sym, ap, ◌∙◌, Bool, Option, none, some, arith, ◌+◌, leb, if◌then◌else◌, ◌⊎◌,
  inl, inr, Option-cases,
}
use mathlib.Core.Path.{subst}
use workshop_service.Text.{Text, text}
use workshop_service.Text.Laws.{===-refl}
use workshop_service.Errors.{Failure, Result, ok, err}
use workshop_service.Errors.Laws.{bind-eq-ok}
use workshop_service.Errors.Action.{Action, lift, ◌>>=◌}
use workshop_service.Consumed.{
  first_row, claimed_row, processed_row, failed_row, processing, processed, failed, MessageRow,
  MessageKey, Ledger, claim, mark_processed, mark_failed, insert_row, update_row, put, after_insert,
  reclaim_found, reclaim, reclaim_expired, settle_claim, is_duplicate_key_error, duplicate_key,
  require_one, is_processing,
}
use workshop_service.Consumed.Exclusion.{same_key_self}
use workshop_service.Events.{
  Consuming, Visit, attempt_of, consume_once, consume_claimed, or_abandon, perform, abandon,
  in_ledger, in_service, settled, try_mark_failed,
}

-- The event is marked as processed.
abbrev pub IsDone : MessageKey → Ledger → Type 0
IsDone k t = (row : MessageRow) × (t k ≡ some row) × (row.status ≡ processed)

-- The event is claimed under the token, until the end of the lease.
abbrev pub IsHeld : MessageKey → Visit → Text → Ledger → Type 0
IsHeld k v token t =
    (row : MessageRow) × (t k ≡ some row)
    × (row.status ≡ processing)
    × (row.claim_token ≡ some token)
    × (row.lease_expires_at ≡ some (v.now + v.lease))

-- The event has failed.
abbrev pub HasFailed : MessageKey → Ledger → Type 0
HasFailed k t = (row : MessageRow) × (t k ≡ some row) × (row.status ≡ failed)

claim_of_done :
    (k : MessageKey) (v : Visit) (t : Ledger) → IsDone k t → claim (attempt_of k v) t ≡ (ok none, t)
unfolding claim after_insert insert_row reclaim_found reclaim is_duplicate_key_error duplicate_key
claim_of_done k v t (row, found, st) = ground (arith, ===-refl (text "ER_DUP_ENTRY"))

claim_of_failed :
    (k : MessageKey) (v : Visit) (t : Ledger)
    → HasFailed k t
    → (claim (attempt_of k v) t).0 ≡ ok (some v.token)
unfolding claim after_insert insert_row reclaim_found reclaim is_duplicate_key_error duplicate_key
    reclaim_expired settle_claim update_row put
claim_of_failed k v t (row, found, st) = ground (arith, ===-refl (text "ER_DUP_ENTRY"))

claim-none_row :
    (k : MessageKey) (v : Visit) (t t' : Ledger) (row : MessageRow)
    → t k ≡ some row
    → claim (attempt_of k v) t ≡ (ok none, t')
    → (t' k ≡ some row) × (row.status ≡ processed)
unfolding claim after_insert insert_row reclaim_found reclaim is_duplicate_key_error duplicate_key
    reclaim_expired settle_claim update_row put
claim-none_row k v t t' row found h = ground (arith, ===-refl (text "ER_DUP_ENTRY"))

claim-none_new :
    (k : MessageKey) (v : Visit) (t t' : Ledger)
    → t k ≡ none
    → claim (attempt_of k v) t ≡ (ok none, t')
    → IsDone k t'
unfolding claim after_insert insert_row
claim-none_new k v t t' new h = absurd (ground arith)

claim-none :
    (k : MessageKey) (v : Visit) (t t' : Ledger)
    → claim (attempt_of k v) t ≡ (ok none, t')
    → IsDone k t'
claim-none k v t t' h = elim (Option-cases (t k)) [
  | inl new ↦ claim-none_new k v t t' new h
  | inr (row, found) ↦ let (a, b) = claim-none_row k v t t' row found h in (row, a, b)
]

claim_held_row :
    (k : MessageKey) (v : Visit) (t t' : Ledger) (row : MessageRow) (token : Text)
    → t k ≡ some row
    → claim (attempt_of k v) t ≡ (ok (some token), t')
    → (token ≡ v.token) × (t' k ≡ some (claimed_row (attempt_of k v) row))
unfolding claim after_insert insert_row reclaim_found reclaim is_duplicate_key_error duplicate_key
    reclaim_expired settle_claim update_row put
claim_held_row k v t t' row token found h =
    ground (arith, ===-refl (text "ER_DUP_ENTRY"), same_key_self k)

claim_held_new :
    (k : MessageKey) (v : Visit) (t t' : Ledger) (token : Text)
    → t k ≡ none
    → claim (attempt_of k v) t ≡ (ok (some token), t')
    → (token ≡ v.token) × (t' k ≡ some (first_row (attempt_of k v)))
unfolding claim after_insert insert_row put
claim_held_new k v t t' token new h = ground (arith, same_key_self k)

-- A claim that returned a token has left the row that `first_row` describes.
claim-IsHeld :
    (k : MessageKey) (v : Visit) (t t' : Ledger) (token : Text)
    → claim (attempt_of k v) t ≡ (ok (some token), t')
    → IsHeld k v token t'
claim-IsHeld k v t t' token h = elim (Option-cases (t k)) [
  | inl new ↦
      let (e, f) = claim_held_new k v t t' token new h in
      (first_row (attempt_of k v), f, refl, ap some (sym e), refl)
  | inr (row, found) ↦
      let (e, f) = claim_held_row k v t t' row token found h in
      (claimed_row (attempt_of k v) row, f, refl, ap some (sym e), refl)
]

mark_processed-some :
    (k : MessageKey) (token : Text) (now : ℕ) (t t' : Ledger) (row : MessageRow)
    → t k ≡ some row
    → mark_processed k token now t ≡ (ok tt, t')
    → t' k ≡ some (processed_row now row)
unfolding mark_processed update_row require_one put
mark_processed-some k token now t t' row found h = ground (arith, same_key_self k)

mark_processed-none :
    (k : MessageKey) (token : Text) (now : ℕ) (t t' : Ledger)
    → t k ≡ none
    → mark_processed k token now t ≢ (ok tt, t')
unfolding mark_processed update_row require_one
mark_processed-none k token now t t' new h = ground arith

mark_processed-IsDone :
    (k : MessageKey) (token : Text) (now : ℕ) (t t' : Ledger)
    → mark_processed k token now t ≡ (ok tt, t')
    → IsDone k t'
mark_processed-IsDone k token now t t' h = elim (Option-cases (t k)) [
  | inl new ↦ absurd (mark_processed-none k token now t t' new h)
  | inr (row, found) ↦
      (processed_row now row, mark_processed-some k token now t t' row found h, refl)
]

put_self : (k : MessageKey) (row : MessageRow) (t : Ledger) → put k row t k ≡ some row
unfolding put
put_self k row t = ground (arith, same_key_self k)

-- The mark of a claim that is held.
mark_failed_of_held :
    (k : MessageKey) (token : Text) (t : Ledger) (row : MessageRow)
    → t k ≡ some row
    → row.status ≡ processing
    → row.claim_token ≡ some token
    → mark_failed k token t ≡ (ok tt, put k (failed_row row) t)
unfolding mark_failed update_row require_one put
mark_failed_of_held k token t row found st tok = ground (arith, ===-refl token)

module _ {S : Type 0} (swallow : Bool) (k : MessageKey) (v : Visit)
    (operation : Action S (Unit {0})) where
  abandon-ne-ok :
      (token : Text) (f : Failure) (c c' : Consuming S)
      → abandon swallow k v token f c ≢ (ok tt, c')
  unfolding abandon
  abandon-ne-ok token f c c' h = cc (ap (λ r. r.0) h)

  or_abandon_ok :
      (token : Text) (r : Result (Unit {0}) × Consuming S) (c' : Consuming S)
      → or_abandon swallow k v token r ≡ (ok tt, c')
      → r ≡ (ok tt, c')
  or_abandon_ok token (ok done, c) c' h = h
  or_abandon_ok token (err f, c) c' h = absurd (abandon-ne-ok token f c c' h)

  perform-IsDone :
      (token : Text) (c c' : Consuming S)
      → perform k v token operation c ≡ (ok tt, c')
      → IsDone k c'.ledger
  unfolding perform
  perform-IsDone token c c' h =
      let (a, e, rest) =
        bind-eq-ok (in_service operation) (λ _. in_ledger (mark_processed k token v.later)) c h in
      mark_processed-IsDone k token v.later c.ledger c'.ledger
        (λ i. ((rest i).0, ((rest i).1).ledger))

  claimed-IsDone :
      (r : Result (Option Text)) (t : Ledger) (c c' : Consuming S)
      → claim (attempt_of k v) c.ledger ≡ (r, t)
      → (lift r >>= consume_claimed swallow k v operation) (record c { ledger = t }) ≡ (ok tt, c')
      → IsDone k c'.ledger
  unfolding consume_claimed
  claimed-IsDone (err f) t c c' e h = absurd (cc (ap (λ r. r.0) h))
  claimed-IsDone (ok none) t c c' e h =
      subst (IsDone k) (λ i. ((h i).1).ledger) (claim-none k v c.ledger t e)
  claimed-IsDone (ok (some token)) t c c' e h =
      perform-IsDone token _ c' (or_abandon_ok token _ c' h)

  -- A consumption that returned has marked the event.
  pub consume_once-IsDone :
      (c c' : Consuming S) → consume_once swallow k v operation c ≡ (ok tt, c') → IsDone k c'.ledger
  unfolding consume_once
  consume_once-IsDone c c' h = claimed-IsDone _ _ c c' refl h

  consume_once_done :
      (c : Consuming S) → IsDone k c.ledger → consume_once swallow k v operation c ≡ (ok tt, c)
  unfolding consume_once consume_claimed
  consume_once_done c d =
      ap (λ y. (lift y.0 >>= consume_claimed swallow k v operation) (record c { ledger = y.1 }))
        (claim_of_done k v c.ledger d)

claim_of_held :
    (k : MessageKey) (v v' : Visit) (token : Text) (t : Ledger)
    → IsHeld k v token t
    → (claim (attempt_of k v') t).0
      ≡ (if leb (v.now + v.lease) v'.now then ok (some v'.token) else err is_processing)
unfolding claim after_insert insert_row reclaim_found reclaim is_duplicate_key_error duplicate_key
    reclaim_expired settle_claim update_row put
claim_of_held k v v' token t (row, found, st, tok, lease) =
    ground (arith, ===-refl (text "ER_DUP_ENTRY"))

-- What a failed operation leaves, for the claim that `IsHeld` describes: with a mark that is
-- written, and with one at which the database throws.
module _ {S : Type 0} (swallow : Bool) (k : MessageKey) (v : Visit)
    (operation : Action S (Unit {0})) where
  claimed_failed :
      (token : Text) (f : Failure) (s : S) (c : Consuming S)
      → operation c.service ≡ (err f, s)
      → consume_claimed swallow k v operation (some token) c
        ≡ abandon swallow k v token f (record c { service = s })
  unfolding consume_claimed perform
  claimed_failed token f s c e =
      ap
        (λ y.
          or_abandon swallow k v token
            ((in_service (λ _. y) >>= λ _. in_ledger (mark_processed k token v.later)) c))
        e

  abandon_marked :
      (token : Text) (f : Failure) (c : Consuming S) (row : MessageRow)
      → v.mark_fault ≡ none
      → c.ledger k ≡ some row
      → row.status ≡ processing
      → row.claim_token ≡ some token
      → abandon swallow k v token f c
        ≡ (err f, record c { ledger = put k (failed_row row) c.ledger })
  unfolding abandon
  abandon_marked token f c row none_thrown found st tok =
      ap
        (λ o. (
          err (settled swallow (try_mark_failed o k token c.ledger).0 f),
          record c { ledger = (try_mark_failed o k token c.ledger).1 },
        ))
        none_thrown
      ∙ ap (λ y. (err (settled swallow y.0 f), record c { ledger = y.1 }))
          (mark_failed_of_held k token c.ledger row found st tok)

  abandon_unmarked :
      (token : Text) (f g : Failure) (c : Consuming S)
      → v.mark_fault ≡ some g
      → abandon swallow k v token f c ≡ (err (if swallow then f else g), c)
  unfolding abandon
  abandon_unmarked token f g c thrown =
      ap
        (λ o. (
          err (settled swallow (try_mark_failed o k token c.ledger).0 f),
          record c { ledger = (try_mark_failed o k token c.ledger).1 },
        ))
        thrown

  failed_run :
      (token : Text) (t : Ledger) (f : Failure) (s : S) (c : Consuming S)
      → claim (attempt_of k v) c.ledger ≡ (ok (some token), t)
      → operation c.service ≡ (err f, s)
      → consume_once swallow k v operation c
        ≡ abandon swallow k v token f (record { service = s; ledger = t })
  unfolding consume_once
  failed_run token t f s c e o =
      ap (λ y. (lift y.0 >>= consume_claimed swallow k v operation) (record c { ledger = y.1 })) e
      ∙ claimed_failed token f s (record c { ledger = t }) o

  -- What the next consumption with the same event meets.
  abbrev pub MayClaim : Visit → Failure → S → Consuming S → Type 0
  MayClaim v' f s c =
      (c' : Consuming S) × (consume_once swallow k v operation c ≡ (err f, c'))
      × (c'.service ≡ s)
      × ((claim (attempt_of k v') c'.ledger).0 ≡ ok (some v'.token))

  abbrev pub MayClaimLater : Visit → Failure → S → Consuming S → Type 0
  MayClaimLater v' f s c =
      (c' : Consuming S) × (consume_once swallow k v operation c ≡ (err f, c'))
      × (c'.service ≡ s)
      × ((claim (attempt_of k v') c'.ledger).0
          ≡ (if leb (v.now + v.lease) v'.now then ok (some v'.token) else err is_processing))

  -- An event is claimed and its operation throws; what the operation did before is kept. If the
  -- database takes the mark, the consumption throws the error of the operation, and the next claim
  -- of the event, at any time, returns its token. If the database throws at the mark, that error is
  -- thrown in place of the other unless it is swallowed, and the next claim returns its token from
  -- the end of the lease on, and is refused before.
  pub consume_once_retried :
      (v' : Visit) (token : Text) (t : Ledger) (f : Failure) (s : S) (c : Consuming S)
      → claim (attempt_of k v) c.ledger ≡ (ok (some token), t)
      → operation c.service ≡ (err f, s)
      → ((v.mark_fault ≡ none) × MayClaim v' f s c)
        ⊎ ((g : Failure) × (v.mark_fault ≡ some g)
            × MayClaimLater v' (if swallow then f else g) s c)
  unfolding put
  consume_once_retried v' token t f s c e o =
      let (row, found, st, tok, lease) = claim-IsHeld k v c.ledger t token e in
      let run = failed_run token t f s c e o in
      let c1 : Consuming S = record { service = s; ledger = t } in
      elim (Option-cases v.mark_fault) [
        | inl fine ↦ inl (
          fine,
          (
            record { service = s; ledger = put k (failed_row row) t },
            run ∙ abandon_marked token f c1 row fine found st tok,
            refl,
            claim_of_failed k v' (put k (failed_row row) t)
                (failed_row row, put_self k (failed_row row) t, refl),
          ),
        )
        | inr (g, thrown) ↦ inr (
          g,
          thrown,
          (
            c1,
            run ∙ abandon_unmarked token f g c1 thrown,
            refl,
            claim_of_held k v v' token t (row, found, st, tok, lease),
          ),
        )
      ]

-- An event whose consumption returned is consumed once: a later consumption of the same event by
-- the same consumer, with any operation, clock, token and lease, returns too and changes nothing.
pub consume_once_again :
    {S : Type 0} (swallow swallow' : Bool) (k : MessageKey) (v v' : Visit)
    (operation operation' : Action S (Unit {0})) (c c' : Consuming S)
    → consume_once swallow k v operation c ≡ (ok tt, c')
    → consume_once swallow' k v' operation' c' ≡ (ok tt, c')
consume_once_again swallow swallow' k v v' operation operation' c c' h =
    consume_once_done swallow' k v' operation' c' (consume_once-IsDone swallow k v operation c c' h)

-- The service after a consumption: as before, or as the operation left it.
module _ {S : Type 0} (swallow : Bool) (k : MessageKey) (v : Visit)
    (operation : Action S (Unit {0})) where
  abbrev Ran : Consuming S → Result (Unit {0}) × Consuming S → Type 0
  Ran c r = (r.1.service ≡ c.service) ⊎ (r.1.service ≡ (operation c.service).1)

  perform_service :
      (token : Text) (c : Consuming S)
      → (perform k v token operation c).1.service ≡ (operation c.service).1
  unfolding perform
  perform_service token c = after_operation (operation c.service)
    where
      after_operation :
          (r : Result (Unit {0}) × S)
          → ((in_service (λ _. r) >>= λ _. in_ledger (mark_processed k token v.later)) c).1.service
            ≡ r.1
      after_operation (ok done, s) = refl
      after_operation (err f, s) = refl

  or_abandon_service :
      (token : Text) (r : Result (Unit {0}) × Consuming S)
      → (or_abandon swallow k v token r).1.service ≡ r.1.service
  unfolding abandon
  or_abandon_service token (ok done, c) = refl
  or_abandon_service token (err f, c) = refl

  claimed-Ran :
      (r : Result (Option Text)) (t : Ledger) (c : Consuming S)
      → Ran c ((lift r >>= consume_claimed swallow k v operation) (record c { ledger = t }))
  unfolding consume_claimed
  claimed-Ran (err f) t c = inl refl
  claimed-Ran (ok none) t c = inl refl
  claimed-Ran (ok (some token)) t c =
      inr (or_abandon_service token _ ∙ perform_service token (record c { ledger = t }))

  pub consume_once-Ran : (c : Consuming S) → Ran c (consume_once swallow k v operation c)
  unfolding consume_once
  consume_once-Ran c = claimed-Ran _ _ c

  -- An operation that changes nothing leaves the service alone, whatever becomes of the claim.
  pub consume_once_inert :
      (c : Consuming S)
      → (operation c.service).1 ≡ c.service
      → (consume_once swallow k v operation c).1.service ≡ c.service
  consume_once_inert c same = elim (consume_once-Ran c) [ inl e ↦ e | inr e ↦ e ∙ same ]
