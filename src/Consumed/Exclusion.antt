-- ===== src/Consumed/Exclusion.antt =====
-- What holds however the calls of the consumers interleave.
use workshop_service.Base.{
  ℕ, ◌+◌, ◌≤◌, ◌<◌, ◌≡◌, refl, sym, ap, ◌∙◌, true, ◌≢◌, inl, inr, ◌↔◌, some, arith, ◌==◌,
  Bool-cases,
}
use mathlib.Core.Path.{subst}
use workshop_service.Text.{Text}
use workshop_service.Text.Laws.{===_iff}
use workshop_service.Consumed.{
  MessageKey, Ledger, same_key, put, Attempt, first_row, insert_row, update_row,
  is_duplicate_key_error, mark_processed, mark_failed, require_one,
}
use workshop_service.Consumed.Workers.{
  Pc, waiting, started, duplicated, found, missed, claimed, stopped, advance, System, at, Tokens,
  Step, tick, begin, run, complete, give_up, crash, Reach, start, later,
}

pub same_key_iff : (k l : MessageKey) → (same_key k l ≡ true) ↔ (k ≡ l)
unfolding same_key
same_key_iff k l =
    ground (arith, ===_iff k.consumer_name l.consumer_name, ===_iff k.event_id l.event_id)

pub same_key_self : (k : MessageKey) → same_key k k ≡ true
same_key_self k = (same_key_iff k k).1 refl

-- What a worker's variables say: its attempt was made with its own token, and not in the future;
-- and while the lease of its claim runs, the row is the one that it wrote.
abbrev pub IsOwn : ℕ → Text → Attempt → Type 0
IsOwn clock token a = (a.token ≡ token) × (a.now ≤ clock)

abbrev pub IsHeld : ℕ → Ledger → Attempt → Type 0
IsHeld clock t a = clock < a.now + a.lease → t a.key ≡ some (first_row a)

abbrev pub IsGood : ℕ → Text → Ledger → Pc → Type 0
IsGood clock token t waiting = Unit
IsGood clock token t (started a) = IsOwn clock token a
IsGood clock token t (duplicated a) = IsOwn clock token a
IsGood clock token t (found a row) = IsOwn clock token a
IsGood clock token t (missed a row) = IsOwn clock token a
IsGood clock token t (claimed a) = IsOwn clock token a × IsHeld clock t a
IsGood clock token t stopped = Unit

pub Inv : Tokens → System → Type 0
Inv ts s = (i : ℕ) → IsGood s.clock (ts.token i) s.ledger (s.pc i)

-- A write of another worker that leaves the rows of running leases alone.
abbrev Spares : ℕ → Ledger → Ledger → Text → Type 0
Spares clock t t' token =
    (b : Attempt)
    → b.token ≡ token
    → clock < b.now + b.lease
    → t b.key ≡ some (first_row b)
    → t' b.key ≡ some (first_row b)

IsGood-other :
    (clock : ℕ) (token : Text) (t t' : Ledger) (p : Pc)
    → Spares clock t t' token
    → IsGood clock token t p
    → IsGood clock token t' p
IsGood-other clock token t t' (claimed a) sp g = (g.0, λ live. sp a g.0.0 live (g.1 live))
IsGood-other clock token t t' waiting sp g = g
IsGood-other clock token t t' (started a) sp g = g
IsGood-other clock token t t' (duplicated a) sp g = g
IsGood-other clock token t t' (found a row) sp g = g
IsGood-other clock token t t' (missed a row) sp g = g
IsGood-other clock token t t' stopped sp g = g

IsGood-later :
    (clock now : ℕ) (token : Text) (t : Ledger) (p : Pc)
    → clock ≤ now
    → IsGood clock token t p
    → IsGood now token t p
IsGood-later clock now token t (claimed a) le g =
    ((g.0.0, omega (arith, g.0.1)), λ live. g.1 (omega arith))
IsGood-later clock now token t waiting le g = g
IsGood-later clock now token t (started a) le g = (g.0, omega (arith, g.1))
IsGood-later clock now token t (duplicated a) le g = (g.0, omega (arith, g.1))
IsGood-later clock now token t (found a row) le g = (g.0, omega (arith, g.1))
IsGood-later clock now token t (missed a row) le g = (g.0, omega (arith, g.1))
IsGood-later clock now token t stopped le g = g

module _ (clock : ℕ) (token : Text) (t : Ledger) where
  -- A worker's own move keeps what its variables say.
  advance-IsGood :
      (p : Pc) → IsGood clock token t p → IsGood clock token (advance p t).0 (advance p t).1
  unfolding advance insert_row update_row put is_duplicate_key_error
  advance-IsGood waiting g = g
  advance-IsGood (started a) g = ground (arith, same_key_self a.key)
  advance-IsGood (duplicated a) g = ground arith
  advance-IsGood (found a row) g = ground (arith, same_key_self a.key)
  advance-IsGood (missed a row) g = ground (arith, same_key_self a.key)
  advance-IsGood (claimed a) g = g
  advance-IsGood stopped g = g

  -- And it spares the running leases of the others.
  advance-Spares :
      (p : Pc) (other : Text) → IsGood clock token t p → Spares clock t (advance p t).0 other
  unfolding advance insert_row update_row put is_duplicate_key_error
  advance-Spares waiting other g b own live h = h
  advance-Spares (started a) other g b own live h = ground (arith, same_key_iff a.key b.key)
  advance-Spares (duplicated a) other g b own live h = h
  advance-Spares (found a row) other g b own live h = ground (arith, same_key_iff a.key b.key)
  advance-Spares (missed a row) other g b own live h = ground (arith, same_key_iff a.key b.key)
  advance-Spares (claimed a) other g b own live h = h
  advance-Spares stopped other g b own live h = h

  -- A mark with a token of its own spares the leases of other tokens.
  mark_processed-Spares :
      (a : Attempt) (other : Text)
      → a.token ≢ other
      → Spares clock t (mark_processed a.key a.token clock t).1 other
  unfolding mark_processed update_row put require_one
  mark_processed-Spares a other ne b own live h =
      ground (arith, same_key_iff a.key b.key, ===_iff b.token a.token)

  mark_failed-Spares :
      (a : Attempt) (other : Text)
      → a.token ≢ other
      → Spares clock t (mark_failed a.key a.token t).1 other
  unfolding mark_failed update_row put require_one
  mark_failed-Spares a other ne b own live h =
      ground (arith, same_key_iff a.key b.key, ===_iff b.token a.token)

==_self : (i : ℕ) → (i == i) ≡ true
==_self i = ground arith

-- A worker's own part of the invariant, and the part of the others, through its move.
module _ (ts : Tokens) (s : System) (inv : Inv ts s) (i : ℕ) where
  unfolding_Inv : (j : ℕ) → IsGood s.clock (ts.token j) s.ledger (s.pc j)
  unfolding Inv
  unfolding_Inv j = inv j

  moved-Inv :
      (t' : Ledger) (p : Pc)
      → IsGood s.clock (ts.token i) t' p
      → ((j : ℕ) → i ≢ j → Spares s.clock s.ledger t' (ts.token j))
      → Inv ts (record s { ledger = t'; pc = at s.pc i p })
  unfolding Inv
  moved-Inv t' p own spares j = elim (Bool-cases (j == i)) [
    | inl e ↦ let e' : j ≡ i = ground arith in rw e' (rw (==_self i) own)
    | inr e ↦ rw e (
        IsGood-other s.clock (ts.token j) s.ledger t' (s.pc j) (spares j (ground arith))
          (unfolding_Inv j))
  ]

-- What the invariant says of a claim.
pub claim-IsGood :
    (ts : Tokens) (s : System) (i : ℕ) (a : Attempt)
    → Inv ts s
    → s.pc i ≡ claimed a
    → IsGood s.clock (ts.token i) s.ledger (claimed a)
unfolding Inv
claim-IsGood ts s i a inv e = subst (IsGood s.clock (ts.token i) s.ledger) e (inv i)

other_token :
    (ts : Tokens) (s : System) (i j : ℕ) (a : Attempt)
    → Inv ts s
    → s.pc i ≡ claimed a
    → i ≢ j
    → a.token ≢ ts.token j
other_token ts s i j a inv e ne same =
    ne (ts.distinct i j (sym (claim-IsGood ts s i a inv e).0.0 ∙ same))

-- Every step keeps the invariant.
pub Step-Inv : {ts : Tokens} {s s' : System} → Step ts s s' → Inv ts s → Inv ts s'
unfolding Inv
Step-Inv {ts} {s} (tick now le) inv =
    λ i. IsGood-later s.clock now (ts.token i) s.ledger (s.pc i) le (inv i)
Step-Inv {ts} {s} (begin i key lease w) inv =
    moved-Inv ts s inv i s.ledger
      (started (record { key = key; now = s.clock; token = ts.token i; lease = lease }))
      (refl, omega arith) (λ j ne b own live h. h)
Step-Inv {ts} {s} (run i) inv =
    moved-Inv ts s inv i (advance (s.pc i) s.ledger).0 (advance (s.pc i) s.ledger).1
      (advance-IsGood s.clock (ts.token i) s.ledger (s.pc i) (inv i))
      (λ j ne. advance-Spares s.clock (ts.token i) s.ledger (s.pc i) (ts.token j) (inv i))
Step-Inv {ts} {s} (complete i a e) inv =
    moved-Inv ts s inv i (mark_processed a.key a.token s.clock s.ledger).1 stopped tt (λ j ne.
      mark_processed-Spares s.clock (ts.token i) s.ledger a (ts.token j)
        (other_token ts s i j a inv e ne))
Step-Inv {ts} {s} (give_up i a e) inv =
    moved-Inv ts s inv i (mark_failed a.key a.token s.ledger).1 stopped tt (λ j ne.
      mark_failed-Spares s.clock (ts.token i) s.ledger a (ts.token j)
        (other_token ts s i j a inv e ne))
Step-Inv {ts} {s} (crash i) inv = moved-Inv ts s inv i s.ledger stopped tt (λ j ne b own live h. h)

pub Reach-Inv : {ts : Tokens} {s : System} → Reach ts s → Inv ts s
unfolding Inv
Reach-Inv (start now t) = λ i. tt
Reach-Inv (later r st) = Step-Inv st (Reach-Inv r)

same_token : (a b : Attempt) → some (first_row a) ≡ some (first_row b) → a.token ≡ b.token
same_token a b e = cc

-- In every state that is reached, with the calls of the workers interleaved in any order, two
-- workers that have claimed the same event for the same consumer, and whose leases both run, are
-- the same worker.
pub claims_exclude :
    (ts : Tokens) (s : System) (i j : ℕ) (a b : Attempt)
    → Reach ts s
    → s.pc i ≡ claimed a
    → s.pc j ≡ claimed b
    → a.key ≡ b.key
    → s.clock < a.now + a.lease
    → s.clock < b.now + b.lease
    → i ≡ j
claims_exclude ts s i j a b r ei ej key live_a live_b =
    let ga = claim-IsGood ts s i a (Reach-Inv r) ei in
    let gb = claim-IsGood ts s j b (Reach-Inv r) ej in
    let same : some (first_row a) ≡ some (first_row b) =
      sym (ga.1 live_a) ∙ ap s.ledger key ∙ gb.1 live_b in
    ts.distinct i j (sym ga.0.0 ∙ same_token a b same ∙ gb.0.0)
