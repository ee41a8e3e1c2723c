-- ===== src/Reserving/Steps.antt =====
-- What the steps of `reserveStock` do where the database answers and its rows can be read.
use workshop_service.Base.{
  ℕ, ◌≡◌, refl, true, false, ◌⊎◌, inl, inr, Option, none, some, [], arith, ap, ◌∙◌, Bool-cases,
}
use workshop_service.Number.{Number, less, plus, minus}
use workshop_service.Text.{Text, text}
use workshop_service.Errors.{DomainException, Failure, domain, error, Result, ok, err}
use workshop_service.Errors.Action.{Action, lift, ◌>>=◌, ◌>>◌}
use workshop_service.Part.{
  Part, quantity_invalid, validate, validate_available_quantity, validate_reserved_quantity,
}
use workshop_service.Part.Methods.{
  is_no_movement, reserve_stock, validate_movement_quantity, ensure_available_stock,
  insufficient_stock,
}
use workshop_service.Part.Stock.{IsStocked}
use workshop_service.Persistence.{upsert}
use workshop_service.Reservation.{
  StockReservation, StockReservationStatus, reserved, failed, ReservationReadings,
  ReserveStockCommand, props_of, new_reservation, create_reserved, create_failed,
  validate_identifier, validate_quantity,
}
use workshop_service.Inventory.{
  Inventory, Database, Moments, part_to_orm, reservation_to_orm, same_part, same_reservation,
  save_part, save_reservation,
}
use workshop_service.Inventory.Rows.{
  IsAcceptedPart, IsAcceptedReservation, IsKey, DatabaseAnswers, save_part_lem,
  save_reservation_lem,
}
use workshop_service.Reserving.{on_part, record_failure, attempt_reservation}

-- The part once the quantity is reserved.
abbrev pub taken : Number → ℕ → Part → Part
taken q at p = record p {
  available_quantity = minus p.available_quantity q;
  reserved_quantity = plus p.reserved_quantity q;
  updated_at = at;
}

abbrev exception_of : Failure → DomainException
exception_of (domain e) = e
exception_of (error message) = record { code = []; message = message; details = [] }

-- `reserveStock` of the part throws a `DomainException` and leaves the part, or takes.
pub reserve_stock_cases :
    (q : Number) (at : ℕ) (p : Part)
    → ((e : DomainException) × (reserve_stock q at p ≡ (err (domain e), p)))
      ⊎ ((reserve_stock q at p ≡ (ok tt, taken q at p)) × (is_no_movement q ≡ false))
unfolding reserve_stock validate_movement_quantity ensure_available_stock insufficient_stock
    quantity_invalid
reserve_stock_cases q at p = elim (Bool-cases (is_no_movement q)) [
  | inl bad ↦ inl (
    exception_of (quantity_invalid q (text "Quantity must be a positive integer.")),
    rw (bad, reserve_stock) refl,
  )
  | inr good ↦ elim (Bool-cases (less p.available_quantity q)) [
    | inl short ↦ inl (
      exception_of (insufficient_stock p.available_quantity q),
      rw (good, short, reserve_stock) refl,
    )
    | inr enough ↦ inr (rw (good, enough, reserve_stock) refl, good)
  ]
]

-- The reservation of a command, with a status and a failure.
abbrev pub reservation_for :
    ReservationReadings
    → ReserveStockCommand
    → StockReservationStatus
    → Option Text
    → Option Text
    → StockReservation
reservation_for now c s code reason = record {
  id = now.fresh_id;
  saga_id = c.saga_id;
  order_id = c.order_id;
  part_id = c.part_id;
  quantity = c.quantity;
  status = s;
  failure_code = code;
  failure_reason = reason;
  released_by_event_id = none;
  released_at = none;
  created_at = now.created_now;
  updated_at = now.updated_now;
}

-- The identifiers of the command are trimmed and not empty.
pub record IsKeyed (c : ReserveStockCommand) : Type 0 where
  pub saga : IsKey c.saga_id
  pub order : IsKey c.order_id
  pub part : IsKey c.part_id

module _ (now : ReservationReadings) (c : ReserveStockCommand) (s : StockReservationStatus)
    (code reason : Option Text) (k : IsKeyed c) where
  pub new_reservation_lem :
      is_no_movement c.quantity ≡ false
      → new_reservation now (props_of c s code reason) ≡ ok (reservation_for now c s code reason)
  unfolding new_reservation validate_identifier validate_quantity
  new_reservation_lem h = ground (arith, k.saga, k.order, k.part)

  pub new_reservation_refused :
      is_no_movement c.quantity ≡ true
      → (f : Failure) × (new_reservation now (props_of c s code reason) ≡ err f)
  unfolding new_reservation validate_identifier validate_quantity
  new_reservation_refused h = (
    quantity_invalid c.quantity (text "Reservation quantity must be a positive integer."),
    ground (arith, k.saga, k.order, k.part),
  )

  pub reservation_for-IsAccepted :
      is_no_movement c.quantity ≡ false
      → IsAcceptedReservation (reservation_for now c s code reason)
  reservation_for-IsAccepted h = record {
    saga = k.saga;
    order = k.order;
    part = k.part;
    quantity = h;
  }

-- An accepted part is still accepted with other counts.
pub taken-IsAccepted :
    (q : Number) (at : ℕ) (p : Part)
    → IsAcceptedPart p
    → IsStocked (taken q at p)
    → IsAcceptedPart (taken q at p)
unfolding validate validate_available_quantity validate_reserved_quantity
taken-IsAccepted q at p a s = record {
  code = a.code;
  valid = ground (arith, a.valid, s.available, s.reserved);
}

-- The tables with a reservation more.
abbrev pub with_reservation : StockReservation → Inventory → Inventory
with_reservation r w = record w {
  reservations = upsert same_reservation (reservation_to_orm r) w.reservations;
}

abbrev pub with_part : Part → Inventory → Inventory
with_part p w = record w { parts = upsert same_part (part_to_orm p) w.parts }

-- The `try` block after the part is saved, and after the part's method has ended.
abbrev pub after_part :
    Database
    → Moments
    → ReserveStockCommand
    → Action Inventory Part
    → Action Inventory StockReservation
after_part db now c m = m >> (lift (create_reserved now.attempt c) >>= save_reservation db now)

abbrev pub after_move :
    Database
    → Moments
    → ReserveStockCommand
    → Result (Unit {0}) × Part
    → Part
    → Action Inventory StockReservation
after_move db now c x p =
    on_part (λ _. x) p >>= λ moved. after_part db now c (save_part db now moved)

module _ (db : Database) (up : DatabaseAnswers db) (now : Moments) (c : ReserveStockCommand)
    (k : IsKeyed c) where
  -- A failure is recorded, unless the quantity cannot be recorded at all.
  pub record_failure_cases :
      (code reason : Text) (w : Inventory)
      → ((record_failure db now c code reason w).1 ≡ w)
        ⊎ ((is_no_movement c.quantity ≡ false)
            × ((record_failure db now c code reason w).1
                ≡ with_reservation
                    (reservation_for now.failure c failed (some code) (some reason))
                    w))
  unfolding record_failure create_failed
  record_failure_cases code reason w = elim (Bool-cases (is_no_movement c.quantity)) [
    | inl bad ↦
        let (f, e) = new_reservation_refused now.failure c failed (some code) (some reason) k bad in
        inl (ap (λ m. ((lift m >>= save_reservation db now) w).1) e)
    | inr good ↦
        let made = new_reservation_lem now.failure c failed (some code) (some reason) k good in
        let fit =
          reservation_for-IsAccepted now.failure c failed (some code) (some reason) k good in
        inr (
          good,
          ap (λ m. ((lift m >>= save_reservation db now) w).1) made
              ∙ ap (λ m. m.1) (save_reservation_lem db up now _ w fit),
        )
  ]

  -- A quantity that the part cannot give changes nothing.
  pub attempt_refused :
      (p : Part) (e : DomainException) (w : Inventory)
      → reserve_stock c.quantity now.at p ≡ (err (domain e), p)
      → attempt_reservation db now c p w ≡ (err (domain e), w)
  unfolding attempt_reservation
  attempt_refused p e w h = ap (λ x. after_move db now c x p w) h

  -- Else the part and the reservation are saved.
  pub attempt_taken :
      (p : Part) (w : Inventory)
      → IsAcceptedPart (taken c.quantity now.at p)
      → reserve_stock c.quantity now.at p ≡ (ok tt, taken c.quantity now.at p)
      → is_no_movement c.quantity ≡ false
      → attempt_reservation db now c p w ≡ (
        ok (reservation_for now.attempt c reserved none none),
        with_reservation
            (reservation_for now.attempt c reserved none none)
            (with_part (taken c.quantity now.at p) w),
      )
  unfolding attempt_reservation create_reserved
  attempt_taken p w a h good =
      let fit = reservation_for-IsAccepted now.attempt c reserved none none k good in
      ap (λ x. after_move db now c x p w) h
      ∙ ap (λ y. after_part db now c (λ _. y) w)
          (save_part_lem db up now (taken c.quantity now.at p) w a)
      ∙ ap (λ m. (lift m >>= save_reservation db now) (with_part (taken c.quantity now.at p) w))
          (new_reservation_lem now.attempt c reserved none none k good)
      ∙ save_reservation_lem db up now (reservation_for now.attempt c reserved none none)
          (with_part (taken c.quantity now.at p) w) fit
