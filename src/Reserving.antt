-- ===== src/Reserving.antt =====
-- StockReservationService (part/application/services/stock-reservation.service.ts). The answer of
-- an operation is the reservation: `toResultDto` copies its fields.
pub mod Steps
pub mod Outcomes
pub mod Sound
pub mod Balance
pub mod Leak
pub mod Repeated
pub mod Settled
use workshop_service.Base.{
  ℕ, Bool, true, false, not, Option, none, some, [], ◌∷◌, if◌then◌else◌, String,
}
use workshop_service.Number.{Number}
use workshop_service.Text.{Text, text}
use workshop_service.Errors.{
  DomainException, Failure, domain, error, text_detail, number_detail, Result, ok, err,
}
use workshop_service.Errors.Action.{Action, pure, raise, lift, gets, ◌>>=◌, ◌>>◌, try_catch}
use workshop_service.Part.{Part}
use workshop_service.Part.Methods.{reserve_stock, release_stock, commit_reserved_stock}
use workshop_service.Reservation
use workshop_service.Reservation.{
  reserved, same_status, StockReservation, ReserveStockCommand, create_reserved, create_failed,
  matches_reservation_request,
}
use workshop_service.Inventory.{
  Inventory, Database, Moments, find_part, save_part, find_reservation, save_reservation,
}

-- A method of the part that this call holds.
abbrev pub on_part : Action Part (Unit {0}) → Part → Action Inventory Part
on_part m p w = let (r, p') = m p in elim r [ ok a ↦ (ok p', w) | err f ↦ (err f, w) ]

-- The same for the reservation.
abbrev pub on_reservation :
    Action StockReservation (Unit {0}) → StockReservation → Action Inventory StockReservation
on_reservation m r w = let (x, r') = m r in elim x [ ok a ↦ (ok r', w) | err f ↦ (err f, w) ]

-- part/domain/exceptions/stock-reservation-conflict.exception.ts
unfoldable pub stock_reservation_conflict : ReserveStockCommand → Number → Failure
stock_reservation_conflict c expected = domain (record {
  code = text "STOCK_RESERVATION_CONFLICT";
  message = text "Stock reservation already exists with a different quantity.";
  details =
      ("sagaId", text_detail c.saga_id)
      ∷ ("orderId", text_detail c.order_id)
      ∷ ("partId", text_detail c.part_id)
      ∷ ("expectedQuantity", number_detail expected)
      ∷ ("receivedQuantity", number_detail c.quantity)
      ∷ [];
})

-- part/domain/exceptions/stock-reservation-not-found.exception.ts
unfoldable pub stock_reservation_not_found : Text → Text → Text → Failure
stock_reservation_not_found saga_id order_id part_id = domain (record {
  code = text "STOCK_RESERVATION_NOT_FOUND";
  message = text "Stock reservation was not found.";
  details =
      ("sagaId", text_detail saga_id)
      ∷ ("orderId", text_detail order_id)
      ∷ ("partId", text_detail part_id)
      ∷ [];
})

-- A FAILED reservation, created and saved.
unfoldable pub record_failure :
    Database → Moments → ReserveStockCommand → Text → Text → Action Inventory StockReservation
record_failure db now c code reason = do
  r ← lift (create_failed now.failure c code reason)
  save_reservation db now r

-- The `try` block of `reserveStock`.
unfoldable pub attempt_reservation :
    Database → Moments → ReserveStockCommand → Part → Action Inventory StockReservation
attempt_reservation db now c part = do
  moved ← on_part (reserve_stock c.quantity now.at) part
  save_part db now moved
  r ← lift (create_reserved now.attempt c)
  save_reservation db now r

-- Its `catch` block.
unfoldable pub recover_reservation :
    Database → Moments → ReserveStockCommand → Failure → Action Inventory StockReservation
recover_reservation db now c (domain e) = record_failure db now c e.code e.message
recover_reservation db now c (error message) = raise (error message)

-- `reserveStock`, from the look-up of the part on.
unfoldable pub reserve_from :
    Database → Moments → ReserveStockCommand → Option Part → Action Inventory StockReservation
unfolding record_failure attempt_reservation recover_reservation
reserve_from db now c none =
    record_failure db now c (text "PART_NOT_FOUND")
      (text "Part was not found for stock reservation.")
reserve_from db now c (some part) =
    try_catch (attempt_reservation db now c part) (recover_reservation db now c)

-- `reserveStock`, from the look-up of the reservation on.
unfoldable pub reserve_unless :
    Database
    → Moments
    → ReserveStockCommand
    → Option StockReservation
    → Action Inventory StockReservation
unfolding reserve_from
reserve_unless db now c (some existing) =
    if not (matches_reservation_request existing c.quantity)
    then raise (stock_reservation_conflict c existing.quantity)
    else pure existing
reserve_unless db now c none = do part ← find_part db now c.part_id; reserve_from db now c part

-- `reserveStock`
unfoldable pub reserve :
    Database → Moments → ReserveStockCommand → Action Inventory StockReservation
unfolding reserve_unless
reserve db now c = do
  existing ← find_reservation db now c.saga_id c.order_id c.part_id
  reserve_unless db now c existing

-- `"release" | "commit"`
pub data Settlement : Type 0 where
  release commit : Settlement

-- The changes of the part and of the reservation in `applyReservationSettlement`.
unfoldable pub settle_part : Settlement → Number → ℕ → Action Part (Unit {0})
settle_part release quantity at = release_stock quantity at
settle_part commit quantity at = commit_reserved_stock quantity at

unfoldable pub settle_reservation : Settlement → ℕ → Action StockReservation (Unit {0})
settle_reservation release at = Reservation.release none at
settle_reservation commit at = Reservation.commit at

-- The reservation, failed and saved.
unfoldable pub fail_settlement :
    Database → Moments → StockReservation → Text → Text → Action Inventory StockReservation
fail_settlement db now r code reason = do
  failed ← on_reservation (Reservation.fail code reason now.at) r
  save_reservation db now failed

-- What the `try` block of `applyReservationSettlement` changes: the tables, and the reservation
-- that the `catch` block goes on with.
pub record Held : Type 0 where
  pub inventory : Inventory
  pub reservation : StockReservation

abbrev pub in_inventory : {A : Type 0} → Action Inventory A → Action Held A
in_inventory m h = let (x, w) = m h.inventory in (x, record h { inventory = w })

abbrev pub in_reservation : {A : Type 0} → Action StockReservation A → Action Held A
in_reservation m h = let (x, r) = m h.reservation in (x, record h { reservation = r })

-- Its `try` block.
unfoldable pub attempt_settlement :
    Database → Moments → Settlement → Part → Action Held StockReservation
unfolding settle_part settle_reservation
attempt_settlement db now s part = do
  r ← gets (λ h. h.reservation)
  moved ← in_inventory (on_part (settle_part s r.quantity now.at) part)
  in_reservation (settle_reservation s now.at)
  in_inventory (save_part db now moved)
  settled ← gets (λ h. h.reservation)
  in_inventory (save_reservation db now settled)

-- Its `catch` block.
unfoldable pub recover_settlement : Database → Moments → Failure → Action Held StockReservation
recover_settlement db now (domain e) = do
  r ← gets (λ h. h.reservation)
  in_inventory (fail_settlement db now r e.code e.message)
recover_settlement db now (error message) = raise (error message)

-- `applyReservationSettlement`, from the look-up of the part on.
unfoldable pub settle_with :
    Database
    → Moments
    → Settlement
    → StockReservation
    → Option Part
    → Action Inventory StockReservation
unfolding fail_settlement attempt_settlement recover_settlement
settle_with db now s r none w =
    fail_settlement db now r (text "PART_NOT_FOUND")
      (text "Part was not found while settling the stock reservation.") w
settle_with db now s r (some part) w =
    let (x, h) =
      try_catch (attempt_settlement db now s part) (recover_settlement db now)
        (record { inventory = w; reservation = r }) in
    (x, h.inventory)

-- `applyReservationSettlement`
unfoldable pub apply_settlement :
    Database → Moments → Settlement → StockReservation → Action Inventory StockReservation
unfolding settle_with
apply_settlement db now s r = do part ← find_part db now r.part_id; settle_with db now s r part

-- From the reservation that is found: one that is not RESERVED is answered as it is.
unfoldable pub settle_found :
    Database
    → Moments
    → Settlement
    → Text
    → Text
    → Text
    → Option StockReservation
    → Action Inventory StockReservation
unfolding apply_settlement
settle_found db now s saga_id order_id part_id none =
    raise (stock_reservation_not_found saga_id order_id part_id)
settle_found db now s saga_id order_id part_id (some r) =
    if not (same_status r.status reserved) then pure r else apply_settlement db now s r

-- `releaseStockReservation` and `commitStockReservation`
unfoldable pub settle :
    Database → Moments → Settlement → Text → Text → Text → Action Inventory StockReservation
unfolding settle_found
settle db now s saga_id order_id part_id = do
  found ← find_reservation db now saga_id order_id part_id
  settle_found db now s saga_id order_id part_id found
