-- ===== src/Events/Books.antt =====
-- What a reserve request does to the tables of parts and reservations.
use workshop_service.Base.{
  ℕ, suc, ◌<◌, ◌≤◌, ◌≡◌, refl, false, ◌⊎◌, inl, inr, Option, none, some, List, arith, sym, ap,
}
use mathlib.Core.Path.{subst}
use workshop_service.Text.{Text, text}
use workshop_service.Errors.{Result, ok, err}
use workshop_service.Errors.Action.{lift, ◌>>=◌}
use workshop_service.Messaging.{
  Value, undefined, null, boolean, num, str, array, object, Items, nil, cons, Fields, BrokerMessage,
  Outside,
}
use workshop_service.Broker.{field_of}
use workshop_service.Reservation.{StockReservation, ReserveStockCommand}
use workshop_service.Inventory.{Inventory, Database, Moments}
use workshop_service.Inventory.Rows.{IsKey, DatabaseAnswers}
use workshop_service.Reserving.Steps.{IsKeyed}
use workshop_service.Reserving.Outcomes.{IsSound, AreFresh, Ends, reserve-Ends}
use workshop_service.Reserving.Sound.{Ends-IsSound, Ends-AreFresh, AreApart}
use workshop_service.Reserving.Balance.{IsBalanced, Ends-IsBalanced}
use workshop_service.Events.{Consuming, Visit, consume_once}
use workshop_service.Events.Once.{consume_once-Ran}
use workshop_service.Events.Requests.{as_reserve_requested, fields_of}
use workshop_service.Events.Stocks.{
  Warehouse, in_inventory, reserve_with, reserve_fields, reserve_item, reserve_all,
  reserve_operation, consume_reserve, announce_reservations, publish, reserve_key,
}

-- A part id that is a string is trimmed and not empty.
abbrev pub IsPart : Value → Type 0
IsPart (str part_id) = IsKey part_id
IsPart undefined = Unit
IsPart null = Unit
IsPart (boolean b) = Unit
IsPart (num n) = Unit
IsPart (array items) = Unit
IsPart (object fields) = Unit

abbrev pub HasPart : Option Fields → Type 0
HasPart none = Unit
HasPart (some fields) = IsPart (field_of (text "partId") fields)

abbrev pub HaveParts : Items → Type 0
HaveParts nil = Unit
HaveParts (cons v rest) = HasPart (fields_of v) × HaveParts rest

-- The draws of the calls from the i-th on: new in the tables, and apart from one another.
pub record AreDraws (moments : ℕ → Moments) (i : ℕ) (w : Inventory) : Type 0 where
  pub fresh : (j : ℕ) → i ≤ j → AreFresh (moments j) w
  pub apart : (j l : ℕ) → j < l → AreApart (moments j) (moments l)

-- What one call leaves.
abbrev Left : Moments → Inventory → Inventory → Type 0
Left now w w' = (c : ReserveStockCommand) × IsKeyed c × Ends now c w w'

IsBalanced-trans :
    (id : Text) {a b c : Inventory} → IsBalanced id a b → IsBalanced id b c → IsBalanced id a c
IsBalanced-trans id f g = record { held = omega arith; stock = omega arith }

IsBalanced-refl : (id : Text) (w w' : Inventory) → w' ≡ w → IsBalanced id w w'
IsBalanced-refl id w w' e = subst (IsBalanced id w) (sym e) (record { held = refl; stock = refl })

module _ (db : Database) (up : DatabaseAnswers db) (m : BrokerMessage) (saga : IsKey m.saga_id)
    (order : IsKey m.order_id) where
  with-Left :
      (now : Moments) (part quantity : Value) (w : Inventory)
      → IsPart part
      → IsSound w
      → ((reserve_with db now m part quantity w).1 ≡ w)
        ⊎ Left now w (reserve_with db now m part quantity w).1
  with-Left now (str p) (num q) w key sound =
      let c : ReserveStockCommand = record {
        saga_id = m.saga_id;
        order_id = m.order_id;
        part_id = p;
        quantity = q;
      } in
      let k : IsKeyed c = record { saga = saga; order = order; part = key } in
      inr (c, k, reserve-Ends db up now c k w sound)
  with-Left now (str p) undefined w key sound = inl refl
  with-Left now (str p) null w key sound = inl refl
  with-Left now (str p) (boolean b) w key sound = inl refl
  with-Left now (str p) (str s) w key sound = inl refl
  with-Left now (str p) (array s) w key sound = inl refl
  with-Left now (str p) (object s) w key sound = inl refl
  with-Left now undefined q w key sound = inl refl
  with-Left now null q w key sound = inl refl
  with-Left now (boolean b) q w key sound = inl refl
  with-Left now (num n) q w key sound = inl refl
  with-Left now (array s) q w key sound = inl refl
  with-Left now (object s) q w key sound = inl refl

  fields-Left :
      (now : Moments) (fields : Option Fields) (w : Inventory)
      → HasPart fields
      → IsSound w
      → ((reserve_fields db now m fields w).1 ≡ w) ⊎ Left now w (reserve_fields db now m fields w).1
  fields-Left now none w key sound = inl refl
  fields-Left now (some fields) w key sound =
      with-Left now (field_of (text "partId") fields) (field_of (text "quantity") fields) w key
        sound

  -- The state that a proof carries from one item to the next.
  record Kept (id : Text) (moments : ℕ → Moments) (i : ℕ) (w w' : Inventory) : Type 0 where
    balanced : IsBalanced id w w'
    sound : IsSound w'
    draws : AreDraws moments i w'

  item-Kept :
      (id : Text) (moments : ℕ → Moments) (i : ℕ) (w w' : Inventory)
      → IsSound w
      → AreDraws moments i w
      → (w' ≡ w) ⊎ Left (moments i) w w'
      → Kept id moments (suc i) w w'
  item-Kept id moments i w w' sound draws (inl e) = record {
    balanced = IsBalanced-refl id w w' e;
    sound = subst IsSound (sym e) sound;
    draws = record {
      fresh = λ j le. subst (AreFresh (moments j)) (sym e) (draws.fresh j (omega arith));
      apart = draws.apart;
    };
  }
  item-Kept id moments i w w' sound draws (inr (c, k, ends)) = record {
    balanced = Ends-IsBalanced id (moments i) c w w' (draws.fresh i (omega arith)) ends;
    sound = Ends-IsSound (moments i) c w w' k sound ends;
    draws = record {
      fresh = λ j le.
          Ends-AreFresh (moments i) (moments j) c w w' (draws.apart i j (omega arith))
            (draws.fresh j (omega arith)) ends;
      apart = draws.apart;
    };
  }

  all-IsBalanced :
      (id : Text) (moments : ℕ → Moments) (i : ℕ) (items : Items) (w : Inventory)
      → HaveParts items
      → IsSound w
      → AreDraws moments i w
      → IsBalanced id w (reserve_all db moments i m items w).1
  unfolding reserve_all reserve_item
  all-IsBalanced id moments i nil w keys sound draws = IsBalanced-refl id w w refl
  all-IsBalanced id moments i (cons v rest) w keys sound draws =
      let w' = (reserve_item db (moments i) m v w).1 in
      let kept =
        item-Kept id moments i w w' sound draws
          (fields-Left (moments i) (fields_of v) w keys.0 sound) in
      IsBalanced-trans id kept.balanced
        (all-IsBalanced id moments (suc i) rest w' keys.1 kept.sound kept.draws)

after_reserving :
    (o : Outside) (m : BrokerMessage) (r : Result (List StockReservation)) (w : Warehouse)
    → ((lift r >>= announce_reservations o m) w).1.stock ≡ w.stock
unfolding announce_reservations publish
after_reserving o m (err f) w = refl
after_reserving o m (ok rs) w = ground arith

-- The inventory that the operation leaves is that of the reservations.
operation_inventory :
    (o : Outside) (db : Database) (moments : ℕ → Moments) (m : BrokerMessage) (items : Items)
    (w : Warehouse)
    → (reserve_operation o db moments m items w).1.stock.inventory
      ≡ (reserve_all db moments 0 m items w.stock.inventory).1
unfolding reserve_operation
operation_inventory o db moments m items w =
    ap (λ s. s.inventory)
      (after_reserving o m (in_inventory (reserve_all db moments 0 m items) w).0
        (in_inventory (reserve_all db moments 0 m items) w).1)

-- Consuming a reserve request keeps the books of every part, whatever becomes of the claim, of
-- its items, of the publication and of the mark: the reserved stock moves with the outstanding
-- reservations, and no stock is made or lost. The request is accepted, its saga, order and part
-- ids are trimmed and not empty, the database answers, the tables are sound, and the identifiers
-- that the calls draw are new and differ.
pub consume_reserve-IsBalanced :
    (o : Outside) (db : Database) (up : DatabaseAnswers db) (moments : ℕ → Moments) (v : Visit)
    (m : BrokerMessage) (items : Items) (id : Text) (c : Consuming Warehouse)
    → as_reserve_requested m ≡ ok items
    → IsKey m.saga_id
    → IsKey m.order_id
    → HaveParts items
    → IsSound c.service.stock.inventory
    → AreDraws moments 0 c.service.stock.inventory
    → IsBalanced id c.service.stock.inventory
        (consume_reserve o db moments v m c).1.service.stock.inventory
unfolding consume_reserve
consume_reserve-IsBalanced o db up moments v m items id c accepted saga order keys sound draws =
    let books : Warehouse → Type 0 =
      λ w. IsBalanced id c.service.stock.inventory w.stock.inventory in
    let operation = reserve_operation o db moments m items in
    subst
      (λ r.
        books
          ((lift r >>= λ i.
              consume_once false (reserve_key m) v (reserve_operation o db moments m i))
            c).1.service)
      (sym accepted)
      (elim (consume_once-Ran false (reserve_key m) v operation c) [
        | inl same ↦ subst books (sym same) (IsBalanced-refl id _ _ refl)
        | inr ran ↦ subst books (sym ran) (
            subst (IsBalanced id c.service.stock.inventory)
              (sym (operation_inventory o db moments m items c.service))
              (all-IsBalanced db up m saga order id moments 0 items c.service.stock.inventory keys
                sound draws))
      ])
