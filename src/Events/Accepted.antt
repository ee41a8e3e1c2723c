-- ===== src/Events/Accepted.antt =====
-- What the consumers accept, against what the services accept.
use workshop_service.Base.{
  ◌≡◌, refl, Bool, true, false, Option, none, some, List, [], ◌∷◌, arith, sym, Bool-cases, inl, inr,
}
use mathlib.Core.Path.{subst}
use workshop_service.Number.{Number, same, number}
use workshop_service.Text.{Text, text, trim, is_empty}
use workshop_service.Text.Laws.{trim-trim, ===-refl}
use workshop_service.Errors.{Result, ok, err, ◌>>=◌, raise_if, map_result, cons_result}
use workshop_service.Errors.Laws.{>>=-eq-ok}
use workshop_service.Messaging.{
  Value, Items, nil, cons, Fields, end, object, undefined, null, boolean, num, str, array,
  BrokerMessage,
}
use workshop_service.Broker.{field_of}
use workshop_service.Execution.Identity.{normalize_identity}
use workshop_service.Execution.{required_identifier, optional_identifier}
use workshop_service.Part.Methods.{is_no_movement}
use workshop_service.Releasing.{
  StockReleaseCommandItem, normalize_item, normalize_command, required, has_duplicates, has_none,
}
use workshop_service.Events.Requests.{
  Dates, as_execution_requested, is_invalid_execution, is_empty_payload, invalid_execution,
  normalized, positive_integer, item_with, item_from, release_item, release_items, fields_of,
  ReleaseRequest, as_release_requested, is_invalid_release, release_request_of, reservations_in,
  listed, has_no_items, invalid_release,
}
use workshop_service.Events.Executions.{identity_of}
use workshop_service.Events.Stocks.{release_command}

-- The normal form of an accepted request.
abbrev normal : BrokerMessage → BrokerMessage
normal m = record {
  event_id = trim m.event_id;
  event_name = text "execution.requested";
  event_version = number 1;
  occurred_at = m.occurred_at;
  correlation_id = trim m.correlation_id;
  causation_id = trim m.causation_id;
  saga_id = trim m.saga_id;
  order_id = trim m.order_id;
  payload = object end;
}

module _ (dates : Dates) (m : BrokerMessage) (valid : is_invalid_execution dates m ≡ false) where
  normal_valid : is_invalid_execution dates (normal m) ≡ false
  unfolding is_invalid_execution is_empty_payload
  normal_valid = ground (
    arith,
    ===-refl (text "execution.requested"),
    trim-trim m.event_id,
    trim-trim m.correlation_id,
    trim-trim m.causation_id,
    trim-trim m.saga_id,
    trim-trim m.order_id,
  )

  normal_again : as_execution_requested dates (normal m) ≡ ok (normal m)
  unfolding as_execution_requested
  normal_again = ground (
    arith,
    normal_valid,
    trim-trim m.event_id,
    trim-trim m.correlation_id,
    trim-trim m.causation_id,
    trim-trim m.saga_id,
    trim-trim m.order_id,
  )

  normal_identity : normalize_identity (identity_of (normal m)) ≡ ok (identity_of (normal m))
  unfolding normalize_identity identity_of required_identifier optional_identifier
      is_invalid_execution
  normal_identity = ground (
    arith,
    trim-trim m.event_id,
    trim-trim m.correlation_id,
    trim-trim m.saga_id,
    trim-trim m.order_id,
  )

accepted_execution :
    (dates : Dates) (m input : BrokerMessage)
    → as_execution_requested dates m ≡ ok input
    → (is_invalid_execution dates m ≡ false) × (input ≡ normal m)
unfolding as_execution_requested
accepted_execution dates m input h = elim (Bool-cases (is_invalid_execution dates m)) [
  | inl bad ↦ let e : err invalid_execution ≡ ok input = rw bad at h in cc
  | inr good ↦ let e : ok (normal m) ≡ ok input = rw good at h in (good, cc)
]

-- An accepted execution request is in its normal form: validated again it is accepted as it is,
-- and the service takes its four identifiers as they are.
pub as_execution_requested_again :
    (dates : Dates) (m input : BrokerMessage)
    → as_execution_requested dates m ≡ ok input
    → (as_execution_requested dates input ≡ ok input)
      × (normalize_identity (identity_of input) ≡ ok (identity_of input))
as_execution_requested_again dates m input h =
    let (valid, e) = accepted_execution dates m input h in
    subst
      (λ i.
        (as_execution_requested dates i ≡ ok i)
        × (normalize_identity (identity_of i) ≡ ok (identity_of i)))
      (sym e) (normal_again dates m valid, normal_identity dates m valid)

normalized_fits :
    (v : Value) (p : Text) → normalized v ≡ some p → (trim p ≡ p) × (is_empty p ≡ false)
unfolding normalized
normalized_fits (str s) p h = ground (arith, trim-trim s)
normalized_fits undefined p h = cc
normalized_fits null p h = cc
normalized_fits (boolean b) p h = cc
normalized_fits (num n) p h = cc
normalized_fits (array s) p h = cc
normalized_fits (object s) p h = cc

positive_integer_fits :
    (v : Value) (q : Number) → positive_integer v ≡ some q → is_no_movement q ≡ false
unfolding positive_integer
positive_integer_fits (num n) q h = elim (Bool-cases (is_no_movement n)) [
  | inl bad ↦ absurd (ground arith)
  | inr good ↦ ground arith
]
positive_integer_fits undefined p h = cc
positive_integer_fits null p h = cc
positive_integer_fits (boolean b) p h = cc
positive_integer_fits (str n) p h = cc
positive_integer_fits (array s) p h = cc
positive_integer_fits (object s) p h = cc

item_fits :
    (a b : Value) (p : Option Text) (q : Option Number) (x : StockReleaseCommandItem)
    → normalized a ≡ p
    → positive_integer b ≡ q
    → item_with p q ≡ ok x
    → normalize_item x ≡ ok x
unfolding normalize_item required
item_fits a b none q x ea eb h = cc
item_fits a b (some p) none x ea eb h = cc
item_fits a b (some p) (some q) x ea eb h =
    ground (arith, normalized_fits a p ea, positive_integer_fits b q eb)

from_fits :
    (fields : Option Fields) (x : StockReleaseCommandItem)
    → item_from fields ≡ ok x
    → normalize_item x ≡ ok x
from_fits none x h = cc
from_fits (some fields) x h =
    item_fits (field_of (text "partId") fields) (field_of (text "quantity") fields) _ _ x refl refl
      h

pub cons_result_ok :
    {B : Type 0} (r : Result B) (rs : Result (List B)) (ys : List B)
    → cons_result r rs ≡ ok ys
    → (x : B) × (xs : List B) × (r ≡ ok x) × (rs ≡ ok xs) × (ys ≡ x ∷ xs)
cons_result_ok (ok x) (ok xs) ys h = (x, xs, refl, refl, cc)
cons_result_ok (ok x) (err f) ys h = cc
cons_result_ok (err f) rs ys h = cc

items_fit :
    (items : Items) (xs : List StockReleaseCommandItem)
    → release_items items ≡ ok xs
    → map_result normalize_item xs ≡ ok xs
unfolding release_items map_result release_item
items_fit nil xs h =
    let e : [] ≡ xs = cc in subst (λ ys. map_result normalize_item ys ≡ ok ys) e refl
items_fit (cons v rest) xs h =
    let (y, ys, ey, eys, e) = cons_result_ok (release_item v) (release_items rest) xs h in
    subst (λ zs. map_result normalize_item zs ≡ ok zs) (sym e)
      (rw (from_fits (fields_of v) y ey, items_fit rest ys eys) refl)

items_filled :
    (o : Option Items) (xs : List StockReleaseCommandItem)
    → has_no_items o ≡ false
    → release_items (listed o) ≡ ok xs
    → has_none xs ≡ false
unfolding release_items
items_filled none xs h e = cc
items_filled (some nil) xs h e = cc
items_filled (some (cons v rest)) xs h e =
    let (y, ys, ey, eys, same) = cons_result_ok (release_item v) (release_items rest) xs e in
    subst (λ zs. has_none zs ≡ false) (sym same) refl

module _ (dates : Dates) (m : BrokerMessage) (xs : List StockReleaseCommandItem)
    (valid : is_invalid_release dates m ≡ false) (items : map_result normalize_item xs ≡ ok xs)
    (filled : has_none xs ≡ false) (distinct : has_duplicates xs ≡ false) where
  command_fits :
      normalize_command (release_command (release_request_of m xs))
      ≡ ok (release_command (release_request_of m xs))
  unfolding normalize_command release_command required is_invalid_release
  command_fits = ground (
    arith,
    trim-trim m.event_id,
    trim-trim m.correlation_id,
    trim-trim m.saga_id,
    trim-trim m.order_id,
  )

has_items :
    (dates : Dates) (m : BrokerMessage)
    → is_invalid_release dates m ≡ false
    → has_no_items (reservations_in (fields_of m.payload)) ≡ false
unfolding is_invalid_release
has_items dates m h = ground arith

raised :
    {B : Type 0} (b : Bool) (next : Result B) (y : B)
    → (raise_if b invalid_release >>= λ _. next) ≡ ok y
    → (b ≡ false) × (next ≡ ok y)
raised true next y h = cc
raised false next y h = (refl, h)

-- What the consumer accepts as a release request, the release service accepts as it is: the
-- command that is made of it is its own normal form.
pub as_release_requested-fits :
    (dates : Dates) (m : BrokerMessage) (r : ReleaseRequest)
    → as_release_requested dates m ≡ ok r
    → normalize_command (release_command r) ≡ ok (release_command r)
unfolding as_release_requested
as_release_requested-fits dates m r h =
    let items = reservations_in (fields_of m.payload) in
    let (valid, h1) = raised (is_invalid_release dates m) _ r h in
    let (xs, exs, h2) = >>=-eq-ok (release_items (listed items)) _ h1 in
    let (distinct, h3) = raised (has_duplicates xs) _ r h2 in
    let e : release_request_of m xs ≡ r = cc h3 in
    subst (λ s. normalize_command (release_command s) ≡ ok (release_command s)) e
      (command_fits dates m xs valid (items_fit (listed items) xs exs)
        (items_filled items xs (has_items dates m valid) exs) distinct)
