-- ===== src/Errors.antt =====
-- Exceptions as values (common/exceptions/domain.exception.ts): a call ends with a value or with
-- a failure, and a method is a function on the state that it changes, which keeps what was
-- written before a throw.
pub mod Action
pub mod Laws
pub mod Post
use workshop_service.Base.{Bool, true, false, Option, none, some, List, [], ◌∷◌, String}
use workshop_service.Number.{Number}
use workshop_service.Text.{Text}

-- A value under `details`.
pub data Detail : Type 0 where
  text_detail : Text → Detail
  number_detail : Number → Detail

pub record DomainException : Type 0 where
  pub code : Text
  pub message : Text
  pub details : List (String × Detail)

-- `domain` for a `DomainException`, `error` for a plain `Error` with its message.
pub data Failure : Type 0 where
  domain : DomainException → Failure
  error : Text → Failure

pub data Result (A : Type 0) : Type 0 where
  ok : A → Result A
  err : Failure → Result A

infixl 5 ◌>>=◌ ◌>>◌
abbrev pub ◌>>=◌ : {A B : Type 0} → Result A → (A → Result B) → Result B
ok a >>= f = f a
err e >>= f = err e

abbrev pub ◌>>◌ : {A B : Type 0} → Result A → Result B → Result B
m >> k = m >>= λ _. k

-- `if (b) throw e;`
abbrev pub raise_if : Bool → Failure → Result (Unit {0})
raise_if b e = elim b [ true ↦ err e | false ↦ ok tt ]

abbrev pub or_raise : {A : Type 0} → Option A → Failure → Result A
or_raise none e = err e
or_raise (some a) e = ok a

-- `xs.map(f)` with an `f` that may throw: the first throw ends it.
abbrev pub cons_result : {B : Type 0} → Result B → Result (List B) → Result (List B)
cons_result (ok y) (ok ys) = ok (y ∷ ys)
cons_result (ok y) (err e) = err e
cons_result (err e) ys = err e

unfoldable pub map_result : {A B : Type 0} → (A → Result B) → List A → Result (List B)
map_result f [] = ok []
map_result f (x ∷ xs) = cons_result (f x) (map_result f xs)
