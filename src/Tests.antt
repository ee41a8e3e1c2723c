-- ===== src/Tests.antt =====
-- Concrete tables, readings and requests.
pub mod Executions
pub mod Inventories
pub mod Releases
pub mod Messages
pub mod Connections
pub mod Consumers
pub mod Catalog
pub mod Parts
use workshop_service.Base.{ℕ, ◌≡◌, refl, Bool, Option, none, some, [], String}
use workshop_service.Text.{Text, text, ◌===◌}
use workshop_service.Listing.{Engine, AnswersQueries, window, filter, all_of}
use workshop_service.Errors.{ok}
use workshop_service.Persistence.{Orm, Answers, find?, upsert}
use workshop_service.Messaging.{Outside}
use workshop_service.Execution.{Readings}
use workshop_service.Execution.Identity.{Identity}
use workshop_service.Execution.Repository.{World, same_row, ExecutionOrm}

pub same_answer : {A : Type 0} {a b : A} → ok a ≡ ok b → b ≡ a
same_answer e = cc

-- A database that answers every call.
abbrev pub answering : {Row : Type 0} (same : Row → Row → Bool) → Orm Row same
answering same = record {
  find_one = λ p t. ok (find? p t);
  save = λ r t. ok (upsert same r t);
  find_one_lem = λ p t o e. same_answer e;
  save_lem = λ r t t' e. same_answer e;
}

pub answering-Answers : {Row : Type 0} (same : Row → Row → Bool) → Answers (answering same)
answering-Answers same = record { finds = λ p t. refl; saves = λ r t. refl }

abbrev pub executions : ExecutionOrm
executions = answering same_row

-- A broker that confirms every message, and a hash that copies its input.
abbrev pub outside : Outside
outside = record { sha256 = λ t. t; confirm = λ m. ok tt }

abbrev pub empty_world : World
empty_world = record { executions = []; published = []; durations = [] }

abbrev pub reading : String → ℕ → Readings
reading id at = record { fresh_id = text id; queued_now = at; created_now = at; updated_now = at }

abbrev pub identity : Identity
identity = record {
  saga_id = text " saga-1 ";
  order_id = text "order-1";
  request_event_id = some (text "event-1");
  correlation_id = none;
}

-- A database with the rows of every order as they stand, in which rows tie by a test.
abbrev pub querying : {Row : Type 0} → (Row → Row → Bool) → Engine Row Text
querying tie = record {
  arrange = λ o limit offset rows. rows;
  tie = λ c. tie;
  length-arrange = λ o limit offset rows. refl;
  arrange-All = λ o limit offset P rows h. h;
  arrange_untied = λ c d limit offset rows u. refl;
  upper_like = λ a b. a === b;
  lower_like = λ a b. a === b;
  get_many = λ q t. ok (window q.limit q.offset (filter (all_of q.conditions) t));
  get_many_lem = λ q t rows e. same_answer e;
}

pub querying-Answers : {Row : Type 0} (tie : Row → Row → Bool) → AnswersQueries (querying tie)
querying-Answers tie = record { answers = λ q t. refl }
