-- ===== src/Listing.antt =====
-- Filtered, ordered and paged lists: TypeORM's query builder (a third-party package) as an
-- interface, and common/interfaces/paginated-response.interface.ts.
pub mod Pages
pub mod Queries
use workshop_service.Base.{
  ℕ, zero, suc, ◌+◌, ◌-◌, ◌*◌, ◌/◌, ◌≡◌, Bool, true, false, ◌&&◌, Option, none, some, List, [], ◌∷◌,
  All, length, take, get_or, ◌==◌, if◌then◌else◌,
}
use workshop_service.Text.{Text, is_empty}
use workshop_service.Number.{Number, at_most}
use workshop_service.Errors.{Result, ok}

-- `"ASC" | "DESC"`
pub data Direction : Type 0 where
  ascending descending : Direction

module _ {ℓ} {A : Type ℓ} where
  abbrev pub filter : (A → Bool) → List A → List A
  filter p [] = []
  filter p (x ∷ xs) = let rest = filter p xs in if p x then x ∷ rest else rest

  abbrev pub drop : ℕ → List A → List A
  drop zero xs = xs
  drop (suc n) [] = []
  drop (suc n) (x ∷ xs) = drop n xs

  -- The conditions that `andWhere` has added.
  abbrev pub all_of : List (A → Bool) → A → Bool
  all_of [] x = true
  all_of (p ∷ ps) x = p x && all_of ps x

-- What is known of a query builder before `getMany`.
pub record Query (Row Column : Type 0) : Type 0 where
  pub conditions : List (Row → Bool)
  pub order : Option (Column × Direction)
  pub limit : Option ℕ
  pub offset : Option ℕ

abbrev pub window {ℓ} : {A : Type ℓ} → Option ℕ → Option ℕ → List A → List A
window limit offset xs =
    let rest = drop (get_or offset 0) xs in elim limit [ none ↦ rest | some n ↦ take n rest ]

-- No row ties with one above it.
abbrev pub AreUntied : {Row : Type 0} → (Row → Row → Bool) → List Row → Type 0
AreUntied tie [] = Unit
AreUntied tie (x ∷ xs) = All (λ y. tie x y ≡ false) xs × AreUntied tie xs

-- The database under the query builder: the order in which it arranges the rows that meet the
-- conditions (as many as they are, and each one of them), how it compares texts, and `getMany`, which
-- throws or gives what is documented. Rows with the same value in the column of the order tie: the
-- database may arrange them in any way, and in another one for another LIMIT or OFFSET; where none
-- tie there is one arrangement. The comparisons of texts are those of
-- `UPPER(column) LIKE UPPER('%text%')` and `LOWER(column) LIKE LOWER('%text%')`.
pub record Engine (Row Column : Type 0) : Type 1 where
  pub arrange : Option (Column × Direction) → Option ℕ → Option ℕ → List Row → List Row
  pub tie : Column → Row → Row → Bool
  pub length-arrange :
      (o : Option (Column × Direction)) (limit offset : Option ℕ) (rows : List Row)
      → length (arrange o limit offset rows) ≡ length rows
  pub arrange-All :
      (o : Option (Column × Direction)) (limit offset : Option ℕ) (P : Row → Type 0)
      (rows : List Row)
      → All P rows
      → All P (arrange o limit offset rows)
  pub arrange_untied :
      (c : Column) (d : Direction) (limit offset : Option ℕ) (rows : List Row)
      → AreUntied (tie c) rows
      → arrange (some (c, d)) limit offset rows ≡ arrange (some (c, d)) none none rows
  pub upper_like : Text → Text → Bool
  pub lower_like : Text → Text → Bool
  pub get_many : Query Row Column → List Row → Result (List Row)
  pub get_many_lem :
      (q : Query Row Column) (t rows : List Row)
      → get_many q t ≡ ok rows
      → rows
        ≡ window q.limit q.offset
            (arrange q.order q.limit q.offset (filter (all_of q.conditions) t))

-- The database answers every query.
pub record AnswersQueries {Row Column : Type 0} (engine : Engine Row Column) : Type 0 where
  pub answers :
      (q : Query Row Column) (t : List Row)
      → engine.get_many q t
        ≡ ok (
            window q.limit q.offset
              (engine.arrange q.order q.limit q.offset (filter (all_of q.conditions) t)))

-- `if (filters?.x) { queryBuilder.andWhere(…); }`, for a text, a flag and a bound.
module _ {ℓ} {A : Type ℓ} where
  abbrev pub when_text : Option Text → (Text → A) → List A → List A
  when_text none f cs = cs
  when_text (some s) f cs = if is_empty s then cs else f s ∷ cs

  abbrev pub when_flag : Option Bool → A → List A → List A
  when_flag none c cs = cs
  when_flag (some b) c cs = if b then c ∷ cs else cs

  abbrev pub when_given {κ} : {B : Type κ} → Option B → (B → A) → List A → List A
  when_given none f cs = cs
  when_given (some n) f cs = f n ∷ cs

-- `if (filters?.limit) { limit }`
abbrev pub limit_of : Option ℕ → Option ℕ
limit_of none = none
limit_of (some n) = if n == 0 then none else some n

-- `if (filters?.page && filters?.limit) { offset }`
abbrev pub offset_of : Option ℕ → Option ℕ → Option ℕ
offset_of none limit = none
offset_of (some page) none = none
offset_of (some page) (some limit) =
    if page == 0 then none else (if limit == 0 then none else some ((page - 1) * limit))

-- PaginationMeta. `Math.ceil(total / limit)` is no number of pages where the limit is 0.
pub record PaginationMeta : Type 0 where
  pub total : ℕ
  pub page : ℕ
  pub limit : ℕ
  pub total_pages : Option ℕ

pub record PaginatedResponse (A : Type 0) : Type 0 where
  pub content : List A
  pub meta : PaginationMeta

abbrev pub total_pages : ℕ → ℕ → Option ℕ
total_pages total limit = if limit == 0 then none else some ((total + limit - 1) / limit)
