-- ===== src/Listing/Queries.antt =====
-- What a query gives, read by a mapper.
use workshop_service.Base.{
  ℕ, zero, suc, ◌<◌, ◌≡◌, refl, sym, ap, ◌∙◌, Bool, Option, none, some, List, [], ◌∷◌, map, All,
  take, length, arith, get_or,
}
use workshop_service.Errors.{Result, ok, err, map_result}
use workshop_service.Errors
use workshop_service.Listing.{
  Direction, Query, Engine, AnswersQueries, filter, drop, window, all_of, limit_of, offset_of,
}
use workshop_service.Listing.Pages.{nth_page}

All-filter {ℓ κ} :
    {A : Type ℓ} (P : A → Type κ) (c : A → Bool) (xs : List A) → All P xs → All P (filter c xs)
All-filter P c [] h = tt
All-filter P c (x ∷ xs) h = ground (arith, All-filter P c xs)

All-take {ℓ κ} : {A : Type ℓ} (P : A → Type κ) (n : ℕ) (xs : List A) → All P xs → All P (take n xs)
All-take P zero xs h = tt
All-take P (suc n) [] h = tt
All-take P (suc n) (x ∷ xs) h = (h.0, All-take P n xs h.1)

All-drop {ℓ κ} : {A : Type ℓ} (P : A → Type κ) (n : ℕ) (xs : List A) → All P xs → All P (drop n xs)
All-drop P zero xs h = h
All-drop P (suc n) [] h = tt
All-drop P (suc n) (x ∷ xs) h = All-drop P n xs h.1

map-take {ℓ κ} :
    {A : Type ℓ} {B : Type κ} (f : A → B) (n : ℕ) (xs : List A)
    → map f (take n xs) ≡ take n (map f xs)
map-take f zero xs = refl
map-take f (suc n) [] = refl
map-take f (suc n) (x ∷ xs) = ap (λ t. f x ∷ t) (map-take f n xs)

map-drop {ℓ κ} :
    {A : Type ℓ} {B : Type κ} (f : A → B) (n : ℕ) (xs : List A)
    → map f (drop n xs) ≡ drop n (map f xs)
map-drop f zero xs = refl
map-drop f (suc n) [] = refl
map-drop f (suc n) (x ∷ xs) = map-drop f n xs

pub length-map {ℓ κ} :
    {A : Type ℓ} {B : Type κ} (f : A → B) (xs : List A) → length (map f xs) ≡ length xs
length-map f [] = refl
length-map f (x ∷ xs) = omega (arith, length-map f xs)

map-window {ℓ κ} :
    {A : Type ℓ} {B : Type κ} (f : A → B) (limit offset : Option ℕ) (xs : List A)
    → map f (window limit offset xs) ≡ window limit offset (map f xs)
map-window f none offset xs = map-drop f (get_or offset 0) xs
map-window f (some n) offset xs =
    map-take f n (drop (get_or offset 0) xs) ∙ ap (take n) (map-drop f (get_or offset 0) xs)

All-window {ℓ κ} :
    {A : Type ℓ} (P : A → Type κ) (limit offset : Option ℕ) (xs : List A)
    → All P xs
    → All P (window limit offset xs)
All-window P none offset xs h = All-drop P (get_or offset 0) xs h
All-window P (some n) offset xs h = All-take P n _ (All-drop P (get_or offset 0) xs h)

-- The whole of what a query is about, in its order.
abbrev pub selected :
    {Row Column : Type 0} → Engine Row Column → Query Row Column → List Row → List Row
selected engine q t = engine.arrange q.order q.limit q.offset (filter (all_of q.conditions) t)

module _ {Row Column B : Type 0} (engine : Engine Row Column) (read : Row → Result B)
    (entity : Row → B) (P : Row → Type 0)
    (read_lem : (r : Row) → P r → read r ≡ ok (entity r)) where
  map_result-map : (rows : List Row) → All P rows → map_result read rows ≡ ok (map entity rows)
  unfolding map_result
  map_result-map [] h = refl
  map_result-map (r ∷ rows) h = rw (read_lem r h.0, map_result-map rows h.1) refl

  -- `toDomainList(await queryBuilder.getMany())` on rows that can be read.
  pub get_many-map_result :
      (up : AnswersQueries engine) (q : Query Row Column) (t : List Row)
      → All P t
      → Errors.◌>>=◌ (engine.get_many q t) (map_result read)
        ≡ ok (window q.limit q.offset (map entity (selected engine q t)))
  get_many-map_result up q t h =
      let rows = filter (all_of q.conditions) t in
      let kept = All-window P q.limit q.offset _ (
        engine.arrange-All q.order q.limit q.offset P rows
          (All-filter P (all_of q.conditions) t h)) in
      ap (λ r. Errors.◌>>=◌ r (map_result read)) (up.answers q t)
      ∙ map_result-map _ kept
      ∙ ap ok (map-window entity q.limit q.offset _)

module _ {Row Column B : Type 0} (engine : Engine Row Column) (entity : Row → B) where
  -- Neither the order nor the window changes how much is selected.
  pub length-selected :
      (o : Option (Column × Direction)) (limit offset : Option ℕ) (q : Query Row Column)
      (t : List Row)
      → length
          (map entity (selected engine (record q { order = o; limit = limit; offset = offset }) t))
        ≡ length (map entity (selected engine q t))
  length-selected o limit offset q t =
      let rows = filter (all_of q.conditions) t in
      length-map entity (engine.arrange o limit offset rows)
      ∙ engine.length-arrange o limit offset rows
      ∙ sym (engine.length-arrange q.order q.limit q.offset rows)
      ∙ sym (length-map entity (engine.arrange q.order q.limit q.offset rows))

-- The window of a page.
pub window-nth_page :
    {A : Type 0} (limit k : ℕ) (xs : List A)
    → 0 < limit
    → window (limit_of (some limit)) (offset_of (some (suc k)) (some limit)) xs
      ≡ nth_page limit k xs
window-nth_page zero k xs h = elim h [ ]
window-nth_page (suc l) k xs h = ground arith
