-- ===== src/Listing/Pages.antt =====
-- The pages of a list.
use workshop_service.Base.{
  ℕ, zero, suc, ◌+◌, ◌-◌, ◌*◌, ◌/◌, ◌≤◌, ◌<◌, ◌≡◌, refl, sym, ap, ◌∙◌, List, [], ◌∷◌, ◌++◌, take,
  length, length-take, arith, some,
}
use workshop_service.Listing.{drop, total_pages}

zero_plus : (n : ℕ) → 0 + n ≡ n
zero_plus n = omega arith

suc_plus : (m n : ℕ) → suc m + n ≡ suc (m + n)
suc_plus m n = omega arith

zero_times : (n : ℕ) → 0 ≡ 0 * n
zero_times n = omega arith

suc_times : (k n : ℕ) → k * n + n ≡ suc k * n
suc_times k n = grind arith

-- The number of pages that Math.ceil computes is enough for the whole list.
pages_enough : (n limit : ℕ) → 0 < limit → n ≤ (n + limit - 1) / limit * limit
pages_enough n limit h = grind arith

past_enough : (n limit k : ℕ) → 0 < limit → n ≤ ((n + limit - 1) / limit + k) * limit
past_enough n limit k h = grind (arith, pages_enough)

pub total_pages_pos :
    (n limit : ℕ) → 0 < limit → total_pages n limit ≡ some ((n + limit - 1) / limit)
total_pages_pos n limit h = ground arith

module _ {ℓ} {A : Type ℓ} where
  take_nil : (n : ℕ) → take {A = A} n [] ≡ []
  take_nil zero = refl
  take_nil (suc n) = refl

  take-add : (m n : ℕ) (xs : List A) → take (m + n) xs ≡ take m xs ++ take n (drop m xs)
  take-add zero n xs = ap (λ k. take k xs) (zero_plus n)
  take-add (suc m) n [] = take_nil (suc m + n) ∙ sym (take_nil n)
  take-add (suc m) n (x ∷ xs) =
      ap (λ k. take k (x ∷ xs)) (suc_plus m n) ∙ ap (λ t. x ∷ t) (take-add m n xs)

  drop_all : (n : ℕ) (xs : List A) → length xs ≤ n → drop n xs ≡ []
  drop_all zero [] h = refl
  drop_all zero (x ∷ xs) h = absurd (omega arith)
  drop_all (suc n) [] h = refl
  drop_all (suc n) (x ∷ xs) h = drop_all n xs (omega arith)

  take_all : (n : ℕ) (xs : List A) → length xs ≤ n → take n xs ≡ xs
  take_all zero [] h = refl
  take_all zero (x ∷ xs) h = absurd (omega arith)
  take_all (suc n) [] h = refl
  take_all (suc n) (x ∷ xs) h = ap (λ t. x ∷ t) (take_all n xs (omega arith))

  -- The page after so many others.
  abbrev pub nth_page : ℕ → ℕ → List A → List A
  nth_page limit k xs = take limit (drop (k * limit) xs)

  -- The first pages one after another.
  unfoldable pub join_pages : ℕ → ℕ → List A → List A
  join_pages limit zero xs = []
  join_pages limit (suc k) xs = join_pages limit k xs ++ nth_page limit k xs

  join_pages-take : (limit k : ℕ) (xs : List A) → join_pages limit k xs ≡ take (k * limit) xs
  unfolding join_pages
  join_pages-take limit zero xs = ap (λ n. take n xs) (zero_times limit)
  join_pages-take limit (suc k) xs =
      ap (λ t. t ++ nth_page limit k xs) (join_pages-take limit k xs)
      ∙ sym (take-add (k * limit) limit xs)
      ∙ ap (λ n. take n xs) (suc_times k limit)

  -- The pages up to the number that Math.ceil computes are the list, one after another; no page
  -- is longer than the limit; and past those pages there is nothing.
  pub record ArePages (limit : ℕ) (xs : List A) : Type ℓ where
    pub joined : join_pages limit ((length xs + limit - 1) / limit) xs ≡ xs
    pub bounded : (k : ℕ) → length (nth_page limit k xs) ≤ limit
    pub ended : (k : ℕ) → nth_page limit ((length xs + limit - 1) / limit + k) xs ≡ []

  pub limit-ArePages : (limit : ℕ) (xs : List A) → 0 < limit → ArePages limit xs
  limit-ArePages limit xs h = record {
    joined = join_pages-take limit _ xs ∙ take_all _ xs (pages_enough (length xs) limit h);
    bounded = λ k. length-take limit (drop (k * limit) xs);
    ended =
        λ k. ap (take limit) (drop_all _ xs (past_enough (length xs) limit k h)) ∙ take_nil limit;
  }
