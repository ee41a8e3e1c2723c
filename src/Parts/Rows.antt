-- ===== src/Parts/Rows.antt =====
-- Tables in which no two rows clash.
use workshop_service.Base.{◌≡◌, refl, Bool, true, none, some, List, [], ◌∷◌, arith}
use workshop_service.Persistence.{find?, upsert}
use workshop_service.Persistence.Tables.{find?-upsert-none, find?-none_found}

pub find?-none_mono :
    {Row : Type 0} (p q : Row → Bool) (t : List Row)
    → ((y : Row) → q y ≡ true → p y ≡ true)
    → find? p t ≡ none
    → find? q t ≡ none
unfolding find?
find?-none_mono p q [] h e = refl
find?-none_mono p q (y ∷ t) h e = ground (arith, h y, find?-none_mono p q t h)

module _ {Row : Type 0} (clash : Row → Row → Bool) where
  -- No row clashes with one above it.
  abbrev pub Apart : List Row → Type 0
  Apart [] = Unit
  Apart (x ∷ t) = (find? (λ y. clash y x) t ≡ none) × Apart t

  module _ (clash-sym : (a b : Row) → clash a b ≡ clash b a) (same_key : Row → Row → Bool)
      (r : Row) where
    -- A row that clashes with none, put in whatever place.
    pub upsert-Apart_other :
        (t : List Row) → find? (λ y. clash y r) t ≡ none → Apart t → Apart (upsert same_key r t)
    unfolding upsert find?
    upsert-Apart_other [] e d = (refl, tt)
    upsert-Apart_other (x ∷ t) e d = ground (
      arith,
      clash-sym x r,
      find?-upsert-none same_key (λ y. clash y x) r t,
      upsert-Apart_other t,
    )

    -- A row in place of one with which more rows clash.
    pub upsert-Apart :
        (t : List Row) (x : Row)
        → find? (same_key r) t ≡ some x
        → ((y : Row) → clash y r ≡ true → clash y x ≡ true)
        → Apart t
        → Apart (upsert same_key r t)
    unfolding upsert find?
    upsert-Apart [] x e k d = cc
    upsert-Apart (y ∷ t) x e k d = ground (
      arith,
      clash-sym r y,
      clash-sym x y,
      k y,
      find?-none_mono (λ z. clash z x) (λ z. clash z r) t k,
      find?-none_found (λ z. clash z y) (same_key r) x t,
      find?-upsert-none same_key (λ z. clash z y) r t,
      upsert-Apart t x,
    )
