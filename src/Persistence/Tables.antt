-- ===== src/Persistence/Tables.antt =====
-- What a table holds after a write.
use workshop_service.Base.{
  ◌≡◌, refl, Bool, true, false, none, some, List, [], ◌∷◌, arith, inl, inr, All, Bool-cases,
}
use mathlib.Core.Path.{subst}
use workshop_service.Text.{Text, ◌===◌}
use workshop_service.Text.Laws.{===-sym, ===-refl}
use workshop_service.Persistence.{find?, upsert}

module _ {Row : Type 0} where
  -- A row that is found meets the condition.
  pub find?-holds : (p : Row → Bool) (t : List Row) (r : Row) → find? p t ≡ some r → p r ≡ true
  unfolding find?
  find?-holds p [] r e = cc
  find?-holds p (x ∷ t) r e = ground (arith, find?-holds p t r)

  -- What holds of every row holds of the one that is found.
  pub find?-All :
      (P : Row → Type 0) (p : Row → Bool) (t : List Row) (r : Row)
      → All P t
      → find? p t ≡ some r
      → P r
  unfolding find?
  find?-All P p [] r h e = cc
  find?-All P p (x ∷ t) r h e = elim (Bool-cases (p x)) [
    | inl hit ↦ let e' : some x ≡ some r = rw hit at e in subst P (cc) h.0
    | inr miss ↦ find?-All P p t r h.1 (rw miss at e)
  ]

  pub upsert-All :
      (P : Row → Type 0) (same_key : Row → Row → Bool) (r : Row) (t : List Row)
      → All P t
      → P r
      → All P (upsert same_key r t)
  unfolding upsert
  upsert-All P same_key r [] h pr = (pr, tt)
  upsert-All P same_key r (x ∷ t) h pr = ground (arith, upsert-All P same_key r t h.1 pr)

  -- The row of a key, after a write. `key` is what the condition of a look-up reads.
  pub find?-upsert_self :
      (same_key : Row → Row → Bool) (p : Row → Bool) (r : Row) (t : List Row)
      → p r ≡ true
      → ((x : Row) → p x ≡ true → same_key r x ≡ true)
      → find? p (upsert same_key r t) ≡ some r
  unfolding find? upsert
  find?-upsert_self same_key p r [] h k = rw h
  find?-upsert_self same_key p r (x ∷ t) h k =
      ground (arith, k x, find?-upsert_self same_key p r t h k)

  -- A row that is found by nobody yet is found after its write.
  pub find?-upsert_new :
      (same_key : Row → Row → Bool) (p : Row → Bool) (r : Row) (t : List Row)
      → p r ≡ true
      → find? p t ≡ none
      → find? p (upsert same_key r t) ≡ some r
  unfolding find? upsert
  find?-upsert_new same_key p r [] h e = rw h
  find?-upsert_new same_key p r (x ∷ t) h e = ground (arith, find?-upsert_new same_key p r t h)

  -- A write leaves a look-up alone that neither the row nor what it replaces meets.
  pub find?-upsert_other :
      (same_key : Row → Row → Bool) (p : Row → Bool) (r : Row) (t : List Row)
      → p r ≡ false
      → ((x : Row) → same_key r x ≡ true → p x ≡ false)
      → find? p (upsert same_key r t) ≡ find? p t
  unfolding find? upsert
  find?-upsert_other same_key p r [] h k = rw h
  find?-upsert_other same_key p r (x ∷ t) h k =
      ground (arith, k x, find?-upsert_other same_key p r t h k)

  pub find?-upsert-none :
      (same_key : Row → Row → Bool) (p : Row → Bool) (r : Row) (t : List Row)
      → p r ≡ false
      → find? p t ≡ none
      → find? p (upsert same_key r t) ≡ none
  unfolding find? upsert
  find?-upsert-none same_key p r [] h e = rw h
  find?-upsert-none same_key p r (x ∷ t) h e = ground (arith, find?-upsert-none same_key p r t h)

  pub find?-none_found :
      (p q : Row → Bool) (x : Row) (t : List Row)
      → find? p t ≡ none
      → find? q t ≡ some x
      → p x ≡ false
  unfolding find?
  find?-none_found p q x [] e f = cc
  find?-none_found p q x (y ∷ t) e f = ground (arith, find?-none_found p q x t)

-- No two rows have the same value in a column: a unique index.
abbrev pub Distinct : {Row : Type 0} → (Row → Text) → List Row → Type 0
Distinct key [] = Unit
Distinct key (x ∷ t) = (find? (λ y. key y === key x) t ≡ none) × Distinct key t

module _ {Row : Type 0} (same_key : Row → Row → Bool) (key : Row → Text) (r : Row) where
  -- A new row with a value of its own.
  pub upsert-Distinct_new :
      (t : List Row)
      → find? (λ y. key y === key r) t ≡ none
      → find? (same_key r) t ≡ none
      → Distinct key t
      → Distinct key (upsert same_key r t)
  unfolding upsert find?
  upsert-Distinct_new [] e f d = (refl, tt)
  upsert-Distinct_new (x ∷ t) e f d = ground (
    arith,
    ===-sym (key x) (key r),
    find?-upsert-none same_key (λ y. key y === key x) r t,
    upsert-Distinct_new t,
  )

  -- A row that takes the place of one with the same value.
  pub upsert-Distinct :
      (t : List Row) (x : Row)
      → find? (same_key r) t ≡ some x
      → key x ≡ key r
      → Distinct key t
      → Distinct key (upsert same_key r t)
  unfolding upsert find?
  upsert-Distinct [] x e k d = cc
  upsert-Distinct (y ∷ t) x e k d = ground (
    arith,
    find?-none_found (λ z. key z === key y) (same_key r) x t,
    find?-upsert-none same_key (λ z. key z === key y) r t,
    upsert-Distinct t x,
  )

-- Where keys are distinct, a row that is found by any condition is found by its key.
pub find?-own :
    {Row : Type 0} (key : Row → Text) (p : Row → Bool) (x : Row) (t : List Row)
    → Distinct key t
    → find? p t ≡ some x
    → find? (λ y. key y === key x) t ≡ some x
unfolding find?
find?-own key p x [] d e = e
find?-own key p x (y ∷ t) d e = ground (
  arith,
  ===-refl (key y),
  ===-sym (key x) (key y),
  find?-none_found (λ z. key z === key y) p x t d.0,
  find?-own key p x t d.1,
)

module _ {Row : Type 0} (same_key : Row → Row → Bool) (key : Row → Text) (r : Row) where
  -- A row with a value that no row has, put in whatever place.
  pub upsert-Distinct_other :
      (t : List Row)
      → find? (λ y. key y === key r) t ≡ none
      → Distinct key t
      → Distinct key (upsert same_key r t)
  unfolding upsert find?
  upsert-Distinct_other [] e d = (refl, tt)
  upsert-Distinct_other (x ∷ t) e d = ground (
    arith,
    ===-sym (key x) (key r),
    find?-upsert-none same_key (λ y. key y === key x) r t,
    upsert-Distinct_other t,
  )
