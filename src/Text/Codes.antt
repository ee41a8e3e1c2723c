-- ===== src/Text/Codes.antt =====
-- Texts without spaces, texts that `toUpperCase` leaves alone, and the two together: what the
-- normalisation of a code gives, and why it changes nothing the second time.
use workshop_service.Base.{
  ℕ, zero, suc, ◌≤◌, ◌≡◌, refl, Bool, false, [], ◌∷◌, ◌++◌, arith, ap, All, take, length, List,
}
use workshop_service.Text.{
  Text, is_space, trim_start, trim_end, keep_before, trim, upper_unit, to_upper_case, squeeze,
  replace_spaces,
}

abbrev pub NoSpace : ℕ → Type 0
NoSpace c = is_space c ≡ false

abbrev pub IsUpper : ℕ → Type 0
IsUpper c = upper_unit c ≡ c ∷ []

pub All-take {ℓ κ} : {A : Type ℓ} (P : A → Type κ) (n : ℕ) (s : List A) → All P s → All P (take n s)
All-take P zero s h = tt
All-take P (suc n) [] h = tt
All-take P (suc n) (c ∷ s) h = (h.0, All-take P n s h.1)

All-append {ℓ κ} : {A : Type ℓ} (P : A → Type κ) (s t : List A) → All P s → All P t → All P (s ++ t)
All-append P [] t h k = k
All-append P (c ∷ s) t h k = (h.0, All-append P s t h.1 k)

trim_start_of_NoSpace : (s : Text) → All NoSpace s → trim_start s ≡ s
unfolding trim_start
trim_start_of_NoSpace [] h = refl
trim_start_of_NoSpace (c ∷ s) h = rw h.0

keep_before_of_NoSpace : (c : ℕ) (s : Text) → NoSpace c → keep_before c s ≡ c ∷ s
keep_before_of_NoSpace c [] h = rw h
keep_before_of_NoSpace c (d ∷ s) h = refl

trim_end_of_NoSpace : (s : Text) → All NoSpace s → trim_end s ≡ s
unfolding trim_end
trim_end_of_NoSpace [] h = refl
trim_end_of_NoSpace (c ∷ s) h = rw (trim_end_of_NoSpace s h.1) (keep_before_of_NoSpace c s h.0)

-- A text without spaces is trimmed.
pub trim_of_NoSpace : (s : Text) → All NoSpace s → trim s ≡ s
unfolding trim
trim_of_NoSpace s h = rw (trim_start_of_NoSpace s h) (trim_end_of_NoSpace s h)

underscore-NoSpace : NoSpace b'_'
unfolding is_space
underscore-NoSpace = refl

squeeze-NoSpace : (b : Bool) (s : Text) → All NoSpace (squeeze b s)
unfolding squeeze
squeeze-NoSpace b [] = tt
squeeze-NoSpace b (c ∷ s) = ground (arith, squeeze-NoSpace (is_space c) s, underscore-NoSpace)

pub replace_spaces-NoSpace : (s : Text) → All NoSpace (replace_spaces s)
unfolding replace_spaces
replace_spaces-NoSpace s = squeeze-NoSpace false s

squeeze_of_NoSpace : (b : Bool) (s : Text) → All NoSpace s → squeeze b s ≡ s
unfolding squeeze
squeeze_of_NoSpace b [] h = refl
squeeze_of_NoSpace b (c ∷ s) h = rw h.0 (ap (λ t. c ∷ t) (squeeze_of_NoSpace false s h.1))

pub replace_spaces_of_NoSpace : (s : Text) → All NoSpace s → replace_spaces s ≡ s
unfolding replace_spaces
replace_spaces_of_NoSpace s h = squeeze_of_NoSpace false s h

upper_unit-IsUpper : (c : ℕ) → All IsUpper (upper_unit c)
unfolding upper_unit
upper_unit-IsUpper c = ground arith

pub to_upper_case-IsUpper : (s : Text) → All IsUpper (to_upper_case s)
unfolding to_upper_case
to_upper_case-IsUpper [] = tt
to_upper_case-IsUpper (c ∷ s) =
    All-append IsUpper (upper_unit c) (to_upper_case s) (upper_unit-IsUpper c)
      (to_upper_case-IsUpper s)

pub to_upper_case_of_IsUpper : (s : Text) → All IsUpper s → to_upper_case s ≡ s
unfolding to_upper_case
to_upper_case_of_IsUpper [] h = refl
to_upper_case_of_IsUpper (c ∷ s) h = rw (h.0, to_upper_case_of_IsUpper s h.1)

underscore-IsUpper : IsUpper b'_'
unfolding upper_unit
underscore-IsUpper = refl

squeeze-IsUpper : (b : Bool) (s : Text) → All IsUpper s → All IsUpper (squeeze b s)
unfolding squeeze
squeeze-IsUpper b [] h = tt
squeeze-IsUpper b (c ∷ s) h = ground (arith, squeeze-IsUpper (is_space c) s h.1, underscore-IsUpper)

pub replace_spaces-IsUpper : (s : Text) → All IsUpper s → All IsUpper (replace_spaces s)
unfolding replace_spaces
replace_spaces-IsUpper s h = squeeze-IsUpper false s h

pub take_of_le {ℓ} : {A : Type ℓ} (n : ℕ) (s : List A) → length s ≤ n → take n s ≡ s
take_of_le zero [] h = refl
take_of_le zero (c ∷ s) h = absurd (omega arith)
take_of_le (suc n) [] h = refl
take_of_le (suc n) (c ∷ s) h = ap (λ t. c ∷ t) (take_of_le n s (omega arith))
