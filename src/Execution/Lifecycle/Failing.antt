-- ===== src/Execution/Lifecycle/Failing.antt =====
-- The failure code and the reason that an execution keeps.
use workshop_service.Base.{
  ◌≤◌, ◌≡◌, refl, false, [], ◌∷◌, arith, inl, inr, All, take, length, length-take, Bool-cases, ℕ,
  Bool, ◌&&◌, ◌||◌, not, leb, ◌==◌,
}
use workshop_service.Text.{Text, trim, is_empty, to_upper_case, replace_spaces, squeeze, upper_unit}
use workshop_service.Text.Codes.{
  NoSpace, IsUpper, All-take, trim_of_NoSpace, replace_spaces-NoSpace, replace_spaces_of_NoSpace,
  to_upper_case-IsUpper, to_upper_case_of_IsUpper, replace_spaces-IsUpper, take_of_le,
}
use workshop_service.Errors.{ok, err}
use workshop_service.Execution.{sanitize_failure_code, failure_code_required}

-- The lower-case letters of Basic Latin and Latin-1.
abbrev pub is_lower : ℕ → Bool
is_lower c = leb b'a' c && leb c b'z' || c == 0xb5 || leb 0xdf c && leb c 0xff && not (c == 0xf7)

abbrev pub NoLower : ℕ → Type 0
NoLower c = is_lower c ≡ false

IsUpper-NoLower : (c : ℕ) → IsUpper c → NoLower c
unfolding upper_unit
IsUpper-NoLower c h = ground arith

NoLower-IsUpper : (c : ℕ) → NoLower c → IsUpper c
unfolding upper_unit
NoLower-IsUpper c h = ground arith

All-mono : (P Q : ℕ → Type 0) (f : (c : ℕ) → P c → Q c) (s : Text) → All P s → All Q s
All-mono P Q f [] h = tt
All-mono P Q f (c ∷ s) h = (f c h.0, All-mono P Q f s h.1)

-- A code that `sanitizeFailureCode` gives.
pub record IsCode (c : Text) : Type 0 where
  pub filled : is_empty c ≡ false
  pub short : length c ≤ 100
  pub unspaced : All NoSpace c
  pub upper : All NoLower c

take-filled : (s : Text) → is_empty s ≡ false → is_empty (take 100 s) ≡ false
take-filled [] h = h
take-filled (c ∷ s) h = refl

replace_spaces-filled : (s : Text) → is_empty s ≡ false → is_empty (replace_spaces s) ≡ false
unfolding replace_spaces squeeze
replace_spaces-filled [] h = h
replace_spaces-filled (c ∷ s) h = ground arith

-- The code that `sanitizeFailureCode` gives is not empty, has at most 100 units, no space, and
-- no lower-case letter of Basic Latin or Latin-1.
pub sanitize_failure_code-IsCode : (value c : Text) → sanitize_failure_code value ≡ ok c → IsCode c
unfolding sanitize_failure_code
sanitize_failure_code-IsCode value c h = elim (Bool-cases (is_empty (to_upper_case (trim value)))) [
  | inl blank ↦ (let e : err failure_code_required ≡ ok c = rw blank at h in cc)
  | inr filled ↦
      (let u = to_upper_case (trim value) in
        let e : ok (take 100 (replace_spaces u)) ≡ ok c = rw filled at h in
        let e' : take 100 (replace_spaces u) ≡ c = cc in
        rw (← e') (record {
          filled = take-filled _ (replace_spaces-filled u filled);
          short = length-take 100 (replace_spaces u);
          unspaced = All-take NoSpace 100 _ (replace_spaces-NoSpace u);
          upper = All-mono IsUpper NoLower IsUpper-NoLower _ (
              All-take IsUpper 100 _
                (replace_spaces-IsUpper u (to_upper_case-IsUpper (trim value))));
        }))
]

-- A code that is not empty, has at most 100 units, no space and no lower-case letter of
-- Basic Latin or Latin-1 is kept by `sanitizeFailureCode` as it is.
pub sanitize_failure_code_of_IsCode : (c : Text) → IsCode c → sanitize_failure_code c ≡ ok c
unfolding sanitize_failure_code
sanitize_failure_code_of_IsCode c h = rw (
  trim_of_NoSpace c h.unspaced,
  to_upper_case_of_IsUpper c (All-mono NoLower IsUpper NoLower-IsUpper c h.upper),
  h.filled,
  replace_spaces_of_NoSpace c h.unspaced,
  take_of_le 100 c h.short,
)
