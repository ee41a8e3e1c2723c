-- ===== src/Text/Edges.antt =====
-- Texts that begin and end with no space, and what `toUpperCase` makes of them.
use workshop_service.Base.{ℕ, ◌≡◌, refl, [], ◌∷◌, ◌++◌, arith, ap, ◌∙◌, All}
use workshop_service.Text.{
  Text, is_space, trim_start, trim_end, keep_before, trim, upper_unit, to_upper_case,
}
use workshop_service.Text.Laws.{Starts, trim_start-Starts, trim_start_of_Starts, trim_end-Starts}
use workshop_service.Text.Codes.{NoSpace, to_upper_case-IsUpper, to_upper_case_of_IsUpper}

-- Nothing, or a last unit that is no space.
abbrev pub Ends : Text → Type 0
Ends [] = Unit
Ends (c ∷ []) = NoSpace c
Ends (c ∷ d ∷ t) = Ends (d ∷ t)

keep_before-Ends : (c : ℕ) (t : Text) → Ends t → Ends (keep_before c t)
keep_before-Ends c [] h = ground arith
keep_before-Ends c (d ∷ t) h = h

trim_end-Ends : (s : Text) → Ends (trim_end s)
unfolding trim_end
trim_end-Ends [] = tt
trim_end-Ends (c ∷ s) = keep_before-Ends c (trim_end s) (trim_end-Ends s)

trim_end_of_Ends : (s : Text) → Ends s → trim_end s ≡ s
unfolding trim_end
trim_end_of_Ends [] h = refl
trim_end_of_Ends (c ∷ []) h = rw h
trim_end_of_Ends (c ∷ d ∷ t) h = ap (keep_before c) (trim_end_of_Ends (d ∷ t) h)

-- No letter in upper case is a space.
upper_unit-NoSpace : (c : ℕ) → NoSpace c → All NoSpace (upper_unit c)
unfolding upper_unit is_space
upper_unit-NoSpace c h = ground arith

-- One unit at least.
abbrev IsFilled : Text → Type 0
IsFilled [] = ⊥
IsFilled (c ∷ s) = Unit

upper_unit-IsFilled : (c : ℕ) → IsFilled (upper_unit c)
unfolding upper_unit
upper_unit-IsFilled c = ground arith

Ends-append : (u t : Text) → IsFilled t → Ends t → Ends (u ++ t)
Ends-append [] t f h = h
Ends-append (c ∷ []) [] f h = absurd f
Ends-append (c ∷ []) (d ∷ t) f h = h
Ends-append (c ∷ d ∷ u) t f h = Ends-append (d ∷ u) t f h

NoSpace-Ends : (u : Text) → All NoSpace u → Ends (u ++ [])
NoSpace-Ends [] h = tt
NoSpace-Ends (c ∷ []) h = h.0
NoSpace-Ends (c ∷ d ∷ u) h = NoSpace-Ends (d ∷ u) h.1

IsFilled-append : (u t : Text) → IsFilled u → IsFilled (u ++ t)
IsFilled-append [] t h = absurd h
IsFilled-append (c ∷ u) t h = tt

Starts-append : (u t : Text) → IsFilled u → All NoSpace u → Starts (u ++ t)
Starts-append [] t f h = absurd f
Starts-append (c ∷ u) t f h = h.0

to_upper_case-Starts : (s : Text) → Starts s → Starts (to_upper_case s)
unfolding to_upper_case
to_upper_case-Starts [] h = tt
to_upper_case-Starts (c ∷ s) h =
    Starts-append (upper_unit c) (to_upper_case s) (upper_unit-IsFilled c) (upper_unit-NoSpace c h)

to_upper_case-Ends : (s : Text) → Ends s → Ends (to_upper_case s)
unfolding to_upper_case
to_upper_case-Ends [] h = tt
to_upper_case-Ends (c ∷ []) h = NoSpace-Ends (upper_unit c) (upper_unit-NoSpace c h)
to_upper_case-Ends (c ∷ d ∷ t) h =
    Ends-append (upper_unit c) (to_upper_case (d ∷ t))
      (IsFilled-append (upper_unit d) (to_upper_case t) (upper_unit-IsFilled d))
      (to_upper_case-Ends (d ∷ t) h)

-- A text in its normal form is its own normal form.
pub to_upper_case-trim_again :
    (s : Text) → to_upper_case (trim (to_upper_case (trim s))) ≡ to_upper_case (trim s)
unfolding trim
to_upper_case-trim_again s =
    let t = trim_end (trim_start s) in
    let starts = to_upper_case-Starts t (trim_end-Starts (trim_start s) (trim_start-Starts s)) in
    let ends = to_upper_case-Ends t (trim_end-Ends (trim_start s)) in
    ap (λ x. to_upper_case (trim_end x)) (trim_start_of_Starts (to_upper_case t) starts)
    ∙ ap to_upper_case (trim_end_of_Ends (to_upper_case t) ends)
    ∙ to_upper_case_of_IsUpper (to_upper_case t) (to_upper_case-IsUpper t)
