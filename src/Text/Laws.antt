-- ===== src/Text/Laws.antt =====
-- Laws of the string functions.
use workshop_service.Base.{ℕ, ◌≡◌, refl, ◌↔◌, true, false, [], ◌∷◌, arith, ap}
use workshop_service.Text.{Text, ◌===◌, is_space, trim_start, keep_before, trim_end, trim}

-- `===` on strings decides equality.
pub ===_iff : (a b : Text) → ((a === b) ≡ true) ↔ (a ≡ b)
unfolding ◌===◌
===_iff [] [] = (λ _. refl, λ _. refl)
===_iff [] (d ∷ t) = (λ e. cc, λ e. cc)
===_iff (c ∷ s) [] = (λ e. cc, λ e. cc)
===_iff (c ∷ s) (d ∷ t) = ground (arith, ===_iff s t)

pub ===-refl : (a : Text) → (a === a) ≡ true
===-refl a = (===_iff a a).1 refl

pub ===-sym : (a b : Text) → (a === b) ≡ (b === a)
unfolding ◌===◌
===-sym [] [] = refl
===-sym [] (d ∷ t) = refl
===-sym (c ∷ s) [] = refl
===-sym (c ∷ s) (d ∷ t) = ground (arith, ===-sym s t)

-- Nothing, or a first unit that is no space.
abbrev pub Starts : Text → Type 0
Starts [] = Unit
Starts (c ∷ s) = is_space c ≡ false

pub trim_start-Starts : (s : Text) → Starts (trim_start s)
unfolding trim_start
trim_start-Starts [] = tt
trim_start-Starts (c ∷ s) = ground (arith, trim_start-Starts s)

pub trim_start_of_Starts : (s : Text) → Starts s → trim_start s ≡ s
unfolding trim_start
trim_start_of_Starts [] h = refl
trim_start_of_Starts (c ∷ s) h = rw h

keep_before-Starts : (c : ℕ) (t : Text) → is_space c ≡ false → Starts (keep_before c t)
keep_before-Starts c [] h = rw h h
keep_before-Starts c (d ∷ t) h = h

pub trim_end-Starts : (s : Text) → Starts s → Starts (trim_end s)
unfolding trim_end
trim_end-Starts [] h = tt
trim_end-Starts (c ∷ s) h = keep_before-Starts c (trim_end s) h

trim_end-keep_before :
    (c : ℕ) (t : Text) → trim_end t ≡ t → trim_end (keep_before c t) ≡ keep_before c t
unfolding trim_end
trim_end-keep_before c [] h = ground arith
trim_end-keep_before c (d ∷ t) h = ap (keep_before c) h

trim_end-trim_end : (s : Text) → trim_end (trim_end s) ≡ trim_end s
unfolding trim_end
trim_end-trim_end [] = refl
trim_end-trim_end (c ∷ s) = trim_end-keep_before c (trim_end s) (trim_end-trim_end s)

-- Trimming twice is trimming once.
pub trim-trim : (s : Text) → trim (trim s) ≡ trim s
unfolding trim
trim-trim s =
    rw (trim_start_of_Starts _ (trim_end-Starts _ (trim_start-Starts s)))
      (trim_end-trim_end (trim_start s))
