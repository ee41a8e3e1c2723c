-- ===== src/Errors/Laws.antt =====
-- Inversion of calls that returned.
use workshop_service.Base.{◌≡◌, refl}
use workshop_service.Errors.{Result, ok, err, ◌>>=◌}
use workshop_service.Errors.Action
use workshop_service.Errors.Action.{Action, lift}

-- A chain that returned has run its first step to a value, and the rest from that value.
pub >>=-eq-ok :
    {A B : Type 0} {y : B} (first : Result A) (next : A → Result B)
    → (first >>= next) ≡ ok y
    → (x : A) × (first ≡ ok x) × (next x ≡ ok y)
>>=-eq-ok (err failure) next h = cc
>>=-eq-ok (ok x) next h = (x, refl, h)

-- The same for a method.
bind_cases :
    {S A B : Type 0} (r : Result A) (s : S) (f : A → Action S B) {b : B} {s' : S}
    → Action.◌>>=◌ (lift r) f s ≡ (ok b, s')
    → (a : A) × (r ≡ ok a) × (f a s ≡ (ok b, s'))
bind_cases (ok a) s f h = (a, refl, h)
bind_cases (err e) s f h = cc

pub bind-eq-ok :
    {S A B : Type 0} (m : Action S A) (f : A → Action S B) (s : S) {b : B} {s' : S}
    → Action.◌>>=◌ m f s ≡ (ok b, s')
    → (a : A) × ((m s).0 ≡ ok a) × (f a (m s).1 ≡ (ok b, s'))
bind-eq-ok m f s h = bind_cases (m s).0 (m s).1 f h
