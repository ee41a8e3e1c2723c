-- ===== src/Errors/Post.antt =====
-- What a call leaves behind: an invariant of the state on every way out, and a fact about the
-- value where it returns.
use workshop_service.Errors.{Result, ok, err}
use workshop_service.Errors.Action.{Action, lift, ◌>>=◌}
use workshop_service.Base.{◌≡◌, refl}

module _ {S : Type 0} (P : S → Type 0) where
  abbrev pub Post : {A : Type 0} → (A → S → Type 0) → Result A × S → Type 0
  Post Q (ok a, s) = P s × Q a s
  Post Q (err f, s) = P s

module _ {S A B : Type 0} (P : S → Type 0) (Q : A → S → Type 0) (R : B → S → Type 0)
    (f : A → Action S B) where
  Post-next :
      (r : Result A) (s : S)
      → Post P Q (r, s)
      → ((a : A) (s' : S) → P s' → Q a s' → Post P R (f a s'))
      → Post P R ((lift r >>= f) s)
  Post-next (ok a) s h k = k a s h.0 h.1
  Post-next (err e) s h k = h

  -- The rule for two steps.
  pub Post-bind :
      (m : Action S A) (s : S)
      → Post P Q (m s)
      → ((a : A) (s' : S) → P s' → Q a s' → Post P R (f a s'))
      → Post P R ((m >>= f) s)
  Post-bind m s h k = Post-next (m s).0 (m s).1 h k

module _ {S A : Type 0} (P : S → Type 0) where
  -- A step that does not touch the state.
  pub Post-lift :
      (Q : A → S → Type 0) (r : Result A) (s : S)
      → P s
      → ((a : A) → r ≡ ok a → Q a s)
      → Post P Q (r, s)
  Post-lift Q (ok a) s h k = (h, k a refl)
  Post-lift Q (err e) s h k = h

  -- The invariant, from either way out.
  pub Post-state : (Q : A → S → Type 0) (r : Result A × S) → Post P Q r → P r.1
  Post-state Q (ok a, s) h = h.0
  Post-state Q (err e, s) h = h

module _ {S A B : Type 0} (P : S → Type 0) (f : A → Action S B) where
  state_next : (r : Result A) (s : S) → P s → ((a : A) → P (f a s).1) → P ((lift r >>= f) s).1
  state_next (ok a) s h k = k a
  state_next (err e) s h k = h

  -- The rule for two steps that keep the invariant, whatever the value between them.
  pub keep-bind :
      (m : Action S A) (s : S) → P (m s).1 → ((a : A) → P (f a (m s).1).1) → P ((m >>= f) s).1
  keep-bind m s h k = state_next (m s).0 (m s).1 h k

  Post_next :
      (Q : A → S → Type 0) (r : Result A) (s : S)
      → Post P Q (r, s)
      → ((a : A) → P s → Q a s → P (f a s).1)
      → P ((lift r >>= f) s).1
  Post_next Q (ok a) s h k = k a h.0 h.1
  Post_next Q (err e) s h k = h

  -- The same where the second step needs what the first says of its value.
  pub keep-Post :
      (Q : A → S → Type 0) (m : Action S A) (s : S)
      → Post P Q (m s)
      → ((a : A) → P (m s).1 → Q a (m s).1 → P (f a (m s).1).1)
      → P ((m >>= f) s).1
  keep-Post Q m s h k = Post_next Q (m s).0 (m s).1 h k

  -- The same where the second step keeps the invariant of any state.
  pub keep-then :
      (m : Action S A) (s : S)
      → P (m s).1
      → ((a : A) (s' : S) → P s' → P (f a s').1)
      → P ((m >>= f) s).1
  keep-then m s h k = keep-bind m s h (λ a. k a (m s).1 h)
