-- ===== src/Prelude/Outcome.antt =====
-- What an action leaves: one predicate of the value and the object where it returns, another of the
-- exception and the object where it raises.
use mathlib.Core.Path.{◌≡◌, subst, ap}
use reckoning.Prelude.Result.{Result, ok, err, Error, ok-injective}

module _ {A S : Type 0} (P : A → S → Type 0) (Q : Error → S → Type 0) where
  abbrev pub Ends : Result A × S → Type 0
  Ends (ok a, s) = P a s
  Ends (err e, s) = Q e s

module _ {A B S : Type 0} (P : A → S → Type 0) (P' : B → S → Type 0)
    (Q Q' : Error → S → Type 0) where
  -- what follows an action
  pub Ends-then :
      (f : Result A → S → Result B × S) (x : Result A × S)
      → Ends P Q x
      → ((a : A) (s : S) → P a s → Ends P' Q' (f (ok a) s))
      → ((e : Error) (s : S) → Q e s → Ends P' Q' (f (err e) s))
      → Ends P' Q' (f x.0 x.1)
  Ends-then f (ok a, s) h g k = g a s h
  Ends-then f (err e, s) h g k = k e s h

error_of : {A : Type 0} → Error → Result A → Error
error_of default (ok a) = default
error_of default (err e) = e

module _ {A S : Type 0} (P : A → S → Type 0) (Q : Error → S → Type 0) where
  pub Ends-ok : (x : Result A × S) (a : A) → Ends P Q x → x.0 ≡ ok a → P a x.1
  Ends-ok (ok b, s) a h e = subst (λ c. P c s) (ok-injective e) h
  Ends-ok (err e', s) a h e = absurd (cc)

  pub Ends-err : (x : Result A × S) (e : Error) → Ends P Q x → x.0 ≡ err e → Q e x.1
  unfolding error_of
  Ends-err (ok b, s) e h r = absurd (cc)
  Ends-err (err e', s) e h r = subst (λ c. Q c s) (ap (error_of e) r) h
