-- ===== src/Prelude/Result.antt =====
-- Python's exceptions as values, and code that changes an object and may raise.
-- The `Exception` classes that the modelled modules raise or tell apart; a text is the message.
use mathlib.Core.Path.{◌≡◌, refl}
use mathlib.Core.Bool.{Bool, true, false}
use mathlib.Core.Logic.{◌⊎◌, inl, inr}
use Prim.Native.String.{String}

pub data Error : Type 0 where
  value_error key_error permission_error runtime_error assertion_error : String → Error
  -- DelegationLimitExceeded, DelegationQuoteExceeded
  limit_exceeded quote_exceeded : String → Error
  -- RoutineRunClaimConflict, ProcessingGrantConflict, ReckoningRevisionConflict,
  -- ExternalWriteConflict, ExternalWriteClaimConflict
  conflict : String → Error
  -- ExternalWriteAuthorityRevoked
  authority_revoked : String → Error
  interrupted_error : String → Error
  other_error : String → Error

-- What a call does: it raises, or it returns a value.
pub data Result {ℓ} (Value : Type ℓ) : Type ℓ where
  err : Error → Result Value
  ok : Value → Result Value

module _ {ℓ κ} {Value : Type ℓ} {Next : Type κ} where
  infixl 5 ◌>>=◌
  -- the statements after a call run unless it raises
  abbrev pub ◌>>=◌ : Result Value → (Value → Result Next) → Result Next
  err raised >>= rest = err raised
  ok value >>= rest = rest value

module _ {κ} {Next : Type κ} where
  infixl 5 ◌>>◌
  abbrev pub ◌>>◌ : Result (Unit {0}) → Result Next → Result Next
  err raised >> rest = err raised
  ok done >> rest = rest

-- if test: raise error
abbrev pub raise_if : Bool → Error → Result (Unit {0})
raise_if true e = err e
raise_if false e = ok tt

pub Result-cases {ℓ} :
    {A : Type ℓ} (r : Result A) → ((a : A) × (r ≡ ok a)) ⊎ ((e : Error) × (r ≡ err e))
Result-cases (ok a) = inl (a, refl)
Result-cases (err e) = inr (e, refl)

-- An action on an object of type `S`: what was written before a raise stays written.
abbrev pub Action {ℓ} : Type ℓ → Type ℓ → Type ℓ
Action S A = S → Result A × S

pub ok-injective {ℓ} : {A : Type ℓ} {a b : A} → ok a ≡ ok b → a ≡ b
ok-injective h = cc
