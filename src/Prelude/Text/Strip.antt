-- ===== src/Prelude/Text/Strip.antt =====
-- `strip` and blank texts.
use Prim.Native.Char.{Char, code}
use Prim.Native.String.{String}
use mathlib.Core.Path.{◌≡◌, refl, ap, ◌∙◌}
use mathlib.Core.Bool.{Bool, true, false, ◌&&◌}
use mathlib.Core.Logic.{inl, inr}
use native.Mathlib.Omega.{arith}
use reckoning.Prelude.Tests.{Bool-cases, if◌then◌else◌}
use reckoning.Prelude.Text.{is_space, lstrip, rstrip, close_right, strip, is_blank}

close_right-rstrip :
    (space : Bool) (r whole : String)
    → (rstrip whole ≡ close_right space r whole)
    → rstrip (close_right space r whole) ≡ close_right space r whole
unfolding close_right rstrip
close_right-rstrip true String.[] whole h = refl
close_right-rstrip false String.[] whole h = h
close_right-rstrip space (String.◌∷◌ d r) whole h = h

rstrip_idem : (s : String) → rstrip (rstrip s) ≡ rstrip s
unfolding rstrip
rstrip_idem String.[] = refl
rstrip_idem (String.◌∷◌ c s) =
    close_right-rstrip (is_space (code c)) (rstrip s) (String.◌∷◌ c (rstrip s))
      (ap (λ r. close_right (is_space (code c)) r (String.◌∷◌ c r)) (rstrip_idem s))

blank_empty :
    (c : Char) (space : Bool)
    → is_space (code c) ≡ space
    → is_blank (if space then String.[] else String.◌∷◌ c String.[]) ≡ (space && true)
unfolding is_blank
blank_empty c true h = refl
blank_empty c false h = rw h refl

blank_close :
    (c : Char) (r : String) (b : Bool)
    → is_blank r ≡ b
    → is_blank (close_right (is_space (code c)) r (String.◌∷◌ c r)) ≡ (is_space (code c) && b)
unfolding is_blank close_right
blank_close c String.[] b h =
    blank_empty c (is_space (code c)) refl ∙ ap (λ x. is_space (code c) && x) h
blank_close c (String.◌∷◌ d r) b h = ground arith

is_blank-rstrip : (s : String) → is_blank (rstrip s) ≡ is_blank s
unfolding rstrip is_blank
is_blank-rstrip String.[] = refl
is_blank-rstrip (String.◌∷◌ c s) = blank_close c (rstrip s) (is_blank s) (is_blank-rstrip s)

is_blank-lstrip : (s : String) → is_blank (lstrip s) ≡ is_blank s
unfolding lstrip is_blank
is_blank-lstrip String.[] = refl
is_blank-lstrip (String.◌∷◌ c s) = elim (Bool-cases (is_space (code c))) [
  | inl e ↦ ground (arith, is_blank-lstrip s)
  | inr e ↦ ground arith
]

-- stripping leaves a text blank or not blank
pub is_blank-strip : (s : String) → is_blank (strip s) ≡ is_blank s
unfolding strip
is_blank-strip s = is_blank-rstrip (lstrip s) ∙ is_blank-lstrip s

lstrip-close :
    (c : Char) (r : String)
    → is_space (code c) ≡ false
    → lstrip (close_right (is_space (code c)) r (String.◌∷◌ c r))
      ≡ close_right (is_space (code c)) r (String.◌∷◌ c r)
unfolding close_right lstrip
lstrip-close c String.[] h = ground arith
lstrip-close c (String.◌∷◌ d r) h = ground arith

lstrip-rstrip : (s : String) → lstrip (rstrip (lstrip s)) ≡ rstrip (lstrip s)
unfolding lstrip rstrip
lstrip-rstrip String.[] = refl
lstrip-rstrip (String.◌∷◌ c s) = elim (Bool-cases (is_space (code c))) [
  | inl e ↦ rw e (lstrip-rstrip s)
  | inr e ↦ rw e (lstrip-close c (rstrip s) e)
]

pub strip_idem : (s : String) → strip (strip s) ≡ strip s
unfolding strip
strip_idem s = ap rstrip (lstrip-rstrip s) ∙ rstrip_idem (lstrip s)
