-- ===== src/Prelude/Text.antt =====
-- Python's `str` where the program strips, folds, joins and sorts texts.
pub mod Strip
use Prim.Native.Nat.{Ordering}
use Prim.Native.Char.{code}
use Prim.Native.String
use Prim.Native.String.{String}
use mathlib.Core.Path.{◌≡◌, refl}
use mathlib.Core.Bool.{Bool, true, false, ◌&&◌, ◌||◌}
use mathlib.Core.List.{List, [], ◌∷◌}
use Prim.Native.Nat.{ℕ}
use native.Mathlib.Omega.{arith}
use text.Mathlib.Text.{◌==◌ as str_eq}
use text.Mathlib.TextEquality.{eq_iff}
use reckoning.Prelude.Tests.{leb, ◌==◌, if◌then◌else◌}
use reckoning.Prelude.Lists.{length, is_empty, Among}
use mathlib.Core.Logic.{inl, inr}

-- str.isspace, the characters that `strip` removes
is_space : ℕ → Bool
is_space c =
    leb 9 c && leb c 13
    || leb 28 c && leb c 32
    || c == 0x85
    || c == 0xa0
    || c == 0x1680
    || leb 0x2000 c && leb c 0x200a
    || c == 0x2028
    || c == 0x2029
    || c == 0x202f
    || c == 0x205f
    || c == 0x3000

lstrip : String → String
unfolding is_space
lstrip String.[] = String.[]
lstrip (String.◌∷◌ c s) = let rest = lstrip s in if is_space (code c) then rest else String.◌∷◌ c s

-- the text `c ∷ r`, or nothing where that is all space
close_right : Bool → String → String → String
close_right space String.[] whole = if space then String.[] else whole
close_right space (String.◌∷◌ d r) whole = whole

rstrip : String → String
unfolding is_space close_right
rstrip String.[] = String.[]
rstrip (String.◌∷◌ c s) = close_right (is_space (code c)) (rstrip s) (String.◌∷◌ c (rstrip s))

unfoldable pub strip : String → String
unfolding lstrip rstrip
strip s = rstrip (lstrip s)

-- `not s.strip()`: the text holds nothing but spaces
unfoldable pub is_blank : String → Bool
unfolding is_space
is_blank String.[] = true
is_blank (String.◌∷◌ c s) = is_space (code c) && is_blank s

-- a in xs
unfoldable pub contains : List String → String → Bool
contains [] a = false
contains (x ∷ xs) a = str_eq x a || contains xs a

-- xs without a
unfoldable pub without : String → List String → List String
without a [] = []
without a (x ∷ xs) = let rest = without a xs in if str_eq x a then rest else x ∷ rest

-- dict.fromkeys(xs): the first of each; as a set, its distinct items
unfoldable pub distinct : List String → List String
unfolding without
distinct [] = []
distinct (x ∷ xs) = x ∷ without x (distinct xs)

-- len(xs) == len(set(xs))
unfoldable pub is_unique : List String → Bool
unfolding distinct
is_unique xs = length xs == length (distinct xs)

-- set(xs) - set(ys)
unfoldable pub difference : List String → List String → List String
unfolding contains
difference [] ys = []
difference (x ∷ xs) ys = let rest = difference xs ys in if contains ys x then rest else x ∷ rest

-- s <= t, by code points
unfoldable pub str_leb : String → String → Bool
str_leb s t = elim (String.compare s t) [ Ordering.gt ↦ false | _ ↦ true ]

insert_sorted : String → List String → List String
unfolding str_leb
insert_sorted a [] = a ∷ []
insert_sorted a (x ∷ xs) =
    let rest = insert_sorted a xs in if str_leb a x then a ∷ x ∷ xs else x ∷ rest

-- sorted(xs)
unfoldable pub sorted : List String → List String
unfolding insert_sorted
sorted [] = []
sorted (x ∷ xs) = insert_sorted x (sorted xs)

-- s + t
abbrev pub concat : String → String → String
concat s t = String.◌++◌ s t

-- ", ".join(xs)
unfoldable pub join : List String → String
join [] = ""
join (x ∷ []) = x
join (x ∷ y ∷ ys) = concat x (concat ", " (join (y ∷ ys)))

pub contains→Among : (xs : List String) (a : String) → contains xs a ≡ true → Among a xs
unfolding contains
contains→Among [] a h = ground arith
contains→Among (x ∷ xs) a h = ground (arith, eq_iff x a, contains→Among xs a)

pub Among→contains : (xs : List String) (a : String) → Among a xs → contains xs a ≡ true
unfolding contains
Among→contains [] a m = absurd m
Among→contains (x ∷ xs) a (inl e) = ground (arith, eq_iff x a)
Among→contains (x ∷ xs) a (inr m) = ground (arith, Among→contains xs a m)

-- xs == ys
unfoldable pub lists_equal : List String → List String → Bool
lists_equal [] [] = true
lists_equal (x ∷ xs) (y ∷ ys) = str_eq x y && lists_equal xs ys
lists_equal _ _ = false

insert_sorted-is_empty : (a : String) (xs : List String) → is_empty (insert_sorted a xs) ≡ false
unfolding insert_sorted
insert_sorted-is_empty a [] = refl
insert_sorted-is_empty a (x ∷ xs) = ground arith

pub sorted-is_empty : (xs : List String) → is_empty (sorted xs) ≡ is_empty xs
unfolding sorted
sorted-is_empty [] = refl
sorted-is_empty (x ∷ xs) = insert_sorted-is_empty x (sorted xs)
