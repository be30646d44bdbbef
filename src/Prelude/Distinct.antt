-- ===== src/Prelude/Distinct.antt =====
-- Lists of texts without duplicates: Python's sets as the program compares them.
use reckoning.Prelude.{
  ◌≤◌, ◌<◌, ◌≡◌, ◌↔◌, refl, String, true, false, List, [], ◌∷◌, ◌++◌, length, arith, eq_iff,
  contains, without, distinct, is_unique, Bool-cases, inl, inr, ==_iff, str_eq,
}

abbrev pub Distinct : List String → Type 0
Distinct [] = Unit
Distinct (x ∷ xs) = (contains xs x ≡ false) × Distinct xs

pub contains-append :
    (xs ys : List String) (a : String)
    → contains xs a ≡ false
    → contains ys a ≡ false
    → contains (xs ++ ys) a ≡ false
unfolding contains
contains-append [] ys a h k = k
contains-append (x ∷ xs) ys a h k = ground (arith, contains-append xs ys a)

-- A new text at the end keeps the list distinct.
pub Distinct-snoc :
    (xs : List String) (a : String) → Distinct xs → contains xs a ≡ false → Distinct (xs ++ a ∷ [])
unfolding contains
Distinct-snoc [] a d h = (refl, tt)
Distinct-snoc (x ∷ xs) a d h = (
  contains-append xs (a ∷ []) x d.0 (ground (arith, eq_iff x a, eq_iff a x)),
  Distinct-snoc xs a d.1 (ground arith),
)

contains-without :
    (xs : List String) (a b : String) → contains xs b ≡ false → contains (without a xs) b ≡ false
unfolding contains without
contains-without [] a b h = refl
contains-without (x ∷ xs) a b h = ground (arith, contains-without xs a b)

without-absent : (xs : List String) (a : String) → contains xs a ≡ false → without a xs ≡ xs
unfolding contains without
without-absent [] a h = refl
without-absent (x ∷ xs) a h = ground (arith, without-absent xs a)

length-without-le : (xs : List String) (a : String) → length (without a xs) ≤ length xs
unfolding without
length-without-le [] a = omega arith
length-without-le (x ∷ xs) a = ground (arith, length-without-le xs a)

length-without-lt :
    (xs : List String) (a : String) → contains xs a ≡ true → length (without a xs) < length xs
unfolding contains without
length-without-lt [] a h = ground arith
length-without-lt (x ∷ xs) a h = ground (arith, length-without-lt xs a, length-without-le xs a)

length-distinct-le : (xs : List String) → length (distinct xs) ≤ length xs
unfolding distinct
length-distinct-le [] = omega arith
length-distinct-le (x ∷ xs) =
    omega (arith, length-distinct-le xs, length-without-le (distinct xs) x)

pub distinct_of_Distinct : (xs : List String) → Distinct xs → distinct xs ≡ xs
unfolding distinct
distinct_of_Distinct [] d = refl
distinct_of_Distinct (x ∷ xs) d =
    ground (arith, distinct_of_Distinct xs d.1, without-absent xs x d.0)

-- as many distinct items as items: then no item stands twice
Distinct-of_length : (xs : List String) → length xs ≡ length (distinct xs) → Distinct xs
unfolding distinct
Distinct-of_length [] h = tt
Distinct-of_length (x ∷ xs) h =
    let same : length xs ≡ length (distinct xs) =
      omega (arith, length-distinct-le xs, length-without-le (distinct xs) x) in
    let d = Distinct-of_length xs same in
    (
      elim (Bool-cases (contains xs x)) [
        | inl there ↦
            absurd (ground (arith, length-without-lt xs x there, distinct_of_Distinct xs d))
        | inr new ↦ new
      ],
      d,
    )

-- `len(xs) == len(set(xs))` tells whether the items are distinct.
pub is_unique_iff : (xs : List String) → (is_unique xs ≡ true) ↔ Distinct xs
unfolding is_unique
is_unique_iff xs = (
  λ h. Distinct-of_length xs ((==_iff _ _).0 h),
  λ d. (==_iff _ _).1 (ground (arith, distinct_of_Distinct xs d)),
)

contains-without_self : (xs : List String) (a : String) → contains (without a xs) a ≡ false
unfolding contains without
contains-without_self [] a = refl
contains-without_self (x ∷ xs) a = ground (arith, contains-without_self xs a)

without-Distinct : (xs : List String) (a : String) → Distinct xs → Distinct (without a xs)
unfolding without
without-Distinct [] a d = tt
without-Distinct (x ∷ xs) a d = elim (Bool-cases (str_eq x a)) [
  | inl e ↦ rw e (without-Distinct xs a d.1)
  | inr e ↦ rw e (contains-without xs a x d.0, without-Distinct xs a d.1)
]

pub distinct-Distinct : (xs : List String) → Distinct (distinct xs)
unfolding distinct
distinct-Distinct [] = tt
distinct-Distinct (x ∷ xs) =
    (contains-without_self (distinct xs) x, without-Distinct (distinct xs) x (distinct-Distinct xs))
