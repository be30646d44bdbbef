-- ===== src/Prelude/Sets.antt =====
-- `distinct`, `difference` and `contains` as the sets that they stand for.
use reckoning.Prelude.{
  ◌≡◌, ◌↔◌, refl, String, true, List, [], ◌∷◌, arith, eq_iff, All, Among, contains, contains→Among,
  Among→contains, without, distinct, difference, is_empty, str_eq, Bool-cases, inl, inr,
}

-- every item of `xs` is one of `ys`
abbrev pub Within : List String → List String → Type 0
Within xs ys = All (λ x. Among x ys) xs

module _ {κ} (P : String → Type κ) where
  All-without : (a : String) (xs : List String) → All P xs → All P (without a xs)
  unfolding without
  All-without a [] h = h
  All-without a (x ∷ xs) h = elim (Bool-cases (str_eq x a)) [
    | inl e ↦ rw e (All-without a xs h.1)
    | inr e ↦ rw e (h.0, All-without a xs h.1)
  ]

  All-of_without : (a : String) (xs : List String) → P a → All P (without a xs) → All P xs
  unfolding without
  All-of_without a [] p h = tt
  All-of_without a (x ∷ xs) p h = elim (Bool-cases (str_eq x a)) [
    | inl e ↦ (rw ((eq_iff x a).0 e) p, All-of_without a xs p (rw e at h))
    | inr e ↦ let k : P x × All P (without a xs) = rw e at h in (k.0, All-of_without a xs p k.1)
  ]

  -- the distinct items are the items
  pub All-distinct : (xs : List String) → All P (distinct xs) ↔ All P xs
  unfolding distinct
  All-distinct [] = (λ h. h, λ h. h)
  All-distinct (x ∷ xs) = (
    λ h. (h.0, (All-distinct xs).0 (All-of_without x (distinct xs) h.0 h.1)),
    λ h. (h.0, All-without x (distinct xs) ((All-distinct xs).1 h.1)),
  )

difference→Within : (xs ys : List String) → is_empty (difference xs ys) ≡ true → Within xs ys
unfolding difference
difference→Within [] ys h = tt
difference→Within (x ∷ xs) ys h = elim (Bool-cases (contains ys x)) [
  | inl e ↦ (contains→Among ys x e, difference→Within xs ys (ground arith))
  | inr e ↦ absurd (ground arith)
]

Within→difference : (xs ys : List String) → Within xs ys → is_empty (difference xs ys) ≡ true
unfolding difference
Within→difference [] ys h = refl
Within→difference (x ∷ xs) ys h = rw (Among→contains ys x h.0) (Within→difference xs ys h.1)

-- `set(xs) - set(ys)` is empty exactly where `xs` stays within `ys`.
pub difference-is_empty_iff :
    (xs ys : List String) → (is_empty (difference xs ys) ≡ true) ↔ Within xs ys
difference-is_empty_iff xs ys = (difference→Within xs ys, Within→difference xs ys)
