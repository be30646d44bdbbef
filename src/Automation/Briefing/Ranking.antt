-- ===== src/Automation/Briefing/Ranking.antt =====
-- The order of a briefing: a sort by the key, descending.
use reckoning.Prelude.{
  ◌≡◌, refl, Bool, true, false, List, [], ◌∷◌, ℤ, arith, All, Among, Bool-cases, inl, inr,
}
use mathlib.Core.List.{Perm}
use mathlib.Core.List.Perm
use reckoning.Automation.Briefing.{
  BriefingPolicy, BriefingFinding, sort_key, tuple_less, insert, ranked,
}

tuple_less_asymmetric : (xs ys : List ℤ) → tuple_less xs ys ≡ true → tuple_less ys xs ≡ false
unfolding tuple_less
tuple_less_asymmetric [] [] h = absurd (ground arith)
tuple_less_asymmetric [] (y ∷ ys) h = refl
tuple_less_asymmetric (x ∷ xs) [] h = absurd (ground arith)
tuple_less_asymmetric (x ∷ xs) (y ∷ ys) h = ground (arith, tuple_less_asymmetric xs ys)

module _ (policy : BriefingPolicy) where
  abbrev below : BriefingFinding → BriefingFinding → Bool
  below x y = tuple_less (sort_key policy x) (sort_key policy y)

  -- no finding stands before one that ranks above it
  abbrev Heads : BriefingFinding → List BriefingFinding → Type 0
  Heads x [] = Unit
  Heads x (y ∷ ys) = below x y ≡ false

  abbrev pub IsRanked : List BriefingFinding → Type 0
  IsRanked [] = Unit
  IsRanked (x ∷ xs) = Heads x xs × IsRanked xs

  insert-Heads :
      (y x : BriefingFinding) (ys : List BriefingFinding)
      → below y x ≡ false
      → Heads y ys
      → Heads y (insert policy x ys)
  unfolding insert
  insert-Heads y x [] h k = h
  insert-Heads y x (z ∷ zs) h k = elim (Bool-cases (below x z)) [ inl e ↦ rw e k | inr e ↦ rw e h ]

  insert-IsRanked :
      (x : BriefingFinding) (ys : List BriefingFinding)
      → IsRanked ys
      → IsRanked (insert policy x ys)
  unfolding insert
  insert-IsRanked x [] h = (tt, tt)
  insert-IsRanked x (y ∷ ys) h = elim (Bool-cases (below x y)) [
    | inl e ↦ rw e (
      insert-Heads y x ys (tuple_less_asymmetric (sort_key policy x) (sort_key policy y) e) h.0,
      insert-IsRanked x ys h.1,
    )
    | inr e ↦ rw e (e, h)
  ]

  insert_Perm :
      (x : BriefingFinding) (ys : List BriefingFinding) → Perm (insert policy x ys) (x ∷ ys)
  unfolding insert
  insert_Perm x [] = Perm.refl (x ∷ [])
  insert_Perm x (y ∷ ys) = elim (Bool-cases (below x y)) [
    | inl e ↦ rw e (Perm.trans (Perm.cons y (insert_Perm x ys)) (Perm.swap x y ys))
    | inr e ↦ rw e (Perm.refl (x ∷ y ∷ ys))
  ]

  insert-All :
      (P : BriefingFinding → Type 0) (x : BriefingFinding) (ys : List BriefingFinding)
      → P x
      → All P ys
      → All P (insert policy x ys)
  unfolding insert
  insert-All P x [] h k = (h, tt)
  insert-All P x (y ∷ ys) h k = elim (Bool-cases (below x y)) [
    | inl e ↦ rw e (k.0, insert-All P x ys h k.1)
    | inr e ↦ rw e (h, k)
  ]

  pub ranked-All :
      (P : BriefingFinding → Type 0) (xs : List BriefingFinding)
      → All P xs
      → All P (ranked policy xs)
  unfolding ranked
  ranked-All P [] h = tt
  ranked-All P (x ∷ xs) h = insert-All P x (ranked policy xs) h.0 (ranked-All P xs h.1)

  Among-insert :
      (a x : BriefingFinding) (ys : List BriefingFinding)
      → Among a (x ∷ ys)
      → Among a (insert policy x ys)
  unfolding insert
  Among-insert a x [] m = m
  Among-insert a x (y ∷ ys) m = elim (Bool-cases (below x y)) [
    | inl e ↦ rw e (elim m [
      | inl here ↦ inr (Among-insert a x ys (inl here))
      | inr (inl here) ↦ inl here
      | inr (inr there) ↦ inr (Among-insert a x ys (inr there))
    ])
    | inr e ↦ rw e m
  ]

  pub Among-ranked :
      (a : BriefingFinding) (xs : List BriefingFinding) → Among a xs → Among a (ranked policy xs)
  unfolding ranked
  Among-ranked a [] m = m
  Among-ranked a (x ∷ xs) (inl e) = Among-insert a x (ranked policy xs) (inl e)
  Among-ranked a (x ∷ xs) (inr m) = Among-insert a x (ranked policy xs) (inr (Among-ranked a xs m))

  ranked_Perm : (xs : List BriefingFinding) → Perm (ranked policy xs) xs
  unfolding ranked
  ranked_Perm [] = Perm.refl []
  ranked_Perm (x ∷ xs) =
      Perm.trans (insert_Perm x (ranked policy xs)) (Perm.cons x (ranked_Perm xs))

  ranked_ordered : (xs : List BriefingFinding) → IsRanked (ranked policy xs)
  unfolding ranked
  ranked_ordered [] = tt
  ranked_ordered (x ∷ xs) = insert-IsRanked x (ranked policy xs) (ranked_ordered xs)

  -- The ranking is the findings in another order, in which none ranks above the one before it.
  pub ranked-IsRanked :
      (xs : List BriefingFinding) → Perm (ranked policy xs) xs × IsRanked (ranked policy xs)
  ranked-IsRanked xs = (ranked_Perm xs, ranked_ordered xs)
