-- ===== src/Interfaces/Placement/Decides.antt =====
-- What PlacementPolicy.evaluate decides, and which nodes private data need.
use reckoning.Prelude.{
  String, Bool, true, false, not, ◌&&◌, ◌≡◌, ◌∙◌, refl, sym, List, [], ◌∷◌, str_eq, any, all, keep,
  is_empty, arith, eq_iff, Bool-cases, inl, inr, if◌then◌else◌,
}
use reckoning.Prelude.Result.{ok}
use reckoning.Interfaces.Placement.{
  PlacementPolicy, available, limited, blocked, SourcePlacement, new_placement, local, is_private,
  node_available, nodes_available, usable, evaluate,
}

-- the category is in the list
pub listed : String → List String → Bool
listed c = any (λ (x : String). str_eq x c)

listed-keep :
    (p : String → Bool) (c : String) (xs : List String) → listed c (keep p xs) ≡ listed c xs && p c
unfolding listed
listed-keep p c [] = refl
listed-keep p c (x ∷ xs) = elim (Bool-cases (str_eq x c)) [
  | inl e ↦
      let same : x ≡ c = ground (arith, eq_iff x c) in
      rw same (ground (arith, eq_iff c c, listed-keep p c xs))
  | inr e ↦ ground (arith, listed-keep p c xs)
]

-- nothing is missing exactly when all of them pass
is_empty-missing :
    (p : String → Bool) (xs : List String)
    → is_empty (keep (λ (x : String). not (p x)) xs) ≡ all p xs
is_empty-missing p [] = refl
is_empty-missing p (x ∷ xs) = ground (arith, is_empty-missing p xs)

is_empty-listed : (c : String) (xs : List String) → is_empty xs ≡ true → listed c xs ≡ false
unfolding listed
is_empty-listed c [] e = refl
is_empty-listed c (x ∷ xs) e = absurd (cc)

listed-none :
    (p : String → Bool) (c : String) (xs : List String)
    → is_empty (keep p xs) ≡ true
    → listed c xs && p c ≡ false
listed-none p c xs e = sym (listed-keep p c xs) ∙ is_empty-listed c (keep p xs) e

-- The outcome is available exactly when every required category can be used, and otherwise
-- limited when incomplete work is safe and blocked when it is not; the available categories are
-- the required ones that can be used, and the unavailable ones are the other required ones.
pub evaluate-decides :
    (p : PlacementPolicy) (required : List String) (safe : Bool) (c : String)
    → let o = evaluate p required safe in
      (o.status
        ≡ (if all (usable p) required then available else if safe then limited else blocked))
      × (listed c o.available_categories ≡ listed c required && usable p c)
      × (listed c o.unavailable_categories ≡ listed c required && not (usable p c))
unfolding evaluate listed
evaluate-decides p required safe c =
    let missing : String → Bool = λ x. not (usable p x) in
    let same = is_empty-missing (usable p) required in
    elim (Bool-cases (is_empty (keep missing required))) [
      | inl e ↦ rw e (
          rw (sym same ∙ e)
            (refl, listed-keep (usable p) c required, sym (listed-none missing c required e)))
      | inr e ↦ rw e (
          rw (sym same ∙ e) (elim (Bool-cases safe) [
            | inl s ↦ rw s (refl, listed-keep (usable p) c required, listed-keep missing c required)
            | inr s ↦ rw s (refl, listed-keep (usable p) c required, listed-keep missing c required)
          ]))
    ]

-- Private data whose placement is accepted without remote approval need the local node only.
pub private_stays_local :
    (p : PlacementPolicy) (s accepted : SourcePlacement)
    → new_placement s ≡ ok accepted
    → is_private s.sensitivity ≡ true
    → s.remote_approved ≡ false
    → nodes_available p accepted ≡ node_available p local
unfolding new_placement nodes_available
private_stays_local p s accepted h private far = ground arith
