-- ===== src/Prelude/Pairs.antt =====
-- Python's `dict` with pairs of texts as keys.
use reckoning.Prelude.Text.{str_leb}
use reckoning.Prelude.{
  String, ◌≡◌, Option, none, some, List, [], ◌∷◌, arith, str_eq, Bool, ◌&&◌, eq_iff, if◌then◌else◌,
}

abbrev pub Pairs {ℓ} : Type ℓ → Type ℓ
Pairs V = List (String × String × V)

-- (a, b) == (c, d)
abbrev pub same_key : String → String → String → String → Bool
same_key a b c d = str_eq a c && str_eq b d

-- (a, b) <= (c, d)
key_leb : String → String → String → String → Bool
key_leb a b c d = if str_eq a c then str_leb b d else str_leb a c

module _ {ℓ} {V : Type ℓ} where
  -- d.get((a, b))
  unfoldable pub get : String → String → Pairs V → Option V
  get a b [] = none
  get a b ((c, e, v) ∷ d) = let rest = get a b d in if same_key c e a b then some v else rest

  -- d[(a, b)] = v: a key that is there keeps its place
  unfoldable pub put : String → String → V → Pairs V → Pairs V
  put a b v [] = (a, b, v) ∷ []
  put a b v ((c, e, w) ∷ d) =
      let rest = put a b v d in if same_key c e a b then (c, e, v) ∷ d else (c, e, w) ∷ rest

  -- d.pop((a, b), None)
  unfoldable pub pop : String → String → Pairs V → Pairs V
  pop a b [] = []
  pop a b ((c, e, w) ∷ d) =
      let rest = pop a b d in if same_key c e a b then rest else (c, e, w) ∷ rest

  insert_item : String → String → V → Pairs V → Pairs V
  insert_item a b v [] = (a, b, v) ∷ []
  insert_item a b v ((c, e, w) ∷ d) =
      let rest = insert_item a b v d in
      if key_leb a b c e then (a, b, v) ∷ (c, e, w) ∷ d else (c, e, w) ∷ rest

  -- sorted(d.items())
  unfoldable pub sorted_items : Pairs V → Pairs V
  unfolding insert_item key_leb
  sorted_items [] = []
  sorted_items ((a, b, v) ∷ d) = insert_item a b v (sorted_items d)

  pub get-put :
      (a b x y : String) (v : V) (d : Pairs V)
      → get x y (put a b v d) ≡ (if same_key a b x y then some v else get x y d)
  unfolding get put
  get-put a b x y v [] = ground arith
  get-put a b x y v ((c, e, w) ∷ d) = ground (
    arith,
    eq_iff a x,
    eq_iff b y,
    eq_iff c a,
    eq_iff e b,
    eq_iff c x,
    eq_iff e y,
    get-put a b x y v d,
  )

  pub get-pop :
      (a b x y : String) (d : Pairs V)
      → get x y (pop a b d) ≡ (if same_key a b x y then none else get x y d)
  unfolding get pop
  get-pop a b x y [] = ground arith
  get-pop a b x y ((c, e, w) ∷ d) = ground (
    arith,
    eq_iff a x,
    eq_iff b y,
    eq_iff c a,
    eq_iff e b,
    eq_iff c x,
    eq_iff e y,
    get-pop a b x y d,
  )
