-- ===== src/Prelude/Dict.antt =====
-- Python's `dict` with text keys: an association list in the order of insertion.
use reckoning.Prelude.Text.{str_leb}
use reckoning.Prelude.{
  String, ◌≡◌, ◌≢◌, refl, Option, none, some, List, [], ◌∷◌, arith, str_eq, Among, first, Bool,
  true, false, ◌||◌, Bool-cases, inl, inr, eq_iff, if◌then◌else◌,
}

abbrev pub Dict {ℓ} : Type ℓ → Type ℓ
Dict V = List (String × V)

module _ {ℓ} {V : Type ℓ} where
  -- d.get(k)
  unfoldable pub get : String → Dict V → Option V
  get k [] = none
  get k ((j, v) ∷ d) = let rest = get k d in if str_eq j k then some v else rest

  -- d[k] = v: a key that is there keeps its place
  unfoldable pub put : String → V → Dict V → Dict V
  put k v [] = (k, v) ∷ []
  put k v ((j, w) ∷ d) = let rest = put k v d in if str_eq j k then (j, v) ∷ d else (j, w) ∷ rest

  -- d.values()
  unfoldable pub values : Dict V → List V
  values [] = []
  values ((j, v) ∷ d) = v ∷ values d

  -- k in d
  unfoldable pub has : String → Dict V → Bool
  has k [] = false
  has k ((j, v) ∷ d) = str_eq j k || has k d

  abbrev is_some : Option V → Bool
  is_some none = false
  is_some (some v) = true

  pub has-get : (k : String) (d : Dict V) → has k d ≡ is_some (get k d)
  unfolding has get
  has-get k [] = refl
  has-get k ((j, v) ∷ d) = ground (arith, has-get k d)

  pub get-put :
      (k j : String) (v : V) (d : Dict V)
      → get j (put k v d) ≡ (if str_eq k j then some v else get j d)
  unfolding get put
  get-put k j v [] = ground arith
  get-put k j v ((i, w) ∷ d) = ground (arith, eq_iff k j, eq_iff i k, eq_iff i j, get-put k j v d)

  pub get-put_self : (k : String) (v : V) (d : Dict V) → get k (put k v d) ≡ some v
  get-put_self k v d = ground (arith, get-put k k v d, eq_iff k k)

  pub get-put_ne : (k j : String) (v : V) (d : Dict V) → k ≢ j → get j (put k v d) ≡ get j d
  get-put_ne k j v d h = ground (arith, get-put k j v d, eq_iff k j)

pub get-values :
    {V : Type 0} (k : String) (v : V) (d : Dict V) → get k d ≡ some v → Among v (values d)
unfolding get values
get-values k v [] h = absurd (cc)
get-values k v ((j, w) ∷ d) h = elim (Bool-cases (str_eq j k)) [
  | inl e ↦ inl (ground arith)
  | inr e ↦ inr (get-values k v d (ground arith))
]

insert_item {ℓ} : {V : Type ℓ} → String → V → Dict V → Dict V
insert_item k v [] = (k, v) ∷ []
insert_item k v ((j, w) ∷ d) =
    let rest = insert_item k v d in if str_leb k j then (k, v) ∷ (j, w) ∷ d else (j, w) ∷ rest

-- dict(sorted(d.items())), where no two items have one key
unfoldable pub sorted_items {ℓ} : {V : Type ℓ} → Dict V → Dict V
unfolding insert_item
sorted_items [] = []
sorted_items ((k, v) ∷ d) = insert_item k v (sorted_items d)

-- a new value is the first that passes a test, where none passed before
pub first-put :
    {V : Type 0} (p : V → Bool) (k : String) (v : V) (d : Dict V)
    → first p (values d) ≡ none
    → p v ≡ true
    → first p (values (put k v d)) ≡ some v
unfolding values put
first-put p k v [] h t = rw t
first-put p k v ((j, w) ∷ d) h t = ground (arith, first-put p k v d)
