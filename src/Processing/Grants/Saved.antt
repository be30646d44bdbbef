-- ===== src/Processing/Grants/Saved.antt =====
-- What a saved grant is: read back as it was written, beside the others as they were.
use reckoning.Prelude.{
  ◌≡◌, ◌≢◌, refl, ap, sym, ◌∙◌, subst, String, false, not, some, List, [], ◌∷◌, ◌++◌, map, ℤ, pos,
  ◌+ℤ◌, +ℤ_parts, eq_ℤ, eq_ℤ→≡, arith, eq_iff, str_eq, contains, keep, Bool-cases, inl, inr,
  if◌then◌else◌,
}
use reckoning.Prelude.Text.Strip.{strip_idem, is_blank-strip}
use reckoning.Prelude.Distinct.{Distinct, Distinct-snoc, is_unique_iff}
use reckoning.Prelude.Result.{Result, ok, err, conflict, Result-cases, ok-injective}
use reckoning.Processing.Grants.{
  ProcessingGrant, grant_from_data, add_grant, grants_from_data, no_duplicates, load_grants,
  grant_of, get_grant, version_of, replaced, save_loaded, save_grant,
}

-- a grant that is read back as it is
abbrev pub IsStorable : ProcessingGrant → Type 0
IsStorable g = grant_from_data g ≡ ok g

-- a file that is read back as it is
abbrev pub IsStored : List ProcessingGrant → Type 0
IsStored file = load_grants file ≡ ok file

grant_from_data-IsStorable : (g h : ProcessingGrant) → grant_from_data g ≡ ok h → IsStorable h
unfolding grant_from_data
grant_from_data-IsStorable g h e =
    ground (arith, strip_idem g.destination_id, is_blank-strip g.destination_id)

add_grant-ok :
    (rest : Result (List ProcessingGrant)) (g : Result ProcessingGrant) (gs : List ProcessingGrant)
    → add_grant rest g ≡ ok gs
    → (h : ProcessingGrant) × (hs : List ProcessingGrant) × (rest ≡ ok hs)
      × (g ≡ ok h)
      × (h ∷ hs ≡ gs)
unfolding add_grant
add_grant-ok rest (err e) gs h = absurd (cc)
add_grant-ok (err e) (ok g) gs h = absurd (cc)
add_grant-ok (ok hs) (ok g) gs h = (g, hs, refl, refl, ok-injective h)

abbrev ids : List ProcessingGrant → List String
ids gs = map (λ (g : ProcessingGrant). g.destination_id) gs

AllStorable : List ProcessingGrant → Type 0
AllStorable [] = Unit
AllStorable (g ∷ gs) = IsStorable g × AllStorable gs

grants_from_data-AllStorable :
    (file gs : List ProcessingGrant) → grants_from_data file ≡ ok gs → AllStorable gs
unfolding grants_from_data AllStorable
grants_from_data-AllStorable [] gs e = subst (λ xs. AllStorable xs) (ok-injective e) tt
grants_from_data-AllStorable (g ∷ file) gs e =
    let (h, hs, rest, here, same) = add_grant-ok (grants_from_data file) (grant_from_data g) gs e in
    subst (λ xs. AllStorable xs) same
      (grant_from_data-IsStorable g h here, grants_from_data-AllStorable file hs rest)

AllStorable→stored : (gs : List ProcessingGrant) → AllStorable gs → grants_from_data gs ≡ ok gs
unfolding grants_from_data AllStorable add_grant
AllStorable→stored [] h = refl
AllStorable→stored (g ∷ gs) h = rw h.0 (rw (AllStorable→stored gs h.1))

abbrev others : String → List ProcessingGrant → List ProcessingGrant
others id gs = keep (λ (g : ProcessingGrant). not (str_eq g.destination_id id)) gs

replaced-AllStorable :
    (grant : ProcessingGrant) (gs : List ProcessingGrant)
    → IsStorable grant
    → AllStorable gs
    → AllStorable (replaced grant gs)
unfolding AllStorable
replaced-AllStorable grant [] s h = (s, tt)
replaced-AllStorable grant (g ∷ gs) s h =
    elim (Bool-cases (str_eq g.destination_id grant.destination_id)) [
      | inl e ↦ rw e (replaced-AllStorable grant gs s h.1)
      | inr e ↦ rw e (h.0, replaced-AllStorable grant gs s h.1)
    ]

load-ok :
    (file gs : List ProcessingGrant) → load_grants file ≡ ok gs → AllStorable gs × Distinct (ids gs)
unfolding load_grants no_duplicates
load-ok file gs h = elim (Result-cases (grants_from_data file)) [
  | inl (hs, e) ↦
      let same : hs ≡ gs = ground arith in
      (
        grants_from_data-AllStorable file gs (e ∙ ap ok same),
        (is_unique_iff (ids gs)).0 (ground arith),
      )
  | inr (x, e) ↦ absurd (ground arith)
]

load-back : (gs : List ProcessingGrant) → AllStorable gs → Distinct (ids gs) → IsStored gs
unfolding load_grants no_duplicates
load-back gs h d = rw (AllStorable→stored gs h) (rw ((is_unique_iff (ids gs)).1 d))

absent_among :
    (id a : String) (gs : List ProcessingGrant)
    → contains (ids gs) a ≡ false
    → contains (ids (others id gs)) a ≡ false
unfolding contains
absent_among id a [] h = refl
absent_among id a (g ∷ gs) h = ground (arith, absent_among id a gs)

others-absent : (id : String) (gs : List ProcessingGrant) → contains (ids (others id gs)) id ≡ false
unfolding contains
others-absent id [] = refl
others-absent id (g ∷ gs) = ground (arith, others-absent id gs)

others-Distinct :
    (id : String) (gs : List ProcessingGrant) → Distinct (ids gs) → Distinct (ids (others id gs))
others-Distinct id [] d = tt
others-Distinct id (g ∷ gs) d = elim (Bool-cases (str_eq g.destination_id id)) [
  | inl e ↦ rw e (others-Distinct id gs d.1)
  | inr e ↦ rw e (absent_among id g.destination_id gs d.0, others-Distinct id gs d.1)
]

ids-snoc :
    (gs : List ProcessingGrant) (g : ProcessingGrant)
    → ids (gs ++ g ∷ []) ≡ ids gs ++ g.destination_id ∷ []
ids-snoc [] g = refl
ids-snoc (h ∷ gs) g = ap (λ xs. h.destination_id ∷ xs) (ids-snoc gs g)

replaced-Distinct :
    (grant : ProcessingGrant) (gs : List ProcessingGrant)
    → Distinct (ids gs)
    → Distinct (ids (replaced grant gs))
replaced-Distinct grant gs d =
    let id = grant.destination_id in
    subst (λ xs. Distinct xs) (sym (ids-snoc (others id gs) grant))
      (Distinct-snoc (ids (others id gs)) id (others-Distinct id gs d) (others-absent id gs))

-- the grant of a destination after a save
grant_of-replaced :
    (grant : ProcessingGrant) (gs : List ProcessingGrant) (id : String)
    → grant_of id (replaced grant gs)
      ≡ (if str_eq grant.destination_id id then some grant else grant_of id gs)
grant_of-replaced grant [] id = ground arith
grant_of-replaced grant (g ∷ gs) id = ground (
  arith,
  grant_of-replaced grant gs id,
  eq_iff g.destination_id grant.destination_id,
  eq_iff grant.destination_id id,
  eq_iff g.destination_id id,
)

save_loaded-ok :
    (grant : ProcessingGrant) (expected : ℤ) (loaded : Result (List ProcessingGrant))
    (file : List ProcessingGrant)
    → (save_loaded grant expected loaded file).0 ≡ ok tt
    → (gs : List ProcessingGrant) × (loaded ≡ ok gs)
      × (version_of (grant_of grant.destination_id gs) ≡ expected)
      × (grant.version ≡ expected +ℤ pos 1)
      × ((save_loaded grant expected loaded file).1 ≡ replaced grant gs)
unfolding save_loaded
save_loaded-ok grant expected (err e) file h = absurd (cc)
save_loaded-ok grant expected (ok gs) file h = (
  gs,
  refl,
  eq_ℤ→≡ (version_of (grant_of grant.destination_id gs)) expected (ground arith),
  eq_ℤ→≡ grant.version (expected +ℤ pos 1) (ground arith),
  ground arith,
)

pub save_grant-saves :
    (grant : ProcessingGrant) (expected : ℤ) (file : List ProcessingGrant)
    → IsStorable grant
    → (save_grant grant expected file).0 ≡ ok tt
    → let file' = (save_grant grant expected file).1 in
      (grant.version ≡ expected +ℤ pos 1)
      × IsStored file'
      × (get_grant file' grant.destination_id ≡ ok (some grant))
      × ((id : String) → grant.destination_id ≢ id → get_grant file' id ≡ get_grant file id)
unfolding save_grant get_grant
save_grant-saves grant expected file s h =
    let (gs, loaded, version, next, after) =
      save_loaded-ok grant expected (load_grants file) file h in
    let (storable, distinct) = load-ok file gs loaded in
    let back : IsStored (replaced grant gs) =
      load-back (replaced grant gs) (replaced-AllStorable grant gs s storable)
        (replaced-Distinct grant gs distinct) in
    (
      next,
      rw after back,
      rw after (
          rw back (
            ap (λ o. ok o)
              (ground (
                arith,
                grant_of-replaced grant gs grant.destination_id,
                eq_iff grant.destination_id grant.destination_id,
              )))),
      λ id apart. rw after (
          rw back (
            rw loaded (
              ap (λ o. ok o)
                (ground (arith, grant_of-replaced grant gs id, eq_iff grant.destination_id id))))),
    )

-- Of two saves of a destination's grant under one expected version, only the first can succeed:
-- the second raises the conflict and leaves the file as it is.
pub save_grant-once :
    (grant other : ProcessingGrant) (expected : ℤ) (file : List ProcessingGrant)
    → IsStorable grant
    → (save_grant grant expected file).0 ≡ ok tt
    → other.destination_id ≡ grant.destination_id
    → let file' = (save_grant grant expected file).1 in
      save_grant other expected file'
      ≡ (err (conflict "Processing grant changed from the expected revision."), file')
unfolding save_grant save_loaded
save_grant-once grant other expected file s h same =
    let (gs, loaded, version, next, after) =
      save_loaded-ok grant expected (load_grants file) file h in
    let (storable, distinct) = load-ok file gs loaded in
    let back : IsStored (replaced grant gs) =
      load-back (replaced grant gs) (replaced-AllStorable grant gs s storable)
        (replaced-Distinct grant gs distinct) in
    let found : grant_of other.destination_id (replaced grant gs) ≡ some grant = ground (
      arith,
      grant_of-replaced grant gs other.destination_id,
      eq_iff grant.destination_id other.destination_id,
    ) in
    let moved : eq_ℤ grant.version expected ≡ false = grind (arith, +ℤ_parts expected (pos 1)) in
    rw after (rw back (rw found (rw moved refl)))
