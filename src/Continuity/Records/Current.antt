-- ===== src/Continuity/Records/Current.antt =====
-- Which version of a record is the current one.
use reckoning.Prelude.{
  ◌≡◌, refl, ap, ◌∙◌, String, Option, none, some, List, [], ◌∷◌, str_eq, keep, last?, Bool-cases,
  inl, inr,
}
use reckoning.Prelude.Dict
use reckoning.Prelude.Dict.{Dict}
use reckoning.Continuity.Records.{PersonalRecordVersion, current_by_id}

-- the versions of one record, as they came
abbrev pub versions_of : String → List PersonalRecordVersion → List PersonalRecordVersion
versions_of id versions = keep (λ (v : PersonalRecordVersion). str_eq v.record_id id) versions

abbrev last_or :
    Option PersonalRecordVersion → List PersonalRecordVersion → Option PersonalRecordVersion
last_or before [] = before
last_or before (v ∷ versions) = last_or (some v) versions

last_or-last :
    (v : PersonalRecordVersion) (versions : List PersonalRecordVersion)
    → last_or (some v) versions ≡ last? (v ∷ versions)
last_or-last v [] = refl
last_or-last v (w ∷ versions) = last_or-last w versions

last_or-none : (versions : List PersonalRecordVersion) → last_or none versions ≡ last? versions
last_or-none [] = refl
last_or-none (v ∷ versions) = last_or-last v versions

current_by_id-get :
    (id : String) (current : Dict PersonalRecordVersion) (versions : List PersonalRecordVersion)
    → Dict.get id (current_by_id current versions)
      ≡ last_or (Dict.get id current) (versions_of id versions)
unfolding current_by_id
current_by_id-get id current [] = refl
current_by_id-get id current (v ∷ versions) = elim (Bool-cases (str_eq v.record_id id)) [
  | inl e ↦ rw e (
      current_by_id-get id (Dict.put v.record_id v current) versions
      ∙ ap (λ o. last_or o (versions_of id versions))
          (Dict.get-put v.record_id id v current ∙ rw e refl))
  | inr e ↦ rw e (
      current_by_id-get id (Dict.put v.record_id v current) versions
      ∙ ap (λ o. last_or o (versions_of id versions))
          (Dict.get-put v.record_id id v current ∙ rw e refl))
]

-- The current version of a record is the last of its versions, whatever their numbers, and a
-- record without a version has none.
pub current_by_id-last :
    (id : String) (versions : List PersonalRecordVersion)
    → Dict.get id (current_by_id [] versions) ≡ last? (versions_of id versions)
unfolding Dict.get
current_by_id-last id versions =
    current_by_id-get id [] versions ∙ last_or-none (versions_of id versions)
