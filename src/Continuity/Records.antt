-- ===== src/Continuity/Records.antt =====
-- continuity.py: its dataclasses. An instant is a text; a version is signed, as callers pass what
-- they expect.
pub mod Current
use reckoning.Prelude.{String, Option, none, some, List, [], ◌∷◌, ℤ}
use reckoning.Prelude.Dict
use reckoning.Prelude.Dict.{Dict}

pub data ReckoningStatus : Type 0 where
  proposed confirmed : ReckoningStatus

pub data PersonalRecordType : Type 0 where
  profile_fact current_state direction goal decision preference boundary : PersonalRecordType

pub record Evidence : Type 0 where
  pub id : String
  pub source : String
  pub content : String

pub record SourcedFact : Type 0 where
  pub text : String
  pub evidence_ids : List String

pub record Inference : Type 0 where
  pub text : String
  pub evidence_ids : List String
  pub uncertainty : String

pub record MaterialQuestion : Type 0 where
  pub text : String
  pub effect_on_recommendation : String

pub record PersonalRecordProposal : Type 0 where
  pub record_type : PersonalRecordType
  pub meaning : String
  pub evidence_ids : List String

-- PersonalRecordStatus has the two values of ReckoningStatus
pub record PersonalRecordVersion : Type 0 where
  pub record_id : String
  pub version : ℤ
  pub status : ReckoningStatus
  pub record_type : PersonalRecordType
  pub meaning : String
  pub evidence_ids : List String
  pub created_at : String
  pub supersedes_version : Option ℤ

pub record ReckoningDraft : Type 0 where
  pub conflict : String
  pub questions : List MaterialQuestion
  pub matters_now : List String
  pub maintained : List String
  pub parked : List String
  pub uncertainties : List String
  pub known : List SourcedFact
  pub inferences : List Inference
  pub evidence : List Evidence
  pub next_step : String
  pub proposed_records : List PersonalRecordProposal

pub record Reckoning : Type 0 where
  pub id : String
  pub version : ℤ
  pub status : ReckoningStatus
  pub created_at : String
  pub source_input : String
  pub draft : ReckoningDraft
  pub record_versions : List PersonalRecordVersion

pub record CheckIn : Type 0 where
  pub id : String
  pub decision_id : String
  pub occurred_at : String
  pub outcome : String
  pub supporting_evidence_ids : List String

pub data OperationStatus : Type 0 where
  completed failed : OperationStatus

pub record OperationRecord : Type 0 where
  pub operation_id : String
  pub payload_digest : String
  pub status : OperationStatus
  pub result_id : String
  pub pending_input : String
  pub occurred_at : String
  pub kind : String
  pub target_id : String
  pub displayed_revision : Option ℤ
  pub record_id : String
  pub correction : String
  pub submission : String

-- current_by_id after the loop over the record versions
unfoldable pub current_by_id :
    Dict PersonalRecordVersion → List PersonalRecordVersion → Dict PersonalRecordVersion
current_by_id current [] = current
current_by_id current (v ∷ versions) = current_by_id (Dict.put v.record_id v current) versions

-- Reckoning.current_records
unfoldable pub current_records : Reckoning → List PersonalRecordVersion
unfolding current_by_id
current_records entry = Dict.values (current_by_id [] entry.record_versions)
