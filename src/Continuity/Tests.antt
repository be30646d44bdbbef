-- ===== src/Continuity/Tests.antt =====
-- Reckonings at concrete inputs.
use reckoning.Prelude.{◌≡◌, ◌↔◌, refl, String, none, some, List, [], ◌∷◌, ℤ, pos, ◌+ℤ◌}
use reckoning.Prelude.Dict
use reckoning.Prelude.Result.{ok}
use reckoning.Continuity.Records.{
  ReckoningStatus, PersonalRecordType, PersonalRecordVersion, ReckoningDraft, Reckoning,
  OperationStatus, OperationRecord,
}
use reckoning.Continuity.Drafts.{validate}
use reckoning.Continuity.Drafts.Complete.{IsComplete, validate_iff}
use reckoning.Continuity.Repository.{Reckonings, save, get_reckoning, lookup_operation}
use reckoning.Continuity.Repository.Saves.{Call, on_save, on_operation, steps, completed_stays}

abbrev draft : ReckoningDraft
draft = record {
  conflict = "Work or rest";
  questions = [];
  matters_now = "The deadline" ∷ [];
  maintained = [];
  parked = [];
  uncertainties = [];
  known = [];
  inferences = [];
  evidence = record { id = "m"; source = "message"; content = "I am tired" } ∷ [];
  next_step = "Name the deadline";
  proposed_records =
      record {
        record_type = PersonalRecordType.current_state;
        meaning = "Tired";
        evidence_ids = "m" ∷ [];
      }
      ∷ [];
}

abbrev version : ℤ → String → PersonalRecordVersion
version n meaning = record {
  record_id = "p";
  version = n;
  status = ReckoningStatus.proposed;
  record_type = PersonalRecordType.current_state;
  meaning = meaning;
  evidence_ids = "m" ∷ [];
  created_at = "monday";
  supersedes_version = none;
}

abbrev versions : List PersonalRecordVersion
versions = version (pos 1) "Tired" ∷ version (pos 2) "Rested" ∷ []

abbrev entry : Reckoning
entry = record {
  id = "r";
  version = pos 1;
  status = ReckoningStatus.proposed;
  created_at = "monday";
  source_input = "I am tired";
  draft = draft;
  record_versions = versions;
}

abbrev operation : OperationRecord
operation = record {
  operation_id = "o";
  payload_digest = "d";
  status = OperationStatus.completed;
  result_id = "r";
  pending_input = "";
  occurred_at = "monday";
  kind = "";
  target_id = "";
  displayed_revision = none;
  record_id = "";
  correction = "";
  submission = "";
}

abbrev blank : Reckonings
blank = record { reckonings = []; check_ins = []; operations = [] }

abbrev saved : Reckonings
saved = record {
  reckonings = ("r", entry) ∷ [];
  check_ins = [];
  operations = ("o", operation) ∷ [];
}

abbrev calls : List Call
calls = on_operation operation ∷ on_save entry (pos 0) none ∷ []

first_save : (save entry (pos 0) (some operation) blank).0 ≡ ok tt
unfolding save Dict.get ◌+ℤ◌ reckoning.Continuity.Repository.record_operation
first_save = refl

stored_operation : lookup_operation saved "o" ≡ some operation
unfolding lookup_operation Dict.get
stored_operation = refl

validate_iff_example : (validate draft ≡ ok tt) ↔ IsComplete draft
validate_iff_example = validate_iff draft

completed_stays_example : lookup_operation (steps saved calls) "o" ≡ some operation
completed_stays_example = completed_stays saved calls "o" operation stored_operation refl
