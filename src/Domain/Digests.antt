-- ===== src/Domain/Digests.antt =====
-- `compute_model_digest` of src/agent_harness/domain/digests.py. The canonical JSON of a record and
-- its SHA-256 are library code: the digest of each kind of record is a parameter. A field that
-- `exclude_fields` names is blanked before the digest is taken, so that it has no influence.
use harness_system.Prelude.{String, none}
use harness_system.Domain.Models.{
  IntegrityRef, JournalEntry, PolicyDecision, ReworkContract, TaskContract,
}

pub record Digests : Type 0 where
  pub journal_entry : JournalEntry → String
  pub policy_decision : PolicyDecision → String
  pub task_contract : TaskContract → String
  pub rework_contract : ReworkContract → String

-- `_PLACEHOLDER_DIGEST`
abbrev pub placeholder_digest : String
placeholder_digest = "sha256:0000000000000000000000000000000000000000000000000000000000000000"

-- exclude_fields={"entry_hash"}
abbrev pub journal_entry_digest : Digests → JournalEntry → String
journal_entry_digest digests entry =
    digests.journal_entry (record entry { entry_hash = placeholder_digest })

-- exclude_fields={"integrity_digest"}
abbrev pub policy_decision_digest : Digests → PolicyDecision → String
policy_decision_digest digests decision =
    digests.policy_decision (record decision { integrity_digest = placeholder_digest })

-- exclude_fields={"integrity_digest"}
abbrev pub rework_contract_digest : Digests → ReworkContract → String
rework_contract_digest digests contract =
    digests.rework_contract (record contract { integrity_digest = placeholder_digest })

abbrev blank_integrity : IntegrityRef
blank_integrity = record { canonical_digest = placeholder_digest; supersedes_contract_id = none }

-- exclude_fields={"integrity"}
abbrev pub task_contract_digest : Digests → TaskContract → String
task_contract_digest digests contract =
    digests.task_contract (record contract { integrity = blank_integrity })
