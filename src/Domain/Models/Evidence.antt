-- ===== src/Domain/Models/Evidence.antt =====
-- `Artifact` and `EvidenceRecord` of src/agent_harness/domain/models.py.
use harness_system.Prelude.{ℕ, String, Bool, List, Option}
use harness_system.Domain.Enums.{
  ActorType, ArtifactMediaKind, EvidenceTrustTier, RedactionStatus, SubjectType,
}

pub record Artifact : Type 0 where
  pub artifact_id : String
  pub media_type : String
  pub media_kind : ArtifactMediaKind
  pub size_bytes : ℕ
  pub content_digest : String
  pub storage_uri : String
  pub compression : Option String
  pub redaction_status : RedactionStatus
  pub created_at : ℕ

pub record EvidenceProvenance : Type 0 where
  pub producer_type : ActorType
  pub producer_id : String
  pub invocation_id : Option String
  pub collection_method : String
  pub trust_tier : EvidenceTrustTier

pub record EvidenceRecord : Type 0 where
  pub evidence_id : String
  pub run_id : String
  pub task_id : String
  pub subject_type : SubjectType
  pub subject_id : String
  pub subject_digest : String
  pub kind : String
  pub provenance : EvidenceProvenance
  pub artifact_refs : List String
  pub media_type : String
  pub content_digest : String
  pub size_bytes : ℕ
  pub created_at : ℕ
  pub redaction_status : RedactionStatus
  pub truncated : Bool
  pub verification_relevance : List String
