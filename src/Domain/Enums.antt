-- ===== src/Domain/Enums.antt =====
-- The closed vocabularies of src/agent_harness/domain/enums.py that the modelled code uses.
use harness_system.Prelude.{ℕ, ◌≡◌, refl, ap, ◌↔◌, Bool, true, arith, HasEquality, eqb, eqb_iff}

pub data FailureCategory : Type 0 where
  domain infrastructure : FailureCategory

pub data FailureCode : Type 0 where
  policy_hard_deny policy_denied schema_invalid execution_failed : FailureCode
  test_failed rework_exhausted timed_out run_timeout : FailureCode
  base_revision_stale capability_mismatch internal_error : FailureCode

pub data AgentRole : Type 0 where
  planner worker verifier : AgentRole

pub data VerificationDecision : Type 0 where
  pass rework reject manual_review : VerificationDecision

pub data CriterionResult : Type 0 where
  pass fail not_verified not_applicable waived : CriterionResult

pub data VerificationMethod : Type 0 where
  command assertion manual : VerificationMethod

pub data FindingSeverity : Type 0 where
  blocker high medium low info : FindingSeverity

pub data PolicyOutcome : Type 0 where
  allow require_approval deny manual_review : PolicyOutcome

pub data ProtocolStatus : Type 0 where
  succeeded cancelled timed_out limit_reached invalid_output provider_error : ProtocolStatus

pub data WorkerResultStatus : Type 0 where
  completed partial blocked failed : WorkerResultStatus

pub data ProviderErrorCode : Type 0 where
  authentication authorization rate_limit transient_network : ProviderErrorCode
  invalid_request model_unavailable tool_denied sandbox_unavailable : ProviderErrorCode
  process_exit output_invalid budget_exhausted timeout : ProviderErrorCode
  cancelled internal : ProviderErrorCode

pub data ActorType : Type 0 where
  user harness planner verifier worker : ActorType
  mcp_server host_test_runner policy_engine adapter : ActorType

pub data SubjectType : Type 0 where
  run task task_contract rework_contract command_spec command_run mcp_tool : SubjectType
  network_domain workspace_access artifact verification capability_request : SubjectType

pub data WorkspaceAccessLevel : Type 0 where
  none read read_write : WorkspaceAccessLevel

pub data PendingActionKind : Type 0 where
  approval manual_review final_approval recovery_decision : PendingActionKind

pub data EvidenceTrustTier : Type 0 where
  host_observed policy_engine_generated provider_event_observed : EvidenceTrustTier
  provider_reported user_attested external_mcp_reported : EvidenceTrustTier

pub data RedactionStatus : Type 0 where
  none redacted quarantined : RedactionStatus

pub data ArtifactMediaKind : Type 0 where
  text json binary diff log : ArtifactMediaKind

abbrev role_ordinal : AgentRole → ℕ
role_ordinal AgentRole.planner = 0
role_ordinal AgentRole.worker = 1
role_ordinal AgentRole.verifier = 2

role_ordinal-injective : (s t : AgentRole) → role_ordinal s ≡ role_ordinal t → s ≡ t
role_ordinal-injective s t h = ground arith

abbrev pub role_beq : AgentRole → AgentRole → Bool
role_beq s t = eqb (role_ordinal s) (role_ordinal t)

pub role_beq_iff : (s t : AgentRole) → (role_beq s t ≡ true) ↔ (s ≡ t)
role_beq_iff s t =
    (λ h. role_ordinal-injective s t ((eqb_iff _ _).0 h), λ h. (eqb_iff _ _).1 (ap role_ordinal h))

instance abbrev pub role_eq : HasEquality AgentRole
role_eq = record {
  same = role_beq;
  same_sound = λ a b. (role_beq_iff a b).0;
  same_complete = λ a. (role_beq_iff a a).1 refl;
}
