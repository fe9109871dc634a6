-- ===== src/Policy.antt =====
-- The policy engine: src/agent_harness/policy. `evaluate_policy` raises nothing of its own; the
-- validator of `PolicyDecision` (src/agent_harness/domain/models.py) may. The random identifier of
-- the decision and the times are arguments.
pub mod Ceiling
pub mod Outcome
pub mod Approvals
use harness_system.Prelude.{
  ℕ, String, Bool, true, false, not, ◌&&◌, ◌||◌, List, [], ◌∷◌, ◌++◌, Option, none, some, ◌==◌,
  string_eq, min, ltb, if◌then◌else◌, filter, is_empty, member, intersection, difference, union,
}
use harness_system.Exceptions.{
  policy_approval, ApprovalError, validation_error, Result, ok, raised, ◌>>=◌, ◌>>◌, raise_if,
}
use harness_system.Domain.Enums.{PolicyOutcome, SubjectType}
use harness_system.Domain.Models.{
  Approval, ApprovalDecision, Denial, GatedCapability, PolicyCeiling, PolicyDecision, PolicyGrants,
  RequestedCapabilities, ScopeRules, hard_deny_network_metadata_endpoint, ceiling_forbids_raw_shell,
  ceiling_forbids_commands, ceiling_forbids_network_domains, ceiling_forbids_mcp_tools,
  ceiling_forbids_external_systems, ceiling_forbids_database_targets,
  ceiling_forbids_package_install,
}
use harness_system.Domain.Digests.{Digests, placeholder_digest, policy_decision_digest}
use harness_system.Domain.Validation.{validate_approval_binding}

-- policy/paths.py: `_min_optional`
unfoldable pub min_optional : Option ℕ → Option ℕ → Option ℕ
min_optional none b = b
min_optional (some a) none = some a
min_optional (some a) (some b) = some (min a b)

unfoldable pub intersect_scope : ScopeRules → ScopeRules → ScopeRules
intersect_scope requested ceiling = record {
  allowed_path_rules = intersection requested.allowed_path_rules ceiling.allowed_path_rules;
  forbidden_path_rules = union requested.forbidden_path_rules ceiling.forbidden_path_rules;
  allow_new_files = requested.allow_new_files && ceiling.allow_new_files;
  max_changed_files = min_optional requested.max_changed_files ceiling.max_changed_files;
  max_changed_bytes = min_optional requested.max_changed_bytes ceiling.max_changed_bytes;
  declared_generated_paths =
      intersection requested.declared_generated_paths ceiling.declared_generated_paths;
}

-- policy/commands.py
unfoldable pub intersect_command_ids : List String → List String → List String
intersect_command_ids requested allowed_command_ids = intersection requested allowed_command_ids

unfoldable pub rejected_command_ids : List String → List String → List String
rejected_command_ids requested allowed_command_ids = difference requested allowed_command_ids

-- `_HARD_DENIED_NETWORK_DOMAINS`
abbrev pub hard_denied_network_domains : List String
hard_denied_network_domains =
    "169.254.169.254" ∷ "metadata.google.internal" ∷ "metadata.azure.com" ∷ "fd00:ec2::254" ∷ []

-- The arguments of `evaluate_policy` but for the ceiling.
pub record PolicyRequest : Type 0 where
  pub decision_id : String
  pub subject_type : SubjectType
  pub subject_id : String
  pub subject_digest : String
  pub requested_capabilities : RequestedCapabilities
  pub requested_scope : ScopeRules
  pub evaluated_at : ℕ

-- `if names: denials.append(denial(names))`
abbrev pub listed : (List String → Denial) → List String → List Denial
listed denial names = if is_empty names then [] else denial names ∷ []

-- `if test: items.append(item)`
abbrev pub flagged {ℓ} : {A : Type ℓ} → A → Bool → List A
flagged item test = if test then item ∷ [] else []

module _ (requested : RequestedCapabilities) (ceiling : PolicyCeiling) where
  -- `grantable_domains`
  unfoldable pub grantable_domains : List String
  grantable_domains = difference requested.network_domains hard_denied_network_domains

  unfoldable pub granted_network_domains : List String
  granted_network_domains = intersection grantable_domains ceiling.allowed_network_domains

  unfoldable pub package_install_granted : Bool
  package_install_granted = requested.package_install && ceiling.package_install_allowed

  -- `denials`, in the order in which they are appended.
  unfoldable pub denials_of : List Denial
  denials_of =
      listed hard_deny_network_metadata_endpoint
        (intersection requested.network_domains hard_denied_network_domains)
      ++ (flagged ceiling_forbids_raw_shell (requested.raw_shell && not ceiling.raw_shell_allowed)
          ++ (listed ceiling_forbids_commands
                (rejected_command_ids requested.command_ids ceiling.allowed_command_ids)
              ++ (listed ceiling_forbids_network_domains
                    (difference grantable_domains ceiling.allowed_network_domains)
                  ++ (listed ceiling_forbids_mcp_tools
                        (difference requested.mcp_tools ceiling.allowed_mcp_tools)
                      ++ (listed ceiling_forbids_external_systems
                            (difference requested.external_systems ceiling.allowed_external_systems)
                          ++ (listed ceiling_forbids_database_targets (
                                difference requested.database_targets
                                  ceiling.allowed_database_targets)
                              ++ flagged ceiling_forbids_package_install (
                                  requested.package_install
                                  && not ceiling.package_install_allowed)))))))

  unfoldable pub grants_of : ScopeRules → PolicyGrants
  grants_of requested_scope = record {
    path_rules = intersect_scope requested_scope ceiling.workspace_scope;
    command_ids = intersect_command_ids requested.command_ids ceiling.allowed_command_ids;
    workspace_access = requested.workspace_access;
    network_rules = granted_network_domains;
    package_rules = if package_install_granted then "package_install" ∷ [] else [];
    mcp_tools = intersection requested.mcp_tools ceiling.allowed_mcp_tools;
    external_targets = intersection requested.external_systems ceiling.allowed_external_systems;
    sandbox_profile = ceiling.sandbox_profile;
    budgets = ceiling.budget_ceiling;
  }

  -- `[name for name in _APPROVAL_GATED_CAPABILITIES if active_flags[name]]`
  unfoldable pub gated_of : List GatedCapability
  gated_of =
      flagged GatedCapability.network_access (not (is_empty granted_network_domains))
      ++ (flagged GatedCapability.package_install package_install_granted
          ++ (flagged GatedCapability.raw_shell requested.raw_shell
              ++ (flagged GatedCapability.mcp_tools
                    (not (is_empty (intersection requested.mcp_tools ceiling.allowed_mcp_tools)))
                  ++ (flagged GatedCapability.external_systems (
                        not (
                          is_empty (
                            intersection requested.external_systems
                              ceiling.allowed_external_systems)))
                      ++ flagged GatedCapability.database_targets (
                          not (
                            is_empty (
                              intersection requested.database_targets
                                ceiling.allowed_database_targets)))))))

-- The outcome for the denials and the approval requirements.
unfoldable pub outcome_of : List Denial → List GatedCapability → PolicyOutcome
outcome_of denials gated =
    if is_empty denials
    then (if is_empty gated then PolicyOutcome.allow else PolicyOutcome.require_approval)
    else PolicyOutcome.deny

abbrev pub is_deny : PolicyOutcome → Bool
is_deny PolicyOutcome.deny = true
is_deny _ = false

abbrev pub is_require_approval : PolicyOutcome → Bool
is_require_approval PolicyOutcome.require_approval = true
is_require_approval _ = false

-- `PolicyDecision._check_outcome_payload`
unfoldable pub check_outcome_payload : PolicyDecision → Result (Unit {0})
check_outcome_payload d = do
  raise_if (is_deny d.outcome && is_empty d.reason_codes) validation_error
  raise_if (is_require_approval d.outcome && is_empty d.approval_requirements) validation_error

unfoldable pub draft_decision : PolicyRequest → PolicyCeiling → PolicyDecision
draft_decision q ceiling =
    let denials = denials_of q.requested_capabilities ceiling in
    let gated = if is_empty denials then gated_of q.requested_capabilities ceiling else [] in
    record {
      decision_id = q.decision_id;
      subject_type = q.subject_type;
      subject_id = q.subject_id;
      subject_digest = q.subject_digest;
      policy_bundle_id = ceiling.policy_bundle_id;
      policy_bundle_digest = ceiling.policy_bundle_digest;
      engine_version = ceiling.engine_version;
      evaluated_at = q.evaluated_at;
      outcome = outcome_of denials gated;
      grants = grants_of q.requested_capabilities ceiling q.requested_scope;
      denials = denials;
      approval_requirements = gated;
      reason_codes = denials;
      evaluated_fact_digests = [];
      expires_at = none;
      integrity_digest = placeholder_digest;
    }

unfoldable pub evaluate_policy : Digests → PolicyRequest → PolicyCeiling → Result PolicyDecision
unfolding check_outcome_payload
evaluate_policy digests q ceiling = do
  let draft = draft_decision q ceiling
  check_outcome_payload draft
  ok (record draft { integrity_digest = policy_decision_digest digests draft })

-- The arguments of `create_approval`, with the identifier of the new approval.
pub record ApprovalRequest : Type 0 where
  pub approval_id : String
  pub actor : String
  pub decision_value : ApprovalDecision
  pub rationale : String
  pub requested_at : ℕ
  pub decided_at : ℕ
  pub expires_at : Option ℕ
  pub single_use : Bool
  pub scope : Option (List GatedCapability)

-- policy/approvals.py; `rationale` has `min_length=1`.
unfoldable pub create_approval : PolicyDecision → ApprovalRequest → Result Approval
create_approval decision q = do
  raise_if (is_deny decision.outcome) (policy_approval ApprovalError.denied)
  raise_if (q.rationale == "") validation_error
  ok (record {
    approval_id = q.approval_id;
    subject_type = decision.subject_type;
    subject_id = decision.subject_id;
    subject_digest = decision.subject_digest;
    policy_decision_id = decision.decision_id;
    policy_decision_digest = decision.integrity_digest;
    actor = q.actor;
    decision = q.decision_value;
    scope = elim q.scope [ none ↦ decision.approval_requirements | some scope ↦ scope ];
    requested_at = q.requested_at;
    decided_at = q.decided_at;
    expires_at = q.expires_at;
    single_use = q.single_use;
    rationale = q.rationale;
  })

-- `expires_at is not None and now > expires_at`
abbrev pub is_expired : Option ℕ → ℕ → Bool
is_expired none now = false
is_expired (some expires_at) now = ltb expires_at now

abbrev pub approval_outcome : ApprovalDecision → PolicyOutcome
approval_outcome ApprovalDecision.rejected = PolicyOutcome.deny
approval_outcome ApprovalDecision.approved = PolicyOutcome.allow

unfoldable pub resolve_decision_with_approval : PolicyDecision → Approval → ℕ → Result PolicyOutcome
resolve_decision_with_approval decision approval now = do
  raise_if (is_deny decision.outcome) (policy_approval ApprovalError.denied)
  validate_approval_binding approval decision.subject_digest decision.integrity_digest
  raise_if (is_expired approval.expires_at now) (policy_approval ApprovalError.expired)
  ok (approval_outcome approval.decision)
