-- ===== src/Tests/Policies.antt =====
-- Policy decisions, approvals and scopes.
use harness_system.Prelude.{
  eqb, ◌&&◌, ℕ, String, ◌≡◌, refl, ◌↔◌, Bool, true, false, List, [], ◌∷◌, Option, none, some,
  is_empty, is_subset, if◌then◌else◌, string_eq,
}
use harness_system.Exceptions.{ok}
use harness_system.Domain.Enums.{PolicyOutcome}
use harness_system.Domain.Models.{Approval, ApprovalDecision, PolicyDecision}
use harness_system.Domain.Validation.{is_scope_subset}
use harness_system.Policy.{
  ApprovalRequest, approval_outcome, create_approval, evaluate_policy, intersect_scope, is_deny,
  resolve_decision_with_approval,
}
use harness_system.Policy.Ceiling.{sealed, intersect_scope-is_scope_subset}
use harness_system.Policy.Outcome.{permitted, asks_gated, evaluate_policy-outcome}
use harness_system.Policy.Approvals.{
  Overrides, resolve_decision-allow, resolve_decision-create_approval,
}
use harness_system.Execution.ScopeGuard.{
  RegexPart, escaped, find_scope_violations, ScopeViolation, path_matches_glob,
}
use harness_system.Execution.ScopeGuard.Narrow.{find_scope_violations-narrower}
use harness_system.Tests.Data.{
  literal, ceiling, changes, digests, narrow_scope, policy_request, scope,
}

abbrev decision : PolicyDecision
decision = sealed digests policy_request ceiling

evaluate_policy-outcome_example :
    (d : PolicyDecision) × ((evaluate_policy digests policy_request ceiling ≡ ok d)
      × (d.outcome ≡ (
          if permitted policy_request.requested_capabilities ceiling
          then (if asks_gated policy_request.requested_capabilities
              then PolicyOutcome.require_approval
              else PolicyOutcome.allow)
          else PolicyOutcome.deny)))
evaluate_policy-outcome_example = evaluate_policy-outcome digests policy_request ceiling

abbrev approval_request : ApprovalRequest
approval_request = record {
  approval_id = "approval-1";
  actor = "user";
  decision_value = ApprovalDecision.approved;
  rationale = "needed";
  requested_at = 50;
  decided_at = 60;
  expires_at = some 100;
  single_use = false;
  scope = none;
}

abbrev approval : Approval
approval = record {
  approval_id = "approval-1";
  subject_type = decision.subject_type;
  subject_id = decision.subject_id;
  subject_digest = decision.subject_digest;
  policy_decision_id = decision.decision_id;
  policy_decision_digest = decision.integrity_digest;
  actor = "user";
  decision = ApprovalDecision.approved;
  scope = decision.approval_requirements;
  requested_at = 50;
  decided_at = 60;
  expires_at = some 100;
  single_use = false;
  rationale = "needed";
}

resolve_decision-allow_example :
    (resolve_decision_with_approval decision approval 70 ≡ ok PolicyOutcome.allow)
    ↔ ((is_deny decision.outcome ≡ false) × Overrides decision approval 70)
resolve_decision-allow_example = resolve_decision-allow decision approval 70

approval-created : create_approval decision approval_request ≡ ok approval
unfolding create_approval harness_system.Policy.draft_decision harness_system.Policy.outcome_of
    harness_system.Policy.denials_of harness_system.Prelude.sorted_set
    harness_system.Policy.rejected_command_ids harness_system.Policy.grantable_domains
    harness_system.Policy.gated_of harness_system.Policy.granted_network_domains
approval-created = refl

resolve_decision-create_approval_example :
    resolve_decision_with_approval decision approval 70 ≡ ok PolicyOutcome.allow
resolve_decision-create_approval_example =
    resolve_decision-create_approval decision approval_request approval 70 approval-created refl

intersect_scope-is_scope_subset_example :
    (is_scope_subset (intersect_scope narrow_scope scope) narrow_scope ≡ true)
    × (is_scope_subset (intersect_scope narrow_scope scope) scope ≡ true)
intersect_scope-is_scope_subset_example = intersect_scope-is_scope_subset narrow_scope scope

narrow_scope-is_subset : is_scope_subset narrow_scope scope ≡ true
unfolding is_scope_subset harness_system.Domain.Validation.ceiling_not_raised
narrow_scope-is_subset = refl

change-narrow : is_empty (find_scope_violations literal changes narrow_scope none none) ≡ true
unfolding find_scope_violations harness_system.Execution.ScopeGuard.path_violations
    harness_system.Execution.ScopeGuard.matches_any path_matches_glob
    harness_system.Execution.ScopeGuard.glob_to_regex harness_system.Execution.ScopeGuard.countable
change-narrow = refl

find_scope_violations-narrower_example :
    is_empty (find_scope_violations literal changes scope none none) ≡ true
find_scope_violations-narrower_example =
    find_scope_violations-narrower literal narrow_scope scope narrow_scope-is_subset refl changes
      none none change-narrow
