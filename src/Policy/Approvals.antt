-- ===== src/Policy/Approvals.antt =====
-- What an approval can do: src/agent_harness/policy/approvals.py.
use harness_system.Prelude.{ℕ, ◌≡◌, ◌↔◌, false, arith, ==_iff, ==_refl, string_eq}
use harness_system.Exceptions.{ok, raised, policy_approval, ApprovalError}
use harness_system.Domain.Enums.{PolicyOutcome}
use harness_system.Domain.Models.{Approval, ApprovalDecision, PolicyDecision}
use harness_system.Domain.Validation.{validate_approval_binding}
use harness_system.Policy.{
  ApprovalRequest, is_deny, is_expired, approval_outcome, create_approval,
  resolve_decision_with_approval,
}

-- The approval is for exactly this decision: it is bound to both digests, approves, and has not
-- expired.
pub record Overrides (decision : PolicyDecision) (approval : Approval) (now : ℕ) : Type 0 where
  pub subject : approval.subject_digest ≡ decision.subject_digest
  pub policy : approval.policy_decision_digest ≡ decision.integrity_digest
  pub fresh : is_expired approval.expires_at now ≡ false
  pub approves : approval.decision ≡ ApprovalDecision.approved

module _ (decision : PolicyDecision) (approval : Approval) (now : ℕ) where
  -- The effective outcome is ALLOW exactly for a decision other than DENY and an approval that is bound
  -- to it, is unexpired and approves.
  pub resolve_decision-allow :
      (resolve_decision_with_approval decision approval now ≡ ok PolicyOutcome.allow)
      ↔ ((is_deny decision.outcome ≡ false) × Overrides decision approval now)
  unfolding resolve_decision_with_approval validate_approval_binding
  resolve_decision-allow =
      let subject = ==_iff approval.subject_digest decision.subject_digest in
      let policy = ==_iff approval.policy_decision_digest decision.integrity_digest in
      (λ h. ground (arith, subject, policy), λ h. ground (arith, subject, policy))

  -- A DENY is never overridden, whatever the approval.
  pub resolve_decision-deny :
      decision.outcome ≡ PolicyOutcome.deny
      → resolve_decision_with_approval decision approval now
        ≡ raised (policy_approval ApprovalError.denied)
  unfolding resolve_decision_with_approval
  resolve_decision-deny h = rw h

-- An approval that was created for a decision resolves it to the answer that it records, until it
-- expires.
pub resolve_decision-create_approval :
    (decision : PolicyDecision) (q : ApprovalRequest) (approval : Approval) (now : ℕ)
    → create_approval decision q ≡ ok approval
    → is_expired q.expires_at now ≡ false
    → resolve_decision_with_approval decision approval now ≡ ok (approval_outcome q.decision_value)
unfolding create_approval resolve_decision_with_approval validate_approval_binding
resolve_decision-create_approval decision q approval now h e =
    ground (arith, ==_refl decision.subject_digest, ==_refl decision.integrity_digest)
