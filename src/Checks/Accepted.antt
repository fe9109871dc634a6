-- ===== src/Checks/Accepted.antt =====
-- When `run_verification` (src/agent_harness/application/verification.py) accepts a PASS.
use harness_system.Prelude.{
  String, ◌≡◌, refl, ◌⊎◌, inl, inr, ◌↔◌, ◌≢◌, Bool, true, false, not, List, [], ◌∷◌, map, Option,
  none, some, arith, filter, is_empty, member, string_eq, int_eq, All, append-nil_parts,
  is_empty_iff, is_empty-filter, any-not, Bool-cases, is_subset, ◌∙◌,
}
use harness_system.Domain.Enums.{CriterionResult, VerificationDecision, VerificationMethod}
use harness_system.Domain.Models.{
  AcceptanceCriterion, CriterionVerification, TaskContract, UsageRecord, VerificationResult,
}
use harness_system.Domain.Validation.{find_pass_invariant_violations}
use harness_system.Domain.Validation.Pass.{IsValidPass, find_pass_invariant_violations_iff}
use harness_system.Execution.Frozen.{CommandExecution, FrozenValidationResult}
use harness_system.Checks.{
  CheckViolation, when, known_evidence_ids, evidence_violations, each_evidence,
  find_missing_evidence_violations, execution_by_id, is_expected, execution_violations, is_command,
  criterion_violations, each_criterion, find_check_execution_violations, violations_of,
  verified_verification,
}

-- A criterion that claims PASS cites evidence, all of it from the frozen result.
abbrev pub IsCited : List String → CriterionVerification → Type 0
IsCited known c =
    c.result ≡ CriterionResult.pass
    → (c.evidence_refs ≢ []) × (is_subset c.evidence_refs known ≡ true)

-- An execution within its limits, with an exit code that the criterion expects; no expectation accepts
-- every code.
abbrev pub Succeeds : AcceptanceCriterion → CommandExecution → Type 0
Succeeds c e =
    (e.process_result.timed_out ≡ false)
    × (e.process_result.output_cap_exceeded ≡ false)
    × ((c.verification.expected_exit_codes ≡ [])
        ⊎ (is_expected e.command_run.exit_code c.verification.expected_exit_codes ≡ true))

-- The command of a COMMAND criterion has been executed, with success.
abbrev pub IsExecuted : List CommandExecution → AcceptanceCriterion → Type 0
IsExecuted executions c =
    c.verification.method ≡ VerificationMethod.command
    → (e : CommandExecution) × (execution_by_id executions c.verification.command_id ≡ some e)
      × Succeeds c e

-- All that the Harness demands of a PASS.
pub record IsAccepted (contract : TaskContract) (frozen : FrozenValidationResult)
    (result : VerificationResult) : Type 0 where
  pub claimed : result.decision ≡ VerificationDecision.pass
  pub valid : IsValidPass contract result
  pub cited : All (IsCited (known_evidence_ids frozen)) result.criteria
  pub in_scope : frozen.scope_violations ≡ []
  pub executed : All (IsExecuted frozen.check_executions) contract.acceptance_criteria
  pub clean : frozen.test_side_effects ≡ []

when_iff : (test : Bool) (v : CheckViolation) → (when test v ≡ []) ↔ (test ≡ false)
when_iff test v = ground arith

is_empty-unresolved :
    (refs known : List String)
    → is_empty (filter (λ ref. not (member ref known)) refs) ≡ is_subset refs known
is_empty-unresolved refs known =
    is_empty-filter (λ ref. not (member ref known)) refs
    ∙ ground (arith, any-not (λ ref. member ref known) refs)

evidence_violations_iff :
    (known : List String) (c : CriterionVerification)
    → (evidence_violations known c ≡ []) ↔ IsCited known c
unfolding evidence_violations
evidence_violations_iff known c =
    let resolved = is_empty-unresolved c.evidence_refs known in
    let refs = is_empty_iff c.evidence_refs in
    (λ h. ground (arith, resolved, refs), λ h. ground (arith, resolved, refs, h))

each_evidence_iff :
    (known : List String) (cs : List CriterionVerification)
    → (each_evidence known cs ≡ []) ↔ All (IsCited known) cs
unfolding each_evidence
each_evidence_iff known [] = (λ h. tt, λ h. refl)
each_evidence_iff known (c ∷ cs) = (
  λ h.
      let (here, there) = append-nil_parts (evidence_violations known c) _ h in
      ((evidence_violations_iff known c).0 here, (each_evidence_iff known cs).0 there),
  λ (here, there).
      rw ((evidence_violations_iff known c).1 here, (each_evidence_iff known cs).1 there),
)

execution_violations_iff :
    (c : AcceptanceCriterion) (e : CommandExecution)
    → (execution_violations c (some e) ≡ []) ↔ Succeeds c e
unfolding execution_violations
execution_violations_iff c e =
    let codes = is_empty_iff c.verification.expected_exit_codes in
    (λ h. ground (arith, codes), λ h. ground (arith, codes, h))

execution_violations-found :
    (c : AcceptanceCriterion) (o : Option CommandExecution)
    → execution_violations c o ≡ []
    → (e : CommandExecution) × (o ≡ some e) × Succeeds c e
unfolding execution_violations
execution_violations-found c none h = cc
execution_violations-found c (some e) h = (e, refl, (execution_violations_iff c e).0 h)

criterion_violations_iff :
    (executions : List CommandExecution) (c : AcceptanceCriterion)
    → (criterion_violations executions c ≡ []) ↔ IsExecuted executions c
unfolding criterion_violations
criterion_violations_iff executions c = (
  λ h is_cmd.
      execution_violations-found c (execution_by_id executions c.verification.command_id)
        (ground arith),
  λ h. elim (Bool-cases (is_command c.verification.method)) [
    | inr other ↦ rw other
    | inl same ↦
        let (e, found, good) = h (ground arith) in
        rw (same, found) ((execution_violations_iff c e).1 good)
  ],
)

each_criterion_iff :
    (executions : List CommandExecution) (cs : List AcceptanceCriterion)
    → (each_criterion executions cs ≡ []) ↔ All (IsExecuted executions) cs
unfolding each_criterion
each_criterion_iff executions [] = (λ h. tt, λ h. refl)
each_criterion_iff executions (c ∷ cs) = (
  λ h.
      let (here, there) = append-nil_parts (criterion_violations executions c) _ h in
      ((criterion_violations_iff executions c).0 here, (each_criterion_iff executions cs).0 there),
  λ (here, there).
      rw (
        (criterion_violations_iff executions c).1 here,
        (each_criterion_iff executions cs).1 there,
      ),
)

map-nil {ℓ κ} : {A : Type ℓ} {B : Type κ} (f : A → B) (xs : List A) → (map f xs ≡ []) ↔ (xs ≡ [])
map-nil f xs = ground arith

module _ (contract : TaskContract) (frozen : FrozenValidationResult)
    (result : VerificationResult) where
  violations_of-nil :
      violations_of contract result frozen ≡ []
      → result.decision ≡ VerificationDecision.pass
      → IsAccepted contract frozen result
  unfolding violations_of find_missing_evidence_violations find_check_execution_violations
  violations_of-nil h claimed =
      let (a, h₁) =
        append-nil_parts
          (map CheckViolation.pass_invariant (find_pass_invariant_violations contract result)) _
          h in
      let (b, h₂) =
        append-nil_parts (each_evidence (known_evidence_ids frozen) result.criteria) _ h₁ in
      let (c, h₃) =
        append-nil_parts (map CheckViolation.scope_check frozen.scope_violations) _ h₂ in
      let (d, e) =
        append-nil_parts (each_criterion frozen.check_executions contract.acceptance_criteria) _
          h₃ in
      record {
        claimed = claimed;
        valid =
            (find_pass_invariant_violations_iff contract result).0
              ((map-nil CheckViolation.pass_invariant _).0 a);
        cited = (each_evidence_iff (known_evidence_ids frozen) result.criteria).0 b;
        in_scope = (map-nil CheckViolation.scope_check frozen.scope_violations).0 c;
        executed = (each_criterion_iff frozen.check_executions contract.acceptance_criteria).0 d;
        clean = ground (arith, e, is_empty_iff frozen.test_side_effects);
      }

  violations_of-IsAccepted :
      IsAccepted contract frozen result → violations_of contract result frozen ≡ []
  unfolding violations_of find_missing_evidence_violations find_check_execution_violations
  violations_of-IsAccepted a = rw (
    (find_pass_invariant_violations_iff contract result).1 a.valid,
    (each_evidence_iff (known_evidence_ids frozen) result.criteria).1 a.cited,
    a.in_scope,
    (each_criterion_iff frozen.check_executions contract.acceptance_criteria).1 a.executed,
    a.clean,
  )

  pub accepted_decision-IsAccepted :
      (usage : Option UsageRecord)
      → ((verified_verification contract frozen result usage).accepted_decision
          ≡ VerificationDecision.pass)
        ↔ IsAccepted contract frozen result
  unfolding verified_verification
  accepted_decision-IsAccepted usage =
      let found = is_empty_iff (violations_of contract result frozen) in
      (
        λ h. violations_of-nil (ground (arith, found)) (ground arith),
        λ a. rw (violations_of-IsAccepted a, a.claimed),
      )

  -- A decision other than PASS is accepted as it is, and a PASS only as PASS or MANUAL_REVIEW.
  pub accepted_decision-cases :
      (usage : Option UsageRecord)
      → ((verified_verification contract frozen result usage).accepted_decision ≡ result.decision)
        ⊎ ((result.decision ≡ VerificationDecision.pass)
            × ((verified_verification contract frozen result usage).accepted_decision
                ≡ VerificationDecision.manual_review))
  unfolding verified_verification
  accepted_decision-cases usage = ground arith
