-- ===== src/Domain/Validation/Pass.antt =====
-- When `find_pass_invariant_violations` (src/agent_harness/domain/validation.py) finds nothing.
use harness_system.Prelude.{
  String, ◌≡◌, refl, ◌⊎◌, inl, inr, ◌↔◌, ◌≢◌, true, false, List, [], ◌∷◌, Option, none, some, arith,
  member, ==_iff, ==_refl, ◌==◌, string_eq, Bool-cases, All, append-nil_parts,
}
use harness_system.Domain.Enums.{CriterionResult}
use harness_system.Domain.Models.{CriterionVerification, Finding, TaskContract, VerificationResult}
use harness_system.Domain.Validation.{
  is_given, criterion_by_id, mandatory_ids, mandatory_violations, result_violations, each_mandatory,
  unverified_violations, is_unresolved, finding_violations, find_pass_invariant_violations,
}

-- The result counts as a pass: PASS, or WAIVED with the reference of an approval.
abbrev pub IsSettled : CriterionVerification → Type 0
IsSettled v =
    (v.result ≡ CriterionResult.pass)
    ⊎ ((v.result ≡ CriterionResult.waived) × (is_given v.waiver_approval_ref ≡ true))

-- What a PASS needs: a settled result for each mandatory criterion, no result left unverified, no
-- finding of severity BLOCKER or HIGH, and no scope violation.
pub record IsValidPass (contract : TaskContract) (result : VerificationResult) : Type 0 where
  pub settled :
      (id : String)
      → member id (mandatory_ids contract) ≡ true
      → (v : CriterionVerification) × (criterion_by_id result.criteria id ≡ some v) × IsSettled v
  pub verified :
      All (λ (c : CriterionVerification). c.result ≢ CriterionResult.not_verified) result.criteria
  pub resolved : All (λ (f : Finding). is_unresolved f.severity ≡ false) result.security_findings
  pub in_scope : result.scope_violations ≡ []

result_violations-IsSettled :
    (id : String) (v : CriterionVerification) → (result_violations id v.result v ≡ []) ↔ IsSettled v
unfolding result_violations
result_violations-IsSettled id v = ground arith

mandatory_violations-IsSettled :
    (id : String) (o : Option CriterionVerification)
    → mandatory_violations id o ≡ []
    → (v : CriterionVerification) × (o ≡ some v) × IsSettled v
unfolding mandatory_violations
mandatory_violations-IsSettled id none h = cc
mandatory_violations-IsSettled id (some v) h = (v, refl, (result_violations-IsSettled id v).0 h)

mandatory_violations_of_IsSettled :
    (id : String) (o : Option CriterionVerification) (v : CriterionVerification)
    → o ≡ some v
    → IsSettled v
    → mandatory_violations id o ≡ []
unfolding mandatory_violations
mandatory_violations_of_IsSettled id o v e h = rw e ((result_violations-IsSettled id v).1 h)

module _ (criteria : List CriterionVerification) where
  each_mandatory-IsSettled :
      (ids : List String)
      → each_mandatory criteria ids ≡ []
      → (id : String) → member id ids ≡ true
      → (v : CriterionVerification) × (criterion_by_id criteria id ≡ some v) × IsSettled v
  unfolding each_mandatory
  each_mandatory-IsSettled [] h id m = cc
  each_mandatory-IsSettled (x ∷ xs) h id m =
      let (here, there) =
        append-nil_parts (mandatory_violations x (criterion_by_id criteria x)) _ h in
      elim (Bool-cases (id == x)) [
        | inl same ↦
            rw ((==_iff id x).0 same)
              (mandatory_violations-IsSettled x (criterion_by_id criteria x) here)
        | inr other ↦ each_mandatory-IsSettled xs there id (ground arith)
      ]

  each_mandatory_of_IsSettled :
      (ids : List String)
      → ((id : String)
          → member id ids ≡ true
          → (v : CriterionVerification) × (criterion_by_id criteria id ≡ some v) × IsSettled v)
      → each_mandatory criteria ids ≡ []
  unfolding each_mandatory
  each_mandatory_of_IsSettled [] h = refl
  each_mandatory_of_IsSettled (x ∷ xs) h =
      let (v, found, settled) = h x (rw (==_refl x)) in
      rw (mandatory_violations_of_IsSettled x (criterion_by_id criteria x) v found settled)
        (each_mandatory_of_IsSettled xs (λ id m. h id (ground arith)))

unverified_violations_iff :
    (cs : List CriterionVerification)
    → (unverified_violations cs ≡ [])
      ↔ All (λ (c : CriterionVerification). c.result ≢ CriterionResult.not_verified) cs
unfolding unverified_violations
unverified_violations_iff [] = (λ h. tt, λ h. refl)
unverified_violations_iff (c ∷ cs) = (
  λ h. (ground arith, (unverified_violations_iff cs).0 (ground arith)),
  λ h. ground (arith, h.0, (unverified_violations_iff cs).1 h.1),
)

finding_violations_iff :
    (fs : List Finding)
    → (finding_violations fs ≡ []) ↔ All (λ (f : Finding). is_unresolved f.severity ≡ false) fs
unfolding finding_violations
finding_violations_iff [] = (λ h. tt, λ h. refl)
finding_violations_iff (f ∷ fs) = (
  λ h. (ground arith, (finding_violations_iff fs).0 (ground arith)),
  λ h. ground (arith, h.0, (finding_violations_iff fs).1 h.1),
)

-- The list is empty exactly when the result is a valid PASS for the contract.
pub find_pass_invariant_violations_iff :
    (contract : TaskContract) (result : VerificationResult)
    → (find_pass_invariant_violations contract result ≡ []) ↔ IsValidPass contract result
unfolding find_pass_invariant_violations
find_pass_invariant_violations_iff contract result = (
  λ h.
      let (a, h₁) =
        append-nil_parts (each_mandatory result.criteria (mandatory_ids contract)) _ h in
      let (b, h₂) = append-nil_parts (unverified_violations result.criteria) _ h₁ in
      let (c, d) = append-nil_parts (finding_violations result.security_findings) _ h₂ in
      record {
        settled = each_mandatory-IsSettled result.criteria (mandatory_ids contract) a;
        verified = (unverified_violations_iff result.criteria).0 b;
        resolved = (finding_violations_iff result.security_findings).0 c;
        in_scope = ground (arith, d);
      },
  λ p. rw (
    each_mandatory_of_IsSettled result.criteria (mandatory_ids contract) p.settled,
    (unverified_violations_iff result.criteria).1 p.verified,
    (finding_violations_iff result.security_findings).1 p.resolved,
    p.in_scope,
  ),
)
