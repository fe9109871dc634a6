-- ===== src/Rework/Guards.antt =====
-- The guards of a rework: src/agent_harness/application/rework.py.
use harness_system.Prelude.{
  ℕ, ◌+◌, String, ◌≡◌, refl, ◌⊎◌, inl, inr, ◌↔◌, ◌≢◌, Bool, true, false, not, List, [], ◌∷◌, Option,
  none, some, arith, ◌≤◌, all, is_empty, member, string_eq, Bool-cases, is_empty_iff, all-member,
  all_of_members, ◌==◌, eqb, ◌||◌,
}
use harness_system.Exceptions.{validation_error, ok, raised}
use harness_system.Domain.Enums.{VerificationDecision, VerificationMethod}
use harness_system.Domain.Models.{RequiredFix, ReworkContract, TaskContract, VerificationResult}
use harness_system.Domain.Digests.{Digests, rework_contract_digest}
use harness_system.Domain.Validation.{is_scope_subset, assert_rework_scope_is_subset}
use harness_system.Rework.{
  failed_criteria_ids_of, detect_no_progress, required_fixes_from, verification_method_of,
  ReworkRequest, scope_or, draft_rework_contract, check_rework_contract, build_rework_contract,
}

-- No progress is reported exactly for two attempts with the same failed criteria, at least one.
pub detect_no_progress_iff :
    (previous : Option (List String)) (current : List String)
    → (detect_no_progress previous current ≡ true) ↔ (
        (ids : List String) × (previous ≡ some ids)
        × (current ≢ [])
        × ((a : String) → (member a current ≡ true) ↔ (member a ids ≡ true)))
unfolding detect_no_progress
detect_no_progress_iff none current = (λ h. cc, λ (ids, absent, fails, alike). cc)
detect_no_progress_iff (some ids) current = (
  λ h. (
    ids,
    refl,
    (λ e. ground (arith, is_empty_iff current)),
    (λ a. (
      λ m. all-member (λ x. member x ids) current a (ground arith) m,
      λ m. all-member (λ x. member x current) ids a (ground arith) m,
    )),
  ),
  λ (others, same, some_fail, alike).
      let e : ids ≡ others = ground (arith, same) in
      rw e (
        ground (
          arith,
          is_empty_iff current,
          all_of_members (λ x. member x others) current (λ a m. (alike a).0 m),
          all_of_members (λ x. member x current) others (λ a m. (alike a).1 m),
        )),
)

-- The fixes with the numbers from the index on.
unfoldable pub fixes_of : List String → VerificationMethod → ℕ → List String → List RequiredFix
fixes_of rules method index [] = []
fixes_of rules method index (t ∷ more) =
    record {
      id = index + 1;
      description = t;
      allowed_path_rules = rules;
      verification_method = method;
      required_evidence = [];
    }
    ∷ fixes_of rules method (index + 1) more

abbrev pub are_described : List String → Bool
are_described texts = all (λ t. not (t == "")) texts

required_fixes_from-cases :
    (rules : List String) (method : VerificationMethod) (index : ℕ) (texts : List String)
    → ((are_described texts ≡ true)
        × (required_fixes_from rules method index texts ≡ ok (fixes_of rules method index texts)))
      ⊎ (required_fixes_from rules method index texts ≡ raised validation_error)
unfolding required_fixes_from fixes_of
required_fixes_from-cases rules method index [] = inl (refl, refl)
required_fixes_from-cases rules method index (t ∷ more) = elim (Bool-cases (t == "")) [
  | inl blank ↦ rw blank (inr refl)
  | inr plain ↦ elim (required_fixes_from-cases rules method (index + 1) more) [
    | inl (described, made) ↦ rw (plain, made) (inl (described, refl))
    | inr bad ↦ rw (plain, bad) (inr refl)
  ]
]

required_fixes_from-described :
    (rules : List String) (method : VerificationMethod) (index : ℕ) (texts : List String)
    → are_described texts ≡ true
    → required_fixes_from rules method index texts ≡ ok (fixes_of rules method index texts)
unfolding required_fixes_from fixes_of
required_fixes_from-described rules method index [] h = refl
required_fixes_from-described rules method index (t ∷ more) h =
    let plain : (t == "") ≡ false = ground arith in
    rw (plain, required_fixes_from-described rules method (index + 1) more (ground arith)) refl

is_empty-fixes_of :
    (rules : List String) (method : VerificationMethod) (index : ℕ) (texts : List String)
    → is_empty (fixes_of rules method index texts) ≡ is_empty texts
unfolding fixes_of
is_empty-fixes_of rules method index [] = refl
is_empty-fixes_of rules method index (t ∷ more) = refl

module _ (digests : Digests) (contract : TaskContract) (result : VerificationResult)
    (q : ReworkRequest) where
  -- A rework contract can be built: a REWORK verdict with a failed criterion and with fixes that are
  -- all described, an attempt number from 1 on, and a scope that is a subset of the parent's.
  pub record IsBuildable : Type 0 where
    pub rework : result.decision ≡ VerificationDecision.rework
    pub first : 1 ≤ q.attempt_number
    pub fails : failed_criteria_ids_of result ≢ []
    pub fixable : result.required_fixes ≢ []
    pub described : are_described result.required_fixes ≡ true
    pub narrow : is_scope_subset (scope_or q.effective_scope contract.scope) contract.scope ≡ true

  abbrev pub draft : ReworkContract
  draft = draft_rework_contract contract result q (
      fixes_of contract.scope.allowed_path_rules
        (verification_method_of contract.acceptance_criteria (failed_criteria_ids_of result)) 0
        result.required_fixes)

  -- The contract that is built, with its digest.
  abbrev pub bound : ReworkContract
  bound = record draft { integrity_digest = rework_contract_digest digests draft }

  -- A rework contract is built exactly under these conditions, and it is the one bound to the parent
  -- contract and to the verification.
  pub build_rework_contract_iff :
      (c : ReworkContract)
      → (build_rework_contract digests contract result q ≡ ok c) ↔ (IsBuildable × (c ≡ bound))
  unfolding build_rework_contract draft_rework_contract check_rework_contract
      assert_rework_scope_is_subset
  build_rework_contract_iff c =
      let rules = contract.scope.allowed_path_rules in
      let method =
        verification_method_of contract.acceptance_criteria (failed_criteria_ids_of result) in
      let made = required_fixes_from-cases rules method 0 result.required_fixes in
      let count = is_empty-fixes_of rules method 0 result.required_fixes in
      let ids = is_empty_iff (failed_criteria_ids_of result) in
      let texts = is_empty_iff result.required_fixes in
      (
        λ h. elim made [
          | inr bad ↦ ground (arith, bad)
          | inl (described, done) ↦ (
            record {
              rework = ground arith;
              first = ground arith;
              fails = λ e. ground (arith, ids);
              fixable = λ e. ground (arith, texts);
              described = described;
              narrow = ground arith;
            },
            ground arith,
          )
        ],
        λ (b, same).
            rw (required_fixes_from-described rules method 0 result.required_fixes b.described)
              (ground (arith, ids, texts, b.rework, b.first, b.fails, b.fixable, b.narrow)),
      )

  -- For a REWORK verdict and a scope within the parent's, only malformed fields are refused.
  pub build_rework_contract-refusal :
      result.decision ≡ VerificationDecision.rework
      → is_scope_subset (scope_or q.effective_scope contract.scope) contract.scope ≡ true
      → ((c : ReworkContract) × (build_rework_contract digests contract result q ≡ ok c))
        ⊎ (build_rework_contract digests contract result q ≡ raised validation_error)
  unfolding build_rework_contract draft_rework_contract check_rework_contract
      assert_rework_scope_is_subset
  build_rework_contract-refusal decided narrow =
      let rules = contract.scope.allowed_path_rules in
      let method =
        verification_method_of contract.acceptance_criteria (failed_criteria_ids_of result) in
      elim (required_fixes_from-cases rules method 0 result.required_fixes) [
        | inr bad ↦ inr (ground (arith, bad, decided))
        | inl (described, made) ↦
            elim (Bool-cases (
              eqb q.attempt_number 0
              || (is_empty (failed_criteria_ids_of result)
                  || is_empty (fixes_of rules method 0 result.required_fixes)))) [
                    | inl bad ↦ inr (ground (arith, made, bad, decided))
                    | inr good ↦ inl (bound, ground (arith, made, good, decided, narrow))
                  ]
      ]
