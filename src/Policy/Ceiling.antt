-- ===== src/Policy/Ceiling.antt =====
-- The grants of a decision never exceed the ceiling, nor the request
-- (src/agent_harness/policy/evaluator.py, policy/paths.py, policy/commands.py).
use harness_system.Prelude.{
  ℕ, String, ◌≡◌, true, not, ◌&&◌, Option, arith, string_eq, member, intersection_subset,
  union_superset, is_empty,
}
use harness_system.Exceptions.{ok}
use harness_system.Domain.Models.{PolicyCeiling, PolicyDecision, ScopeRules}
use harness_system.Domain.Digests.{Digests, policy_decision_digest}
use harness_system.Domain.Validation.{ceiling_not_raised, is_scope_subset}
use harness_system.Policy.{
  PolicyRequest, min_optional, intersect_scope, hard_denied_network_domains, draft_decision,
  outcome_of, evaluate_policy,
}

min_optional_le :
    (a b : Option ℕ)
    → (ceiling_not_raised (min_optional a b) a ≡ true)
      × (ceiling_not_raised (min_optional a b) b ≡ true)
unfolding ceiling_not_raised min_optional
min_optional_le a b = ground arith

-- The effective scope is contained in the requested one and in the ceiling.
pub intersect_scope-is_scope_subset :
    (requested ceiling : ScopeRules)
    → (is_scope_subset (intersect_scope requested ceiling) requested ≡ true)
      × (is_scope_subset (intersect_scope requested ceiling) ceiling ≡ true)
unfolding is_scope_subset intersect_scope
intersect_scope-is_scope_subset r c =
    let (allowed_left, allowed_right) =
      intersection_subset r.allowed_path_rules c.allowed_path_rules in
    let (forbidden_left, forbidden_right) =
      union_superset r.forbidden_path_rules c.forbidden_path_rules in
    let (files_left, files_right) = min_optional_le r.max_changed_files c.max_changed_files in
    let (bytes_left, bytes_right) = min_optional_le r.max_changed_bytes c.max_changed_bytes in
    (ground arith, ground arith)

-- What a decision's grants are, member by member, for a request and a ceiling.
pub record AreWithin (d : PolicyDecision) (q : PolicyRequest) (ceiling : PolicyCeiling)
    : Type 0 where
  pub scope_requested : is_scope_subset d.grants.path_rules q.requested_scope ≡ true
  pub scope_allowed : is_scope_subset d.grants.path_rules ceiling.workspace_scope ≡ true
  pub commands :
      (a : String)
      → member a d.grants.command_ids
        ≡ (member a ceiling.allowed_command_ids && member a q.requested_capabilities.command_ids)
  pub network :
      (a : String)
      → member a d.grants.network_rules ≡ (
          member a ceiling.allowed_network_domains
          && (not (member a hard_denied_network_domains)
              && member a q.requested_capabilities.network_domains))
  pub tools :
      (a : String)
      → member a d.grants.mcp_tools
        ≡ (member a ceiling.allowed_mcp_tools && member a q.requested_capabilities.mcp_tools)
  pub systems :
      (a : String)
      → member a d.grants.external_targets ≡ (
          member a ceiling.allowed_external_systems
          && member a q.requested_capabilities.external_systems)
  pub packages :
      is_empty d.grants.package_rules
      ≡ not (q.requested_capabilities.package_install && ceiling.package_install_allowed)
  pub budgets : d.grants.budgets ≡ ceiling.budget_ceiling
  pub sandbox : d.grants.sandbox_profile ≡ ceiling.sandbox_profile

module _ (digests : Digests) (q : PolicyRequest) (ceiling : PolicyCeiling) where
  -- The draft, with its digest.
  abbrev pub sealed : PolicyDecision
  sealed =
      let draft = draft_decision q ceiling in
      record draft { integrity_digest = policy_decision_digest digests draft }

  -- The validator of `PolicyDecision` never refuses what the evaluator builds.
  pub evaluate_policy-total : evaluate_policy digests q ceiling ≡ ok sealed
  unfolding evaluate_policy draft_decision outcome_of
  evaluate_policy-total = ground arith
