-- ===== src/Policy/Outcome.antt =====
-- The outcome of `evaluate_policy` (src/agent_harness/policy/evaluator.py), told from the request and
-- the ceiling alone.
use harness_system.Prelude.{
  ◌≡◌, refl, ◌∙◌, Bool, true, not, ◌&&◌, ◌||◌, arith, any, all, is_empty, member, is_subset,
  string_eq, is_empty-append, is_empty-intersection, is_empty-difference,
  is_empty-intersection_subset, is_subset-difference, is_empty-difference_disjoint, if◌then◌else◌,
  Bool-cases, inl, inr,
}
use harness_system.Exceptions.{ok}
use harness_system.Domain.Enums.{PolicyOutcome}
use harness_system.Domain.Models.{PolicyCeiling, PolicyDecision, RequestedCapabilities}
use harness_system.Domain.Digests.{Digests}
use harness_system.Policy.{
  PolicyRequest, hard_denied_network_domains, flagged, grantable_domains, granted_network_domains,
  package_install_granted, rejected_command_ids, denials_of, gated_of, outcome_of, draft_decision,
  evaluate_policy,
}
use harness_system.Policy.Ceiling.{sealed, evaluate_policy-total}

is_empty-flagged {ℓ} : {A : Type ℓ} (a : A) (test : Bool) → is_empty (flagged a test) ≡ not test
is_empty-flagged a test = ground arith

-- Something is requested that needs an approval; commands do not.
unfoldable pub asks_gated : RequestedCapabilities → Bool
asks_gated requested =
    not (is_empty requested.network_domains)
    || (requested.package_install
        || (requested.raw_shell
            || (not (is_empty requested.mcp_tools)
                || (not (is_empty requested.external_systems)
                    || not (is_empty requested.database_targets)))))

module _ (requested : RequestedCapabilities) (ceiling : PolicyCeiling) where
  -- Everything that is requested is permitted: no hard denied domain, and nothing that the ceiling does
  -- not list or allow.
  unfoldable pub permitted : Bool
  permitted =
      not (any (λ d. member d hard_denied_network_domains) requested.network_domains)
      && (all
            (λ d. member d hard_denied_network_domains || member d ceiling.allowed_network_domains)
            requested.network_domains
          && (is_subset requested.command_ids ceiling.allowed_command_ids
              && (is_subset requested.mcp_tools ceiling.allowed_mcp_tools
                  && (is_subset requested.external_systems ceiling.allowed_external_systems
                      && (is_subset requested.database_targets ceiling.allowed_database_targets
                          && (not (requested.raw_shell && not ceiling.raw_shell_allowed)
                              && not (
                                  requested.package_install
                                  && not ceiling.package_install_allowed)))))))

  denials-permitted : is_empty (denials_of requested ceiling) ≡ permitted
  unfolding denials_of permitted rejected_command_ids grantable_domains
  denials-permitted =
      simp
        (
          is_empty-append, is_empty-flagged, is_empty-intersection, is_empty-difference,
          is_subset-difference,
        )
        (ground arith)

  network-asked :
      permitted ≡ true
      → is_empty (granted_network_domains requested ceiling) ≡ is_empty requested.network_domains
  unfolding permitted granted_network_domains grantable_domains
  network-asked h =
      let listed_only =
        is_subset-difference requested.network_domains hard_denied_network_domains
          ceiling.allowed_network_domains
        ∙ ground arith in
      is_empty-intersection_subset _ ceiling.allowed_network_domains listed_only
      ∙ is_empty-difference_disjoint requested.network_domains hard_denied_network_domains
          (ground arith)

  gated-asks : permitted ≡ true → is_empty (gated_of requested ceiling) ≡ not (asks_gated requested)
  unfolding gated_of permitted package_install_granted asks_gated
  gated-asks h =
      simp (is_empty-append, is_empty-flagged)
        (ground (
          arith,
          network-asked h,
          is_empty-intersection_subset requested.mcp_tools ceiling.allowed_mcp_tools,
          is_empty-intersection_subset requested.external_systems ceiling.allowed_external_systems,
          is_empty-intersection_subset requested.database_targets ceiling.allowed_database_targets,
        ))

module _ (digests : Digests) (q : PolicyRequest) (ceiling : PolicyCeiling) where
  -- The evaluation of any request returns a decision, and its outcome is told by the request and the
  -- ceiling alone: DENY when anything requested is not permitted, otherwise REQUIRE_APPROVAL when a
  -- network domain, a package installation, a raw shell, an MCP tool, an external system or a database
  -- is requested, otherwise ALLOW; never MANUAL_REVIEW.
  pub evaluate_policy-outcome :
      (d : PolicyDecision) × ((evaluate_policy digests q ceiling ≡ ok d)
        × (d.outcome ≡ (
            if permitted q.requested_capabilities ceiling
            then (if asks_gated q.requested_capabilities
                then PolicyOutcome.require_approval
                else PolicyOutcome.allow)
            else PolicyOutcome.deny)))
  unfolding draft_decision outcome_of
  evaluate_policy-outcome = (
    sealed digests q ceiling,
    (
      evaluate_policy-total digests q ceiling,
      rw (denials-permitted q.requested_capabilities ceiling)
          (elim (Bool-cases (permitted q.requested_capabilities ceiling)) [
            | inl granted ↦
                rw granted (rw (gated-asks q.requested_capabilities ceiling granted) (ground arith))
            | inr refused ↦ rw refused refl
          ]),
    ),
  )
