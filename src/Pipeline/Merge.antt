-- ===== src/Pipeline/Merge.antt =====
-- The union of two requests for capabilities: `_merge_requested_capabilities` of
-- src/agent_harness/application/orchestrator.py.
use harness_system.Prelude.{
  ◌≤◌, String, ◌≡◌, refl, ◌∙◌, ◌⊎◌, ◌||◌, List, ◌++◌, arith, member, union, member-append,
  member-sorted_set, string_eq,
}
use harness_system.Domain.Models.{RequestedCapabilities}
use harness_system.Pipeline.Gate.{access_rank, merge_requested_capabilities}

-- Every item of the list is an item of one of the two, and the other way round.
abbrev pub Unites : List String → List String → List String → Type 0
Unites xs ys zs = (a : String) → member a zs ≡ (member a xs || member a ys)

-- The least request that asks for all that the two ask for.
pub record IsUnion (base additional merged : RequestedCapabilities) : Type 0 where
  pub base_access : access_rank base.workspace_access ≤ access_rank merged.workspace_access
  pub additional_access :
      access_rank additional.workspace_access ≤ access_rank merged.workspace_access
  pub least_access :
      (merged.workspace_access ≡ base.workspace_access)
      ⊎ (merged.workspace_access ≡ additional.workspace_access)
  pub command_ids : Unites base.command_ids additional.command_ids merged.command_ids
  pub raw_shell : merged.raw_shell ≡ (base.raw_shell || additional.raw_shell)
  pub network_domains :
      Unites base.network_domains additional.network_domains merged.network_domains
  pub package_install :
      merged.package_install ≡ (base.package_install || additional.package_install)
  pub external_systems :
      Unites base.external_systems additional.external_systems merged.external_systems
  pub mcp_tools : Unites base.mcp_tools additional.mcp_tools merged.mcp_tools
  pub database_targets :
      Unites base.database_targets additional.database_targets merged.database_targets

union-Unites : (xs ys : List String) → Unites xs ys (union xs ys)
union-Unites xs ys a = member-sorted_set a (xs ++ ys) ∙ member-append a xs ys

-- The merged request asks for an item exactly if one of the two requests does, and for the higher of
-- the two accesses to the workspace.
pub merge_requested_capabilities-IsUnion :
    (base additional : RequestedCapabilities)
    → IsUnion base additional (merge_requested_capabilities base additional)
unfolding merge_requested_capabilities
merge_requested_capabilities-IsUnion base additional = record {
  base_access = ground arith;
  additional_access = ground arith;
  least_access = ground arith;
  command_ids = union-Unites base.command_ids additional.command_ids;
  raw_shell = refl;
  network_domains = union-Unites base.network_domains additional.network_domains;
  package_install = refl;
  external_systems = union-Unites base.external_systems additional.external_systems;
  mcp_tools = union-Unites base.mcp_tools additional.mcp_tools;
  database_targets = union-Unites base.database_targets additional.database_targets;
}
