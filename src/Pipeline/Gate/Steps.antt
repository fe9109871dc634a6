-- ===== src/Pipeline/Gate/Steps.antt =====
-- `_fail`, `_advance` and the helpers on capabilities of
-- src/agent_harness/application/orchestrator.py.
use harness_system.Prelude.{
  ℕ, String, false, ◌||◌, List, [], ◌∷◌, Option, none, some, ltb, if◌then◌else◌, union,
}
use harness_system.Domain.Enums.{
  ActorType, FailureCategory, FailureCode, PendingActionKind, WorkspaceAccessLevel,
}
use harness_system.Domain.Lifecycle.{LifecycleState}
use harness_system.Domain.Models.{
  FailureRecord, PendingAction, PolicyGrants, RequestedCapabilities, Run,
}
use harness_system.Store.{Request, apply_transition}
use harness_system.Pipeline.Exec.{M, pure, give, ◌>>=◌, draw, transact}
use harness_system.Pipeline.Deps.{PipelineDeps, Message}

-- `_ACCESS_RANK`
abbrev pub access_rank : WorkspaceAccessLevel → ℕ
access_rank WorkspaceAccessLevel.none = 0
access_rank WorkspaceAccessLevel.read = 1
access_rank WorkspaceAccessLevel.read_write = 2

-- `_merge_requested_capabilities`; `max` keeps its first argument when both have one rank.
unfoldable pub merge_requested_capabilities :
    RequestedCapabilities → RequestedCapabilities → RequestedCapabilities
merge_requested_capabilities base additional = record {
  workspace_access =
      if ltb (access_rank base.workspace_access) (access_rank additional.workspace_access)
      then additional.workspace_access
      else base.workspace_access;
  command_ids = union base.command_ids additional.command_ids;
  raw_shell = base.raw_shell || additional.raw_shell;
  network_domains = union base.network_domains additional.network_domains;
  package_install = base.package_install || additional.package_install;
  external_systems = union base.external_systems additional.external_systems;
  mcp_tools = union base.mcp_tools additional.mcp_tools;
  database_targets = union base.database_targets additional.database_targets;
}

-- `_WORKSPACE_ACCESS_CLAUDE_TOOL_IDS`
abbrev pub workspace_access_claude_tool_ids : WorkspaceAccessLevel → List String
workspace_access_claude_tool_ids WorkspaceAccessLevel.none = []
workspace_access_claude_tool_ids WorkspaceAccessLevel.read = "Read" ∷ "Glob" ∷ "Grep" ∷ []
workspace_access_claude_tool_ids WorkspaceAccessLevel.read_write =
    "Read" ∷ "Write" ∷ "Edit" ∷ "Glob" ∷ "Grep" ∷ []

unfoldable pub claude_tool_ids_for : PolicyGrants → List String
claude_tool_ids_for grants = workspace_access_claude_tool_ids grants.workspace_access

-- The arguments of `_fail` that vary.
pub record Failing : Type 0 where
  pub stage : String
  pub code : FailureCode
  pub category : FailureCategory
  pub detail : Message

module _ (deps : PipelineDeps) where
  unfoldable pub failure_of : Run → Failing → String → ℕ → FailureRecord
  failure_of run f failure_id now = record {
    failure_id = failure_id;
    run_id = run.run_id;
    task_id = none;
    stage = f.stage;
    code = f.code;
    category = f.category;
    retriable = false;
    sanitized_detail = deps.render f.detail;
    artifact_refs = [];
    occurred_at = now;
  }

  -- The call of `apply_transition` that `_fail` and `_advance` make.
  unfoldable pub orchestrator_request :
      Run
      → LifecycleState
      → String
      → Option FailureRecord
      → Option PendingAction
      → ℕ
      → String
      → Request
  orchestrator_request run target correlation_id failure pending_action now journal_entry_id =
      record {
        run_id = run.run_id;
        target = target;
        now = now;
        expected_state_version = run.state_version;
        actor_type = ActorType.harness;
        actor_id = "orchestrator";
        correlation_id = correlation_id;
        event_type = none;
        failure = failure;
        pending_action = pending_action;
        journal_entry_id = journal_entry_id;
      }

  unfoldable pub move :
      Run → LifecycleState → String → Option FailureRecord → Option PendingAction → M Run
  unfolding orchestrator_request
  move run target correlation_id failure pending_action = do
    now ← draw deps.utc_now
    journal_entry_id ← draw deps.new_id
    outcome ← transact (
        apply_transition deps.digests (
          orchestrator_request run target correlation_id failure pending_action now
            journal_entry_id))
    pure outcome.run

  -- `_fail`
  unfoldable pub fail : Run → String → Failing → M Run
  unfolding move failure_of
  fail run correlation_id f = do
    occurred_at ← draw deps.utc_now
    failure_id ← draw deps.new_id
    move run LifecycleState.failed correlation_id (some (failure_of run f failure_id occurred_at))
        none

  -- `return _fail(...)`
  unfoldable pub return_failed : {A : Type 0} → Run → String → Failing → M A
  unfolding fail
  return_failed run correlation_id f = do failed ← fail run correlation_id f; give failed

  -- `_advance` to a state that waits for nobody.
  unfoldable pub advance : Run → LifecycleState → String → M Run
  unfolding move
  advance run target correlation_id = move run target correlation_id none none

  -- `_advance` to a state that waits for somebody.
  unfoldable pub advance_pending :
      Run → LifecycleState → String → PendingActionKind → Message → M Run
  unfolding move
  advance_pending run target correlation_id kind description = do
    requested_at ← draw deps.utc_now
    move run target correlation_id none (
        some (record {
          kind = kind;
          description = deps.render description;
          requested_at = requested_at;
        }))
