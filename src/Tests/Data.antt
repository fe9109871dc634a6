-- ===== src/Tests/Data.antt =====
-- Concrete values of the records of src/agent_harness/domain/models.py.
use Prim.Native.String.{[] as end, ◌∷◌ as char}
use Prim.Native.Char.{code}
use harness_system.Prelude.{String, Bool, List, eqb, ◌&&◌, true, false, [], ◌∷◌, none, some, pos}
use harness_system.Domain.Enums.{
  ActorType, CriterionResult, SubjectType, VerificationDecision, VerificationMethod,
  WorkspaceAccessLevel, ArtifactMediaKind, RedactionStatus, EvidenceTrustTier,
}
use harness_system.Domain.Lifecycle.{LifecycleState}
use harness_system.Domain.Models.{
  AcceptanceCriterion, Artifact, BudgetRequest, BudgetUsage, EvidenceRecord, PolicyCeiling,
  RequestedCapabilities, Run, ScopeRules, TaskContract, UsageRecord, VerificationResult,
}
use harness_system.Domain.Digests.{Digests}
use harness_system.Store.{Store, Request, empty}
use harness_system.Policy.{PolicyRequest}
use harness_system.Execution.Manifest.{ManifestEntry, ManifestDiff}
use harness_system.Execution.ScopeGuard.{RegexPart, escaped}
use harness_system.Execution.Frozen.{CommandRun, FrozenValidationResult, ProcessResult}

-- A matcher of expressions without wildcards.
abbrev pub literal : List RegexPart → String → Bool
literal [] end = true
literal (escaped c ∷ parts) (char d text) = eqb (code c) (code d) && literal parts text
literal _ _ = false

-- Digests that tell records apart by their identifiers.
abbrev pub digests : Digests
digests = record {
  journal_entry = λ e. e.journal_entry_id;
  policy_decision = λ d. d.decision_id;
  task_contract = λ c. c.contract_id;
  rework_contract = λ c. c.rework_id;
}

abbrev pub budget : BudgetRequest
budget = record { timeout_seconds = 600; max_turns = 5; max_rework_iterations = 2 }

abbrev pub no_usage : BudgetUsage
no_usage = record { turns_used = 0; tokens_used = 0; cost_used_usd = 0; rework_used = 0 }

abbrev pub overspent : BudgetUsage
overspent = record { turns_used = 6; tokens_used = 10; cost_used_usd = 0; rework_used = 0 }

abbrev pub two_turns : UsageRecord
two_turns = record {
  turns = some 2;
  input_tokens = some 100;
  output_tokens = none;
  estimated_cost_usd = some 1500;
  is_estimate = true;
}

abbrev pub run_1 : Run
run_1 = record {
  run_id = "run-1";
  user_request_ref = "request";
  user_request_digest = "digest";
  repository_id = "repository";
  state = LifecycleState.created;
  state_version = 0;
  budget_limits = budget;
  budget_used = no_usage;
  current_task_id = none;
  disposition = none;
  created_at = 10;
  updated_at = 10;
}

abbrev pub cancelled_run : Run
cancelled_run = record run_1 {
  state = LifecycleState.cancelled;
  disposition = some LifecycleState.cancelled;
}

abbrev pub one_run : Store
one_run = record empty { runs = run_1 ∷ [] }

abbrev pub start_planning : Request
start_planning = record {
  run_id = "run-1";
  target = LifecycleState.planning;
  now = 20;
  expected_state_version = 0;
  actor_type = ActorType.harness;
  actor_id = "orchestrator";
  correlation_id = "run-run-1";
  event_type = none;
  failure = none;
  pending_action = none;
  journal_entry_id = "entry-1";
}

abbrev pub scope : ScopeRules
scope = record {
  allowed_path_rules = "src/a.py" ∷ "src/b.py" ∷ [];
  forbidden_path_rules = ".env" ∷ [];
  allow_new_files = true;
  max_changed_files = some 3;
  max_changed_bytes = none;
  declared_generated_paths = [];
}

abbrev pub narrow_scope : ScopeRules
narrow_scope = record scope { allowed_path_rules = "src/a.py" ∷ []; max_changed_files = some 1 }

abbrev pub capabilities : RequestedCapabilities
capabilities = record {
  workspace_access = WorkspaceAccessLevel.read_write;
  command_ids = "pytest" ∷ [];
  raw_shell = false;
  network_domains = "pypi.org" ∷ [];
  package_install = false;
  external_systems = [];
  mcp_tools = [];
  database_targets = [];
}

abbrev pub ceiling : PolicyCeiling
ceiling = record {
  policy_bundle_id = "bundle";
  policy_bundle_digest = "bundle-digest";
  engine_version = "1";
  workspace_scope = scope;
  allowed_command_ids = "pytest" ∷ "check" ∷ [];
  raw_shell_allowed = false;
  allowed_network_domains = "pypi.org" ∷ [];
  package_install_allowed = false;
  allowed_mcp_tools = [];
  allowed_external_systems = [];
  allowed_database_targets = [];
  sandbox_profile = "workspace_write";
  budget_ceiling = budget;
}

abbrev pub policy_request : PolicyRequest
policy_request = record {
  decision_id = "decision-1";
  subject_type = SubjectType.task_contract;
  subject_id = "contract-1";
  subject_digest = "contract-digest";
  requested_capabilities = capabilities;
  requested_scope = narrow_scope;
  evaluated_at = 30;
}

abbrev pub criterion : AcceptanceCriterion
criterion = record {
  id = "tests-pass";
  description = "the tests pass";
  mandatory = true;
  verification = record {
    method = VerificationMethod.command;
    command_id = some "pytest";
    assertion = none;
    manual_instruction = none;
    expected_exit_codes = pos 0 ∷ [];
    expected_output_match = none;
    required_evidence_kinds = [];
  };
}

abbrev pub contract : TaskContract
contract = record {
  contract_id = "contract-1";
  contract_revision = 1;
  run_id = "run-1";
  task_id = "task-1";
  request_snapshot_ref = "snapshot";
  objective = "fix the bug";
  repository = record {
    repository_id = "repository";
    base_commit_sha = "0";
    target_ref = "HEAD";
    expected_repository_fingerprint = "fingerprint";
  };
  scope = scope;
  constraints = record { typed_constraints = []; notes = none };
  acceptance_criteria = criterion ∷ [];
  requested_capabilities = capabilities;
  budget_request = budget;
  required_evidence = [];
  worker_profile_ref = none;
  risk_hints = [];
  integrity = record { canonical_digest = "contract-digest"; supersedes_contract_id = none };
}

abbrev pub passed : VerificationResult
passed = record {
  verification_id = "verification-1";
  task_id = "task-1";
  contract_digest = "contract-digest";
  result_snapshot_digest = "snapshot-digest";
  evidence_set_digest = "evidence-digest";
  invocation_id = "invocation-1";
  decision = VerificationDecision.pass;
  criteria =
      record {
        id = "tests-pass";
        result = CriterionResult.pass;
        evidence_refs = "evidence-1" ∷ [];
        reason = none;
        waiver_approval_ref = none;
      }
      ∷ [];
  scope_violations = [];
  security_findings = [];
  quality_findings = [];
  required_fixes = [];
  prohibited_changes = [];
  remaining_risks = [];
}

abbrev pub to_rework : VerificationResult
to_rework = record passed {
  decision = VerificationDecision.rework;
  criteria =
      record {
        id = "tests-pass";
        result = CriterionResult.fail;
        evidence_refs = [];
        reason = none;
        waiver_approval_ref = none;
      }
      ∷ [];
  required_fixes = "make the tests pass" ∷ [];
}

abbrev pub evidence : EvidenceRecord
evidence = record {
  evidence_id = "evidence-1";
  run_id = "run-1";
  task_id = "task-1";
  subject_type = SubjectType.command_run;
  subject_id = "command-run-1";
  subject_digest = "digest";
  kind = "command_stdout";
  provenance = record {
    producer_type = ActorType.host_test_runner;
    producer_id = "runner";
    invocation_id = none;
    collection_method = "host";
    trust_tier = EvidenceTrustTier.host_observed;
  };
  artifact_refs = [];
  media_type = "text/plain";
  content_digest = "digest";
  size_bytes = 2;
  created_at = 40;
  redaction_status = RedactionStatus.none;
  truncated = false;
  verification_relevance = [];
}

abbrev pub artifact : Artifact
artifact = record {
  artifact_id = "artifact-1";
  media_type = "application/json";
  media_kind = ArtifactMediaKind.json;
  size_bytes = 2;
  content_digest = "digest";
  storage_uri = "uri";
  compression = none;
  redaction_status = RedactionStatus.none;
  created_at = 40;
}

abbrev pub file_a : ManifestEntry
file_a = record {
  relative_path = "src/a.py";
  file_type = "file";
  mode = 33188;
  size = 10;
  sha256 = some "a";
  symlink_target = none;
}

abbrev pub changed_a : ManifestEntry
changed_a = record file_a { sha256 = some "b"; size = 12 }

abbrev pub changes : ManifestDiff
changes = record { added = []; modified = "src/a.py" ∷ []; deleted = []; unchanged = [] }

abbrev pub command_run : CommandRun
command_run = record {
  command_run_id = "command-run-1";
  command_spec_id = "pytest";
  resolved_argv = "pytest" ∷ [];
  exit_code = some (pos 0);
  signal = none;
  duration_ms = 5;
  stdout_artifact_ref = none;
  stderr_artifact_ref = none;
  pre_manifest_ref = none;
  post_manifest_ref = none;
  started_at = 40;
  completed_at = some 45;
}

abbrev pub process_result : ProcessResult
process_result = record {
  argv = "pytest" ∷ [];
  exit_code = some (pos 0);
  timed_out = false;
  output_cap_exceeded = false;
  duration_ms = 5;
  stdout = [];
  stderr = [];
  stdout_truncated = false;
  stderr_truncated = false;
  started_at = 40;
  completed_at = 45;
}

abbrev pub frozen : FrozenValidationResult
frozen = record {
  baseline_manifest = file_a ∷ [];
  result_manifest = changed_a ∷ [];
  baseline_artifact = artifact;
  result_artifact = artifact;
  manifest_diff = changes;
  test_mutations = [];
  check_executions =
      record {
        command_run = command_run;
        process_result = process_result;
        stdout_artifact = none;
        stderr_artifact = none;
      }
      ∷ [];
  evidence = evidence ∷ [];
  scope_violations = [];
  post_test_manifest = changed_a ∷ [];
  post_test_artifact = none;
  test_side_effects = [];
}
