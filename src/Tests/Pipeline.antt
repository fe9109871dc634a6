-- ===== src/Tests/Pipeline.antt =====
-- A pipeline with concrete answers (src/agent_harness/application/orchestrator.py): every turn
-- succeeds, and the user approves.
use Prim.Native.String.{◌++◌ as append}
use harness_system.Prelude.{
  ℕ, zero, suc, ◌+◌, String, ◌≡◌, refl, Bool, true, false, List, [], ◌∷◌, Option, none, some, ltb,
  if◌then◌else◌,
}
use harness_system.Domain.Enums.{WorkspaceAccessLevel, CriterionResult, ProtocolStatus}
use harness_system.Domain.Lifecycle.{LifecycleState}
use harness_system.Domain.Models.{
  RequestedCapabilities, Run, Task, VerificationResult, WorkspaceLease,
}
use harness_system.Execution.Frozen.{CommandExecution}
use harness_system.Execution.Manifest.{ManifestEntry}
use harness_system.Providers.Protocol.{AgentProvider, AgentRunResult, replied, broken}
use harness_system.Pipeline.Exec.{Event, Step, World, threw}
use harness_system.Pipeline.Deps.{PipelineDeps}
use harness_system.Pipeline.Run.{run_task_pipeline}
use harness_system.Exceptions.{illegal_transition, not_allowed, ok}
use harness_system.Store.{empty, get_run, has_run, insert_run}
use harness_system.Store.Fresh.{HasOneRow}
use harness_system.Store.Journal.{empty-IsConsistent, insert_run-IsConsistent}
use harness_system.Pipeline.Grants.{AllCovered}
use harness_system.Pipeline.Outcome.{Over, run_task_pipeline-AllCovered, run_task_pipeline-Over}
use harness_system.Pipeline.Unresolved.{run_task_pipeline-unresolved}
use harness_system.Pipeline.Gate.{merge_requested_capabilities}
use harness_system.Pipeline.Merge.{IsUnion, merge_requested_capabilities-IsUnion}
use harness_system.Pipeline.Ledgers.{IsSound, run_task_pipeline-IsSound}
use harness_system.Pipeline.Sessions.{AddsSessions, run_task_pipeline-AddsSessions}
use harness_system.Pipeline.Tables.{Grows, run_task_pipeline-Grows}
use harness_system.Tests.Data.{
  capabilities, artifact, ceiling, changed_a, command_run, contract, digests, file_a, literal,
  one_run, passed, process_result, run_1,
}

-- An identifier for each number.
unfoldable named : ℕ → String
named zero = "id"
named (suc n) = append (named n) "'"

abbrev turn : AgentRunResult
turn = record {
  invocation_id = "invocation-1";
  protocol_status = ProtocolStatus.succeeded;
  structured_output = some "{..}";
  raw_output_artifact_ref = none;
  provider_session_ref = some "session-1";
  last_event_cursor = none;
  usage = none;
  provider_error = none;
  started_at = 50;
  completed_at = some 60;
}

abbrev provider : AgentProvider
provider = record {
  start_session =
      λ q n. replied (record { opaque_ref = "session-1"; provider_id = "fake"; role = q.role });
  start_invocation =
      λ s q n. replied (record { opaque_ref = "invocation-1"; provider_id = "fake" });
  await_result = λ i t n. replied turn;
  cancel = λ i q n. broken;
  close_session = λ s n. replied tt;
}

abbrev execution : CommandExecution
execution = record {
  command_run = command_run;
  process_result = process_result;
  stdout_artifact = some artifact;
  stderr_artifact = none;
}

abbrev lease : WorkspaceLease
lease = record {
  lease_id = "lease-1";
  repository_id = "repository";
  worktree_path_handle = "worktree";
  base_commit_sha = "0";
  branch = "branch";
  owner = "harness";
  heartbeat_at = 100;
  sandbox_profile = "workspace_write";
  created_at = 100;
  expires_at = none;
}

-- A PASS that cites the evidence that the Harness has made.
abbrev cited : VerificationResult
cited = record passed {
  criteria =
      record {
        id = "tests-pass";
        result = CriterionResult.pass;
        evidence_refs = named 53 ∷ [];
        reason = none;
        waiver_approval_ref = none;
      }
      ∷ [];
}

abbrev deps : PipelineDeps
deps = record {
  digests = digests;
  utc_now = λ n. n + 100;
  new_id = named;
  render = λ m. "text";
  re_match = literal;
  fnmatch = λ p s. false;
  rev_parse = λ n. replied "0";
  compute_repository_fingerprint = λ n. replied "fingerprint";
  verify_repository_fingerprint = λ f n. replied tt;
  create_worktree = λ q n. replied lease;
  freeze_manifest = λ n. replied ((if ltb n 40 then file_a else changed_a) ∷ [], artifact);
  execute_command = λ id n. replied execution;
  parse_task_contract = λ output t r n. some contract;
  parse_worker_result = λ output i n. none;
  parse_verification_result = λ output n. some cited;
  provider_for_role = λ role n. replied provider;
  verifier_provider_factory = λ n. replied provider;
  policy_ceiling = ceiling;
  check_command_ids = "pytest" ∷ [];
  test_path_patterns = [];
  role_profile_digest = "profile";
  decide_policy_approval = λ d n. replied true;
  decide_final_approval = λ v n. replied true;
}

abbrev task : Task
task = record {
  task_id = "task-1";
  run_id = "run-1";
  objective = "fix the bug";
  dependency_ids = [];
  active_contract_id = none;
  active_contract_revision = none;
  attempt_count = 0;
}

abbrev start : World
start = record { store = one_run; tick = 0; prompts = []; history = [] }

found : get_run one_run "run-1" ≡ some run_1
unfolding get_run
found = refl

single : HasOneRow one_run "run-1"
single = refl

inserted : insert_run run_1 empty ≡ ok one_run
unfolding insert_run has_run
inserted = refl

-- The pipeline's last world.
abbrev last : World
last = (run_task_pipeline deps run_1 task "request" start).1

abbrev merged : Run
merged = record run_1 {
  state = LifecycleState.ready_for_merge;
  state_version = 10;
  disposition = some LifecycleState.ready_for_merge;
  updated_at = 171;
}

run_task_pipeline-Over_example :
    Over deps "run-1" (run_task_pipeline deps run_1 task "request" start)
run_task_pipeline-Over_example =
    run_task_pipeline-Over deps run_1 task "request" "0" "fingerprint" start refl found single refl
      refl refl

run_task_pipeline-AllCovered_example :
    AllCovered deps (run_task_pipeline deps run_1 task "request" start).1.history
run_task_pipeline-AllCovered_example =
    run_task_pipeline-AllCovered deps run_1 task "request" "0" "fingerprint" start refl found single
      refl refl refl

run_task_pipeline-IsSound_example :
    IsSound digests (run_task_pipeline deps run_1 task "request" start).1.store
run_task_pipeline-IsSound_example = run_task_pipeline-IsSound deps run_1 task "request" start (λ i.
    insert_run-IsConsistent digests run_1 empty one_run i inserted refl refl
      (empty-IsConsistent digests))

run_task_pipeline-AddsSessions_example :
    AddsSessions start (run_task_pipeline deps run_1 task "request" start).1
run_task_pipeline-AddsSessions_example =
    run_task_pipeline-AddsSessions deps run_1 task "request" start

run_task_pipeline-Grows_example :
    Grows one_run (run_task_pipeline deps run_1 task "request" start).1.store
run_task_pipeline-Grows_example = run_task_pipeline-Grows deps run_1 task "request" start

abbrev check_capabilities : RequestedCapabilities
check_capabilities = record {
  workspace_access = WorkspaceAccessLevel.none;
  command_ids = "check" ∷ [];
  raw_shell = true;
  network_domains = [];
  package_install = false;
  external_systems = [];
  mcp_tools = [];
  database_targets = [];
}

-- A pipeline in a directory that is no repository.
abbrev lost : PipelineDeps
lost = record deps { rev_parse = λ n. broken }

run_task_pipeline-unresolved_example :
    ((run_task_pipeline lost run_1 task "request" start).0 ≡ threw (illegal_transition not_allowed))
    × ((run_task_pipeline lost run_1 task "request" start).1.store ≡ one_run)
run_task_pipeline-unresolved_example =
    run_task_pipeline-unresolved lost run_1 task "request" start refl found refl

merge_requested_capabilities-IsUnion_example :
    IsUnion capabilities check_capabilities
      (merge_requested_capabilities capabilities check_capabilities)
merge_requested_capabilities-IsUnion_example =
    merge_requested_capabilities-IsUnion capabilities check_capabilities
