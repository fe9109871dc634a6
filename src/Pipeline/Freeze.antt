-- ===== src/Pipeline/Freeze.antt =====
-- `freeze_and_validate` of src/agent_harness/execution/evidence.py, with the functions it calls. The
-- worktree is outside: reading it and running a command are questions.
use Prim.Native.String.{◌++◌ as append}
use harness_system.Prelude.{ℕ, String, List, [], ◌∷◌, ◌++◌, Option, none, some, Bool, sorted}
use harness_system.Domain.Enums.{ActorType, EvidenceTrustTier, RedactionStatus, SubjectType}
use harness_system.Domain.Models.{Artifact, EvidenceRecord, ScopeRules}
use harness_system.Domain.Validation.{assert_evidence_matches_artifact}
use harness_system.Execution.Manifest.{
  ManifestEntry, changed_paths, diff_manifests, find_test_mutations,
}
use harness_system.Execution.ScopeGuard.{find_scope_violations}
use harness_system.Execution.Frozen.{CommandExecution, FrozenValidationResult}
use harness_system.Pipeline.Exec.{M, pure, ◌>>=◌, ◌>>◌, lift, ask, draw}
use harness_system.Pipeline.Deps.{PipelineDeps}

module _ (deps : PipelineDeps) where
  -- The list comprehension over the command ids.
  unfoldable pub run_approved_checks : List String → M (List CommandExecution)
  run_approved_checks [] = pure []
  run_approved_checks (command_id ∷ ids) = do
    execution ← ask (deps.execute_command command_id)
    rest ← run_approved_checks ids
    pure (execution ∷ rest)

  -- The record of one stream of a command.
  unfoldable pub stream_record :
      String → String → CommandExecution → ℕ → String → Artifact → Bool → String → EvidenceRecord
  stream_record run_id task_id execution now stream_name artifact truncated evidence_id = record {
    evidence_id = evidence_id;
    run_id = run_id;
    task_id = task_id;
    subject_type = SubjectType.command_run;
    subject_id = execution.command_run.command_spec_id;
    subject_digest = artifact.content_digest;
    kind = append "command_" stream_name;
    provenance = record {
      producer_type = ActorType.host_test_runner;
      producer_id = "command-broker";
      invocation_id = none;
      collection_method = "direct_process_observation";
      trust_tier = EvidenceTrustTier.host_observed;
    };
    artifact_refs = artifact.artifact_id ∷ [];
    media_type = artifact.media_type;
    content_digest = artifact.content_digest;
    size_bytes = artifact.size_bytes;
    created_at = now;
    redaction_status = RedactionStatus.none;
    truncated = truncated;
    verification_relevance = execution.command_run.command_spec_id ∷ [];
  }

  -- One round of the loop over the two streams.
  unfoldable pub stream_evidence :
      String
      → String
      → CommandExecution
      → ℕ
      → String
      → Option Artifact
      → Bool
      → M (List EvidenceRecord)
  stream_evidence run_id task_id execution now stream_name none truncated = pure []
  stream_evidence run_id task_id execution now stream_name (some artifact) truncated = do
    evidence_id ← draw deps.new_id
    let evidence =
        stream_record run_id task_id execution now stream_name artifact truncated evidence_id
    lift (assert_evidence_matches_artifact evidence artifact)
    pure (evidence ∷ [])

  unfoldable pub build_command_evidence :
      String → String → CommandExecution → ℕ → M (List EvidenceRecord)
  unfolding stream_evidence
  build_command_evidence run_id task_id execution now = do
    out ←
        stream_evidence run_id task_id execution now "stdout" execution.stdout_artifact
          execution.process_result.stdout_truncated
    err ←
        stream_evidence run_id task_id execution now "stderr" execution.stderr_artifact
          execution.process_result.stderr_truncated
    pure (out ++ err)

  -- The loop over the executions.
  unfoldable pub build_evidence :
      String → String → ℕ → List CommandExecution → M (List EvidenceRecord)
  build_evidence run_id task_id now [] = pure []
  build_evidence run_id task_id now (execution ∷ executions) = do
    records ← build_command_evidence run_id task_id execution now
    rest ← build_evidence run_id task_id now executions
    pure (records ++ rest)

  -- The result for what was read and run, in the order of the source.
  unfoldable pub frozen_result :
      ScopeRules
      → List ManifestEntry × Artifact
      → List ManifestEntry × Artifact
      → List CommandExecution
      → List ManifestEntry × Artifact
      → List EvidenceRecord
      → FrozenValidationResult
  frozen_result scope (baseline_manifest, baseline_artifact) (result_manifest, result_artifact)
        check_executions (post_test_manifest, post_test_artifact) evidence =
      let manifest_diff = diff_manifests baseline_manifest result_manifest in
      record {
        baseline_manifest = baseline_manifest;
        result_manifest = result_manifest;
        baseline_artifact = baseline_artifact;
        result_artifact = result_artifact;
        manifest_diff = manifest_diff;
        test_mutations = find_test_mutations deps.fnmatch manifest_diff deps.test_path_patterns;
        check_executions = check_executions;
        evidence = evidence;
        scope_violations =
            find_scope_violations deps.re_match manifest_diff scope (some baseline_manifest)
              (some result_manifest);
        post_test_manifest = post_test_manifest;
        post_test_artifact = some post_test_artifact;
        test_side_effects =
            sorted (changed_paths (diff_manifests result_manifest post_test_manifest));
      }

  unfoldable pub freeze_and_validate :
      String → String → List ManifestEntry × Artifact → ScopeRules → ℕ → M FrozenValidationResult
  freeze_and_validate run_id task_id baseline scope now = do
    result ← ask deps.freeze_manifest
    check_executions ← run_approved_checks deps.check_command_ids
    post_test ← ask deps.freeze_manifest
    evidence ← build_evidence run_id task_id now check_executions
    pure (frozen_result scope baseline result check_executions post_test evidence)
